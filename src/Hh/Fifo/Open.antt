-- ===== src/Hh/Fifo/Open.antt =====
-- Opening a queue on an empty directory.
use influxdb_cluster.Prelude.{ℕ, ◌+◌, ◌≤◌, ◌<◌, ◌≡◌, refl, inl, List, [], ◌∷◌, length, arith}
use influxdb_cluster.Prelude.Bytes.{put_uint64, word, half_word}
use influxdb_cluster.Hh.Exec.{ok}
use influxdb_cluster.Hh.Os.{overwrite, write, sync, stat}
use influxdb_cluster.Hh.Directory.{
  Directory, same_name, sort_by_name, read_dir, lookup, open_entry, open_file, store_content,
}
use influxdb_cluster.Hh.Directory.Names.{format_uint, digits}
use influxdb_cluster.Hh.Segment.{
  open_segment, open_new, new_segment, write_uint64, write_bytes, sync_file, current,
}
use influxdb_cluster.Hh.Segment.Layout.{frames, head_size, segment_of}
use influxdb_cluster.Hh.Fifo.Grow.{next_id}
use influxdb_cluster.Hh.Fifo.Append.{HasRoom, TailTakes}
use influxdb_cluster.Hh.Directory.{insert_by_name, name_before}
use influxdb_cluster.Hh.Directory.Names.{parse_uint, parse_digits}
use influxdb_cluster.Hh.Segment.{disk_usage}
use influxdb_cluster.Hh.Queue.{queue_usage, usage, raise_id}
use influxdb_cluster.Hh.Queue.{
  new_queue, on_segment, max_id, next_segment_id, adopt, make_segment, add_segment, load_each,
  load_segments, trim_at_end, trim, trim_head, open_queue,
}
use influxdb_cluster.Hh.Fifo.{Part, part, pending, IsFifo}

-- A directory with nothing in it, where every call succeeds.
abbrev pub empty_dir : Directory
empty_dir = record { entries = []; outcomes = []; fresh = [] }

abbrev first_part : Part
first_part = part 0 (b'1' ∷ []) [] [] 8

-- The queue that opening an empty directory makes has nothing pending.
unfoldable pub opened_fifo :
    (max_size : ℕ) → IsFifo (open_queue (new_queue empty_dir max_size)).1 []
unfolding open_queue load_segments read_dir sort_by_name load_each add_segment next_segment_id
    max_id make_segment open_file open_entry lookup same_name new_segment stat open_segment open_new
    write_uint64 write_bytes write overwrite sync_file sync adopt store_content on_segment current
    trim_at_end trim_head trim new_queue format_uint digits put_uint64 segment_of frames head_size
    pending
opened_fifo max_size = record {
  parts = first_part ∷ [];
  inv = record {
    refs = refl;
    holds = (omega arith, refl, record { within = omega arith; full = tt }, omega arith);
    bound = omega arith;
    head = refl;
    tail = refl;
    listed = ((_, refl), tt, tt);
    files = (refl, tt);
    calls = refl;
    fresh = refl;
  };
  view_eq = refl;
  live = tt;
}

-- `Open` on an empty directory makes an open queue with nothing pending.
pub open_queue-IsFifo :
    (max_size : ℕ)
    → ((open_queue (new_queue empty_dir max_size)).0 ≡ ok tt)
      × IsFifo (open_queue (new_queue empty_dir max_size)).1 []
unfolding open_queue load_segments read_dir sort_by_name load_each add_segment next_segment_id
    max_id make_segment open_file open_entry lookup same_name new_segment stat open_segment open_new
    write_uint64 write_bytes write overwrite sync_file sync adopt store_content on_segment current
    trim_at_end trim_head trim new_queue format_uint digits put_uint64 segment_of frames head_size
    pending
open_queue-IsFifo max_size = (refl, opened_fifo max_size)

-- It takes what fits in a segment, and in the queue.
pub opened_takes :
    (max_size : ℕ) (b : List ℕ)
    → length b + 16 ≤ 10485760
    → length b + 16 ≤ max_size
    → max_size < half_word
    → let q = (open_queue (new_queue empty_dir max_size)).1 in
      HasRoom q b
      × (length b + 8 ≤ q.max_segment_size)
      × (next_id q < word)
      × TailTakes q.max_segment_size b (opened_fifo max_size).parts
unfolding open_queue load_segments read_dir sort_by_name load_each add_segment next_segment_id
    max_id make_segment open_file open_entry lookup same_name new_segment stat open_segment open_new
    write_uint64 write_bytes write overwrite sync_file sync adopt store_content on_segment current
    trim_at_end trim_head trim new_queue format_uint digits put_uint64 segment_of frames head_size
    pending opened_fifo queue_usage usage disk_usage raise_id insert_by_name name_before parse_uint
    parse_digits
opened_takes max_size b short room small =
    ((omega arith, small), omega arith, omega arith, inl (omega arith))

-- ===== src/Hh/Tests.antt =====
-- The theorems on the queue of hh/queue.go at concrete data: a queue with two segments, of which the
-- first is read in part.
use influxdb_cluster.Prelude.{
  none, ℕ, ◌≡◌, ◌≢◌, refl, false, some, inr, List, [], ◌∷◌, arith, if◌then◌else◌, ◌==◌,
}
use influxdb_cluster.Prelude.Bytes.{put_uint64}
use influxdb_cluster.Hh.Exec.{Result, ok, err, eof, not_open}
use influxdb_cluster.Hh.Os.{File}
use influxdb_cluster.Hh.Os.Laws.{healthy}
use influxdb_cluster.Hh.Directory.{
  without, Entry, same_name, lookup, sort_by_name, insert_by_name, name_before,
}
use influxdb_cluster.Hh.Directory.Names.{parse_uint, parse_digits}
use influxdb_cluster.Hh.Segment.{append, disk_usage, is_nil}
use influxdb_cluster.Hh.Segment.Layout.{frames, segment_of}
use influxdb_cluster.Hh.Segment.Reopen.{file_bytes}
use influxdb_cluster.Hh.Queue.{
  purge_older_than, Queue, new_queue, open_queue, queue_append, queue_current, queue_advance,
  queue_usage, usage, trim_head, on_segment, no_segment, raise_id, max_id,
}
use influxdb_cluster.Hh.Fifo.{Part, part, segment, pending, IsQueue, IsFifo}
use influxdb_cluster.Hh.Fifo.Open.{empty_dir, opened_fifo}
use influxdb_cluster.Hh.Fifo.Read.{queue_current-IsFifo, queue_current-IsFifo_eof}
use influxdb_cluster.Hh.Fifo.Append.{queue_append-IsFifo}
use influxdb_cluster.Hh.Fifo.Advance.{queue_advance-IsFifo}
use influxdb_cluster.Hh.Fifo.Trim.{trim_head-IsQueue}
use influxdb_cluster.Hh.Lost.{append_lost}

abbrev one_part : Part
one_part = part 0 (b'1' ∷ []) ((9 ∷ []) ∷ []) ((1 ∷ 2 ∷ []) ∷ []) 0

abbrev two_part : Part
two_part = part 1 (b'2' ∷ []) [] ((3 ∷ []) ∷ (4 ∷ []) ∷ []) 0

abbrev file_of : Part → File
file_of p = healthy (file_bytes p.passed p.held) p.cursor

abbrev entry_of : Part → Entry
entry_of p = record { name = p.path; is_dir = false; content = file_of p }

abbrev two_queue : Queue
two_queue = record {
  dir = record { entries = entry_of one_part ∷ entry_of two_part ∷ []; outcomes = []; fresh = [] };
  head = some 0;
  tail = some 1;
  max_segment_size = 40;
  max_size = 1000;
  segments = 0 ∷ 1 ∷ [];
  is_nil = false;
  objects = λ r. if r == 0 then segment 40 one_part else segment 40 two_part;
  next_ref = 2;
}

two_queue-IsQueue : IsQueue two_queue (one_part ∷ two_part ∷ [])
unfolding frames put_uint64 lookup same_name
two_queue-IsQueue = record {
  refs = refl;
  holds = (
    omega arith,
    refl,
    record { within = omega arith; full = (omega arith, tt) },
    (
      omega arith,
      refl,
      record { within = omega arith; full = (omega arith, (omega arith, tt)) },
      omega arith,
    ),
  );
  bound = omega arith;
  head = refl;
  tail = refl;
  listed = ((_, refl), (refl, tt), ((_, refl), tt, tt));
  files = (refl, (refl, tt));
  calls = refl;
  fresh = refl;
}

some_held : one_part.held ≢ []
some_held = λ e. cc e

abbrev two_fifo : IsFifo two_queue ((1 ∷ 2 ∷ []) ∷ (3 ∷ []) ∷ (4 ∷ []) ∷ [])
unfolding pending
two_fifo = record {
  parts = one_part ∷ two_part ∷ [];
  inv = two_queue-IsQueue;
  view_eq = refl;
  live = (some_held, tt);
}

queue_current-IsFifo_example :
    ((queue_current two_queue).0 ≡ ok (1 ∷ 2 ∷ []))
    × IsFifo (queue_current two_queue).1 ((1 ∷ 2 ∷ []) ∷ (3 ∷ []) ∷ (4 ∷ []) ∷ [])
queue_current-IsFifo_example =
    queue_current-IsFifo two_queue (1 ∷ 2 ∷ []) ((3 ∷ []) ∷ (4 ∷ []) ∷ []) two_fifo

-- The block is the last one of the head, which is dropped.
queue_advance-IsFifo_example :
    ((queue_advance two_queue).0 ≡ ok tt)
    × IsFifo (queue_advance two_queue).1 ((3 ∷ []) ∷ (4 ∷ []) ∷ [])
queue_advance-IsFifo_example =
    queue_advance-IsFifo two_queue (1 ∷ 2 ∷ []) ((3 ∷ []) ∷ (4 ∷ []) ∷ []) two_fifo

two_usage : queue_usage two_queue ≡ 53
unfolding queue_usage usage disk_usage segment_of frames put_uint64
two_usage = refl

two_next : max_id 0 (sort_by_name two_queue.dir.entries) ≡ 2
unfolding max_id raise_id sort_by_name insert_by_name name_before parse_uint parse_digits
two_next = refl

abbrev long_block : List ℕ
long_block = 5 ∷ 6 ∷ 7 ∷ 8 ∷ 9 ∷ 10 ∷ 11 ∷ 12 ∷ 13 ∷ 14 ∷ []

-- A block that goes to a new segment.
queue_append-IsFifo_example :
    ((queue_append long_block two_queue).0 ≡ ok tt)
    × IsFifo
        (queue_append long_block two_queue).1
        ((1 ∷ 2 ∷ []) ∷ (3 ∷ []) ∷ (4 ∷ []) ∷ long_block ∷ [])
unfolding two_fifo
queue_append-IsFifo_example =
    queue_append-IsFifo two_queue _ long_block two_fifo (omega (arith, two_usage), omega arith)
      (omega arith) (omega arith) (rw two_next (omega arith)) (inr (λ e. cc e))

trim_head-IsQueue_example :
    ((trim_head two_queue).0 ≡ ok tt)
    × IsQueue (trim_head two_queue).1 (two_part ∷ [])
    × (((trim_head two_queue).1.objects one_part.ref).file ≡ none)
    × ((trim_head two_queue).1.dir.entries ≡ without one_part.path two_queue.dir.entries)
trim_head-IsQueue_example = trim_head-IsQueue two_queue one_part two_part [] two_queue-IsQueue

-- A queue whose only segment is read to its end, and has no room for a long block.
abbrev end_part : Part
end_part = part 0 (b'1' ∷ []) ((1 ∷ 2 ∷ 3 ∷ 4 ∷ 5 ∷ []) ∷ (5 ∷ 6 ∷ []) ∷ []) [] 0

abbrev end_queue : Queue
end_queue = record two_queue {
  dir = record { entries = entry_of end_part ∷ []; outcomes = []; fresh = [] };
  tail = some 0;
  segments = 0 ∷ [];
  objects = λ r. segment 40 end_part;
  next_ref = 1;
}

abbrev after_long : Queue
after_long = (queue_append long_block end_queue).1

queue_current-IsFifo_eof_example :
    ((queue_current (open_queue (new_queue empty_dir 1000)).1).0 ≡ err eof)
    × IsFifo (queue_current (open_queue (new_queue empty_dir 1000)).1).1 []
queue_current-IsFifo_eof_example =
    queue_current-IsFifo_eof (open_queue (new_queue empty_dir 1000)).1 (opened_fifo 1000)

-- A queue whose tail is closed.
abbrev closed_queue : Queue
closed_queue = record end_queue { objects = λ r. record no_segment { path = b'1' ∷ [] } }

closed_usage : queue_usage closed_queue ≡ 0
unfolding queue_usage usage disk_usage
closed_usage = refl

closed_append : (append long_block (closed_queue.objects 0)).0 ≡ err not_open
unfolding append is_nil
closed_append = refl

append_lost_example :
    ((queue_append long_block closed_queue).0 ≡ ok tt)
    × ((r : ℕ) → (queue_append long_block closed_queue).1.objects r ≡ closed_queue.objects r)
    × ((queue_append long_block closed_queue).1.dir ≡ closed_queue.dir)
    × ((queue_append long_block closed_queue).1.segments ≡ closed_queue.segments)
append_lost_example =
    append_lost closed_queue 0 long_block refl (omega (arith, closed_usage), omega arith) refl

-- `PurgeOlderThan` on a queue of one old segment: the tail stays at the segment, which is closed.
abbrev purged : Result (Unit {0}) × Queue
purged =
    purge_older_than (λ name. if same_name name (b'1' ∷ []) then some 0 else some 9000000000) 3
      5000000000 end_queue

purged_tail_closed :
    (purged.0 ≡ ok tt)
    × (purged.1.tail ≡ some 0)
    × ((purged.1.objects 0).file ≡ none)
    × (purged.1.segments ≡ 1 ∷ [])
unfolding purge_older_than influxdb_cluster.Hh.Queue.purge influxdb_cluster.Hh.Queue.head_modified
    influxdb_cluster.Hh.Queue.last_modified segment_of same_name influxdb_cluster.Hh.Queue.make_room
    influxdb_cluster.Hh.Queue.add_segment influxdb_cluster.Hh.Queue.next_segment_id
    influxdb_cluster.Hh.Directory.read_dir influxdb_cluster.Hh.Queue.make_segment
    influxdb_cluster.Hh.Directory.open_file influxdb_cluster.Hh.Directory.open_entry lookup
    influxdb_cluster.Hh.Directory.Names.format_uint influxdb_cluster.Hh.Directory.Names.digits
    max_id sort_by_name parse_digits parse_uint insert_by_name name_before
    influxdb_cluster.Hh.Directory.remove influxdb_cluster.Hh.Directory.remove_entry
    influxdb_cluster.Hh.Directory.store_content influxdb_cluster.Hh.Directory.without
    influxdb_cluster.Hh.Os.close influxdb_cluster.Hh.Os.overwrite influxdb_cluster.Hh.Os.stat
    influxdb_cluster.Hh.Os.sync influxdb_cluster.Hh.Os.write influxdb_cluster.Hh.Queue.close_object
    influxdb_cluster.Hh.Queue.trim trim_head influxdb_cluster.Hh.Queue.adopt on_segment raise_id
    frames influxdb_cluster.Hh.Segment.Layout.head_size influxdb_cluster.Hh.Segment.close_segment
    influxdb_cluster.Hh.Segment.new_segment influxdb_cluster.Hh.Segment.open_new
    influxdb_cluster.Hh.Segment.open_segment influxdb_cluster.Hh.Segment.sync_file
    influxdb_cluster.Hh.Segment.write_bytes influxdb_cluster.Hh.Segment.write_uint64 put_uint64
purged_tail_closed = (refl, refl, refl, refl)

-- The directory lists the tenth segment before the ninth.
tenth_first :
    sort_by_name (
      record { name = b'9' ∷ []; is_dir = false; content = healthy [] 0 }
      ∷ record { name = b'1' ∷ b'0' ∷ []; is_dir = false; content = healthy [] 0 }
      ∷ [])
    ≡ record { name = b'1' ∷ b'0' ∷ []; is_dir = false; content = healthy [] 0 }
      ∷ record { name = b'9' ∷ []; is_dir = false; content = healthy [] 0 }
      ∷ []
unfolding sort_by_name insert_by_name name_before
tenth_first = refl

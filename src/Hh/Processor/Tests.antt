-- ===== src/Hh/Processor/Tests.antt =====
-- The theorems on a NodeProcessor of hh/node_processor.go at concrete data: points are lines.
use influxdb_cluster.Prelude.{
  ℕ, suc, ◌+◌, ◌≤◌, ◌<◌, ◌≡◌, refl, Bool, true, false, none, some, inl, List, [], ◌∷◌, ◌++◌, length,
  arith, ◌==◌, if◌then◌else◌,
}
use influxdb_cluster.Prelude.Bytes.{put_uint64}
use influxdb_cluster.Hh.Exec.{Result, ok, err, panic, os_error, unreachable}
use influxdb_cluster.Hh.Os.{fails_after}
use influxdb_cluster.Hh.Os.Laws.{healthy}
use influxdb_cluster.Hh.Directory.{
  Entry, same_name, lookup, sort_by_name, insert_by_name, name_before,
}
use influxdb_cluster.Hh.Directory.Names.{parse_uint, parse_digits}
use influxdb_cluster.Hh.Segment.{disk_usage}
use influxdb_cluster.Hh.Segment.Layout.{frames, blocks, segment_of}
use influxdb_cluster.Hh.Segment.Reopen.{file_bytes}
use influxdb_cluster.Hh.Queue.{Queue, raise_id, max_id, usage, queue_usage}
use influxdb_cluster.Hh.Fifo.{Part, part, segment, pending}
use influxdb_cluster.Hh.Fifo.Open.{empty_dir}
use influxdb_cluster.Hh.Processor.Write.{
  lines, marshal_write, unmarshal_write, unmarshal_write-marshal_write,
}
use influxdb_cluster.Hh.Processor.Life.{NodeProcessor, make_dir, open_processor, hint_shard}
use influxdb_cluster.Hh.Processor.Send.{Peers, send_write, send_all}
use influxdb_cluster.Hh.Processor.Fifo.{Pending, Does, send_view, send_write-Does}
use influxdb_cluster.Hh.Processor.Loop.{Within, send_all-ends, send_all-delivers}
use influxdb_cluster.Hh.Processor.Hint.{hint_shard-Pending, open_failed}

split_from : List ℕ → List ℕ → List (List ℕ)
split_from line [] = []
split_from line (c ∷ cs) =
    if c == b'\n' then line ∷ split_from [] cs else split_from (line ++ c ∷ []) cs

abbrev parse : List ℕ → Result (List (List ℕ))
parse bs = ok (split_from [] bs)

abbrev pub cpu : List ℕ
cpu = b'c' ∷ b'p' ∷ b'u' ∷ []

unmarshal_write-marshal_write_example :
    unmarshal_write parse (marshal_write (λ l. l) 7 (cpu ∷ [])) ≡ ok (7, cpu ∷ [])
unmarshal_write-marshal_write_example =
    unmarshal_write-marshal_write (λ l. l) parse 7 (cpu ∷ []) lines_read (omega arith)
  where
    lines_read : parse (lines (λ l. l) (cpu ∷ [])) ≡ ok (cpu ∷ [])
    lines_read = unfold lines in (unfold split_from in refl)

-- The block of a write of one point to shard 7.
abbrev pub block : List ℕ
block = 0 ∷ 0 ∷ 0 ∷ 0 ∷ 0 ∷ 0 ∷ 0 ∷ 7 ∷ b'm' ∷ b'\n' ∷ []

abbrev pub test_part : Part
test_part = part 0 (b'1' ∷ []) [] (block ∷ []) 0

abbrev pub test_entry : Entry
test_entry = record {
  name = b'1' ∷ [];
  is_dir = false;
  content = healthy (file_bytes [] (block ∷ [])) 0;
}

abbrev pub test_queue : Queue
test_queue = record {
  dir = record { entries = test_entry ∷ []; outcomes = []; fresh = [] };
  head = some 0;
  tail = some 0;
  max_segment_size = 100;
  max_size = 1000;
  segments = 0 ∷ [];
  is_nil = false;
  objects = λ r. segment 100 test_part;
  next_ref = 1;
}

abbrev pub closed_processor : NodeProcessor (List ℕ)
closed_processor = record {
  node_id = 3;
  max_size = 1000;
  retry_interval = 5;
  retry_max_interval = 60;
  done = false;
  queue = none;
  dir = empty_dir;
  write_shard_req = 0;
  write_shard_req_points = 0;
  write_node_req = 0;
  write_node_req_fail = 0;
  write_node_req_points = 0;
  attempts = 0;
  sent = [];
}

abbrev pub processor : NodeProcessor (List ℕ)
processor = record closed_processor { done = true; queue = some test_queue }

unfoldable pub processor-Pending : Pending processor (block ∷ [])
unfolding frames put_uint64 lookup same_name pending
processor-Pending = record {
  queue = test_queue;
  queue_eq = refl;
  fifo = record {
    parts = test_part ∷ [];
    inv = record {
      refs = refl;
      holds = (
        omega arith,
        refl,
        record { within = omega arith; full = (omega arith, tt) },
        omega arith,
      );
      bound = omega arith;
      head = refl;
      tail = refl;
      listed = ((_, refl), tt, tt);
      files = (refl, tt);
      calls = refl;
      fresh = refl;
    };
    view_eq = refl;
    live = tt;
  };
}

-- The node refuses the first write.
abbrev flaky : Peers (List ℕ)
flaky = record {
  data_node = λ attempt node. ok true;
  parse_points = parse;
  write_shard = λ attempt shard_id node points. if attempt == 0 then err unreachable else ok tt;
}

abbrev good : Peers (List ℕ)
good = record flaky { write_shard = λ attempt shard_id node points. ok tt }

send_write-Does_example :
    Does processor (send_write flaky processor) (send_view flaky 0 3 (block ∷ []))
send_write-Does_example = send_write-Does flaky processor (block ∷ []) processor-Pending

send_all-ends_example :
    Within 60 (send_all flaky 2 5 processor).0
    × ((left : List (List ℕ)) × Pending (send_all flaky 2 5 processor).1 left)
send_all-ends_example =
    send_all-ends flaky 2 5 60 processor (block ∷ []) processor-Pending (omega arith) (omega arith)
      (omega arith) (omega arith) (omega arith)

block_read : unmarshal_write parse block ≡ ok (7, (b'm' ∷ []) ∷ [])
unfolding unmarshal_write split_from influxdb_cluster.Prelude.Bytes.uint64
block_read = refl

send_all-delivers_example :
    ((send_all good 2 5 processor).0 ≡ ok 5)
    × Pending (send_all good 2 5 processor).1 []
    × ((send_all good 2 5 processor).1.sent ≡ (7, (b'm' ∷ []) ∷ []) ∷ [])
send_all-delivers_example =
    send_all-delivers good 2 5 processor (block ∷ []) ((7, (b'm' ∷ []) ∷ []) ∷ []) processor-Pending
      (omega arith) (record { known = λ attempt node. refl; takes = λ a s n p. refl })
      (block_read, tt)

pub test_usage : queue_usage test_queue ≡ 26
unfolding queue_usage usage disk_usage segment_of frames put_uint64
test_usage = refl

pub test_next : max_id 0 (sort_by_name test_queue.dir.entries) ≡ 1
unfolding max_id raise_id sort_by_name insert_by_name name_before parse_uint parse_digits
test_next = refl

pub test_blocks : length (blocks [] (block ∷ [])) ≡ 18
unfolding frames put_uint64
test_blocks = refl

pub cpu_write : length (marshal_write (λ l. l) 7 (cpu ∷ [])) ≡ 12
unfolding marshal_write lines put_uint64
cpu_write = refl

hint_shard-Pending_example :
    ((hint_shard (λ l. l) 7 (cpu ∷ []) processor).0 ≡ ok tt)
    × Pending
        (hint_shard (λ l. l) 7 (cpu ∷ []) processor).1
        (block ∷ marshal_write (λ l. l) 7 (cpu ∷ []) ∷ [])
unfolding processor-Pending
hint_shard-Pending_example =
    hint_shard-Pending (λ l. l) 7 (cpu ∷ []) processor (block ∷ []) processor-Pending refl
      (record {
        room = (omega (arith, test_usage, cpu_write), omega arith);
        short = omega (arith, cpu_write);
        small = rw test_next (omega arith);
        tail = inl (omega (arith, test_blocks, cpu_write));
      })

-- The directory cannot be made.
abbrev broken : NodeProcessor (List ℕ)
broken = record closed_processor { dir = record empty_dir { outcomes = fails_after 0 ∷ [] } }

broken_open : (open_processor broken).0 ≡ err os_error
unfolding open_processor make_dir
broken_open = refl

open_failed_example :
    (open_processor (open_processor broken).1 ≡ (ok tt, (open_processor broken).1))
    × ((hint_shard (λ l. l) 7 (cpu ∷ []) (open_processor broken).1).0 ≡ err panic)
open_failed_example = open_failed (λ l. l) 7 (cpu ∷ []) broken os_error refl refl broken_open

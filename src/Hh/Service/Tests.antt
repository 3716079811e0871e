-- ===== src/Hh/Service/Tests.antt =====
-- The theorems on hh/service.go at concrete data: points are lines.
use influxdb_cluster.Prelude.{
  ℕ, ◌≡◌, ◌≢◌, ◌↔◌, refl, Bool, true, false, Option, none, some, inl, List, [], ◌∷◌, arith,
}
use influxdb_cluster.Hh.Exec.{ok}
use influxdb_cluster.Hh.Processor.Write.{marshal_write}
use influxdb_cluster.Hh.Fifo.Open.{empty_dir}
use influxdb_cluster.Hh.Processor.Tests.{
  block, cpu, processor, processor-Pending, test_usage, test_next, test_blocks, cpu_write,
}
use influxdb_cluster.Hh.Processor.Life.{
  NodeProcessor, processor_last_modified, close_processor, purge_processor,
}
use influxdb_cluster.Hh.Queue.{
  queue_last_modified, last_modified, close_queue, close_each, close_object, on_segment,
}
use influxdb_cluster.Hh.Directory.{remove_all, store_content}
use influxdb_cluster.Hh.Segment.{close_segment}
use influxdb_cluster.Hh.Segment.Layout.{segment_of}
use influxdb_cluster.Hh.Os.{close}
use influxdb_cluster.Hh.Service.{
  Service, find, write_shard, purge_one, drop_purged, purge_closed, purge_inactive, purge_modified,
  purge_inactive_processors,
}
use influxdb_cluster.Hh.Service.Writes.{Hinted, write_shard-Hinted, write_shard-Hinted_first}
use influxdb_cluster.Hh.Service.Purge.{IsStale, LeftOr, purge-IsStale}
use influxdb_cluster.Hh.Service.Closing.{
  Threads, selecting, ticked, not_called, waiting, CanReturn, CloseSteps, step, stop, tick,
  call_close, close_channel, close_never_returns,
}

abbrev service : Service (List ℕ)
service = record {
  enabled = true;
  max_age = 100;
  processors = (3, processor) ∷ [];
  disks = λ id. empty_dir;
  running = true;
}

there : find 3 service.processors ≡ some processor
unfolding find
there = refl

write_shard-Hinted_example :
    let r = write_shard (λ l. l) 7 3 (cpu ∷ []) service in
    (r.0 ≡ ok tt) × Hinted service r.1 3 (block ∷ marshal_write (λ l. l) 7 (cpu ∷ []) ∷ [])
unfolding processor-Pending
write_shard-Hinted_example =
    write_shard-Hinted (λ l. l) 7 3 (cpu ∷ []) service processor (block ∷ []) processor-Pending refl
      there refl
      (record {
        room = (omega (arith, test_usage, cpu_write), omega arith);
        short = omega (arith, cpu_write);
        small = rw test_next (omega arith);
        tail = inl (omega (arith, test_blocks, cpu_write));
      })

missing : find 4 service.processors ≡ none
unfolding find
missing = refl

write_shard-Hinted_first_example :
    let r = write_shard (λ l. l) 7 4 (cpu ∷ []) service in
    (r.0 ≡ ok tt) × Hinted service r.1 4 (marshal_write (λ l. l) 7 (cpu ∷ []) ∷ [])
write_shard-Hinted_first_example =
    write_shard-Hinted_first (λ l. l) 7 4 (cpu ∷ []) service refl missing refl
      (omega (arith, cpu_write))

modified_at : (processor_last_modified (λ name. some 5) processor).0 ≡ ok 5
unfolding processor_last_modified queue_last_modified last_modified segment_of
modified_at = refl

closes : (close_processor (processor_last_modified (λ name. some 5) processor).1).0 ≡ ok tt
unfolding processor_last_modified queue_last_modified last_modified close_processor close_queue
    close_each close_object on_segment close_segment store_content segment_of close
closes = refl

purge-IsStale_example :
    (t : Service (List ℕ)) × (purge_inactive_processors
        (λ id name. some 5)
        (λ n. ok false)
        1000
        service
      ≡ some t)
    × ((id : ℕ) (p : NodeProcessor (List ℕ))
        → find id service.processors ≡ some p
        → LeftOr
            (IsStale (λ n. ok false) (λ name. some 5) 1000 100 p)
            (purge_one (λ name. some 5) (λ n. ok false) 1000 100 p)
            (find id t.processors))
unfolding find
purge-IsStale_example =
    purge-IsStale (λ id name. some 5) (λ n. ok false) 1000 service
      (record { calm_tail = λ e. cc (modified_at, e); calm_close = λ e. cc (closes, e) }, tt)
      (refl, tt)

deletes : Option (Bool × NodeProcessor (List ℕ)) → Bool
deletes none = false
deletes (some r) = r.0

-- This pass deletes the processor.
purge_deletes : deletes (purge_one (λ name. some 5) (λ n. ok false) 1000 100 processor) ≡ true
unfolding purge_one purge_modified purge_inactive purge_closed drop_purged processor_last_modified
    queue_last_modified last_modified close_processor close_queue close_each close_object on_segment
    close_segment store_content purge_processor remove_all deletes segment_of close
purge_deletes = refl

abbrev due : Threads
due = record { purger = ticked; closer = waiting }

abbrev idle : Threads
idle = record { purger = selecting; closer = not_called }

-- A tick comes, and Close is called, and waits, before the pass has the lock.
due_reached : CloseSteps idle due
due_reached = step tick (step (call_close (λ e. cc e)) (step close_channel stop))

close_never_returns_example : CanReturn due ↔ (ticked ≢ ticked)
close_never_returns_example = close_never_returns ticked

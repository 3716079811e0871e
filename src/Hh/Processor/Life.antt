-- ===== src/Hh/Processor/Life.antt =====
-- The state of a NodeProcessor, and how it is opened, closed, purged and written to.
use influxdb_cluster.Prelude.{
  ℕ, Bool, true, false, not, Option, none, some, List, length, if◌then◌else◌,
}
use influxdb_cluster.Prelude.Bytes.{add64}
use influxdb_cluster.Hh.Exec.{
  Result, ok, err, panic, processor_open, processor_closed, Exec, ◌>>=◌, ◌>>◌, pure, get, modify,
  fail_if,
}
use influxdb_cluster.Hh.Os.{FileName}
use influxdb_cluster.Hh.Directory.{Directory, dir_call, remove_all}
use influxdb_cluster.Hh.Queue.{
  Queue, new_queue, open_queue, close_queue, queue_append, queue_last_modified,
}
use influxdb_cluster.Hh.Processor.Write.{marshal_write}

-- `done` says that the channel `done` is not nil, and `queue` is `none` for a nil pointer. `dir` is
-- the directory until there is a queue over it. The counters are those of `statMap`. `attempts`
-- and `sent` record the calls of SendWrite and the writes that the node took.
pub record NodeProcessor (Point : Type 0) : Type 0 where
  pub node_id : ℕ
  pub max_size : ℕ
  pub retry_interval : ℕ
  pub retry_max_interval : ℕ
  pub done : Bool
  pub queue : Option Queue
  pub dir : Directory
  pub write_shard_req : ℕ
  pub write_shard_req_points : ℕ
  pub write_node_req : ℕ
  pub write_node_req_fail : ℕ
  pub write_node_req_points : ℕ
  pub attempts : ℕ
  pub sent : List (ℕ × List Point)

-- `os.MkdirAll` on the directory.
unfoldable pub make_dir : Exec Directory (Unit {0})
make_dir d = dir_call (λ e. (ok tt, e)) d.outcomes d

module _ {Point : Type 0} where
  -- A call on the queue; on a nil pointer it panics.
  abbrev pub call_queue : {A : Type 0} → Option Queue → Exec Queue A → Exec (NodeProcessor Point) A
  call_queue none m n = (err panic, n)
  call_queue (some q) m n = ((m q).0, record n { queue = some (m q).1 })

  abbrev pub on_queue : {A : Type 0} → Exec Queue A → Exec (NodeProcessor Point) A
  on_queue m n = call_queue n.queue m n

  -- The directory as it is on the disk.
  abbrev pub on_disk : {A : Type 0} → Option Queue → Exec Directory A → Exec (NodeProcessor Point) A
  on_disk none m n = ((m n.dir).0, record n { dir = (m n.dir).1 })
  on_disk (some q) m n = ((m q.dir).0, record n { queue = some (record q { dir = (m q.dir).1 }) })

  abbrev pub disk : NodeProcessor Point → Directory
  disk n = elim n.queue [ none ↦ n.dir | some q ↦ q.dir ]

  -- The queue is kept only if it opens. What opening wrote is on the disk in any case.
  unfoldable pub keep_queue : Result (Unit {0}) → Queue → Exec (NodeProcessor Point) (Unit {0})
  keep_queue (ok _) q n = (ok tt, record n { queue = some q })
  keep_queue (err e) q n = (err e, (on_disk n.queue (λ d. (ok tt, q.dir)) n).1)

  unfoldable pub open_new_queue : Exec (NodeProcessor Point) (Unit {0})
  open_new_queue n =
      let opened = open_queue (new_queue (disk n) n.max_size) in keep_queue opened.0 opened.1 n

  -- `Open`, without the goroutine that it starts.
  unfoldable pub open_processor : Exec (NodeProcessor Point) (Unit {0})
  open_processor = do
    n ← get
    if n.done then pure tt else (do
      modify (λ m. record m { done = true })
      λ m. on_disk m.queue make_dir m
      open_new_queue)

  -- `Close`, after the goroutine has stopped.
  unfoldable pub close_processor : Exec (NodeProcessor Point) (Unit {0})
  close_processor = do
    n ← get
    if not n.done
        then pure tt
        else (do modify (λ m. record m { done = false }); on_queue close_queue)

  unfoldable pub purge_processor : Exec (NodeProcessor Point) (Unit {0})
  purge_processor = do n ← get; fail_if n.done processor_open; λ m. on_disk m.queue remove_all m

  abbrev pub count_write : List Point → NodeProcessor Point → NodeProcessor Point
  count_write points n = record n {
    write_shard_req = add64 n.write_shard_req 1;
    write_shard_req_points = add64 n.write_shard_req_points (length points);
  }

  -- The method WriteShard.
  unfoldable pub hint_shard :
      (Point → List ℕ) → ℕ → List Point → Exec (NodeProcessor Point) (Unit {0})
  hint_shard to_string shard_id points = do
    n ← get
    fail_if (not n.done) processor_closed
    modify (count_write points)
    on_queue (queue_append (marshal_write to_string shard_id points))

  -- The method LastModified.
  unfoldable pub processor_last_modified : (FileName → Option ℕ) → Exec (NodeProcessor Point) ℕ
  processor_last_modified modified = on_queue (queue_last_modified modified)

-- ===== src/Hh/Service/Writes.antt =====
-- Writes that are hinted to the service of hh/service.go.
use influxdb_cluster.Prelude.{
  ℕ, ◌+◌, ◌≤◌, length, ◌≡◌, ◌≢◌, refl, ap, ◌∙◌, inl, inr, true, false, Bool-cases, none, some, List,
  [], ◌∷◌, ◌++◌, ◌==◌, ==_iff, ==_self, if◌then◌else◌, arith,
}
use influxdb_cluster.Hh.Exec.{ok, err, handoff_disabled, Exec}
use influxdb_cluster.Hh.Queue.{Queue, new_queue, open_queue}
use influxdb_cluster.Hh.Fifo.Open.{empty_dir, opened_fifo, opened_takes, open_queue-IsFifo}
use influxdb_cluster.Hh.Processor.Write.{marshal_write}
use influxdb_cluster.Hh.Processor.Life.{
  NodeProcessor, make_dir, keep_queue, open_new_queue, open_processor, hint_shard,
}
use influxdb_cluster.Hh.Processor.Fifo.{Pending}
use influxdb_cluster.Hh.Processor.Hint.{Takes, hint_shard-Pending}
use influxdb_cluster.Hh.Service.{
  Service, default_max_size, find, set_processor, new_processor, keep_opened, add_processor,
  on_processor, if_opened, hint_or_add, write_shard,
}

-- The queue of a processor that was opened over nothing.
abbrev pub first_queue : Queue
first_queue = (open_queue (new_queue empty_dir default_max_size)).1

first-Takes :
    (b : List ℕ) → length b + 16 ≤ 10485760 → Takes first_queue (opened_fifo default_max_size) b
first-Takes b short =
    let (room, segment, id, tail) =
      opened_takes default_max_size b short (omega arith) (omega arith) in
    record { room = room; short = segment; small = id; tail = tail }

differ : (a b : ℕ) → b ≢ a → (a == b) ≡ false
differ a b h = ground arith

module _ {Point : Type 0} where
  pub find-set_processor :
      (id : ℕ) (p : NodeProcessor Point) (ps : List (ℕ × NodeProcessor Point))
      → find id (set_processor id p ps) ≡ some p
  unfolding find set_processor
  find-set_processor id p [] = rw (==_self id) refl
  find-set_processor id p (e ∷ es) = elim (Bool-cases (e.0 == id)) [
    | inl same ↦ rw same (rw (==_self id) refl)
    | inr other ↦ rw other (rw other (find-set_processor id p es))
  ]

  pub find-put_other :
      (id other : ℕ) (p : NodeProcessor Point) (ps : List (ℕ × NodeProcessor Point))
      → other ≢ id
      → find other (set_processor id p ps) ≡ find other ps
  unfolding find set_processor
  find-put_other id other p [] apart = rw (differ id other apart) refl
  find-put_other id other p (e ∷ es) apart = elim (Bool-cases (e.0 == id)) [
    | inl same ↦ rw same (
        rw (differ id other apart)
          (rw (differ e.0 other (λ q. apart (q ∙ (==_iff e.0 id).0 same))) refl))
    | inr unlike ↦
        rw unlike
          (ap (λ o. if e.0 == other then some e.1 else o) (find-put_other id other p es apart))
  ]

  -- The service has the write for a node behind those that were pending for it, and the same
  -- processors for the other nodes.
  pub record Hinted (s t : Service Point) (owner : ℕ) (view : List (List ℕ)) : Type 0 where
    pub processor : NodeProcessor Point
    pub found : find owner t.processors ≡ some processor
    pub pending : Pending processor view
    pub others : (id : ℕ) → id ≢ owner → find id t.processors ≡ find id s.processors

  on_processor-Hinted :
      (to_string : Point → List ℕ) (shard_id owner : ℕ) (points : List Point) (s : Service Point)
      (p : NodeProcessor Point) (view : List (List ℕ)) (h : Pending p view)
      → p.done ≡ true
      → Takes h.queue h.fifo (marshal_write to_string shard_id points)
      → let r = on_processor owner (hint_shard to_string shard_id points) (some p) s in
        (r.0 ≡ ok tt) × Hinted s r.1 owner (view ++ marshal_write to_string shard_id points ∷ [])
  unfolding on_processor
  on_processor-Hinted to_string shard_id owner points s p view h opened t =
      let (done, after) = hint_shard-Pending to_string shard_id points p view h opened t in
      (
        done,
        record {
          processor = (hint_shard to_string shard_id points p).1;
          found = find-set_processor owner (hint_shard to_string shard_id points p).1 s.processors;
          pending = after;
          others = λ id apart.
              find-put_other owner id (hint_shard to_string shard_id points p).1 s.processors apart;
        },
      )

  write_enabled :
      (to_string : Point → List ℕ) (shard_id owner : ℕ) (points : List Point) (s : Service Point)
      → s.enabled ≡ true
      → write_shard to_string shard_id owner points s
        ≡ hint_or_add owner (hint_shard to_string shard_id points) (find owner s.processors) s
  unfolding write_shard
  write_enabled to_string shard_id owner points s on =
      ap
        (λ b.
          if b
          then hint_or_add owner (hint_shard to_string shard_id points) (find owner s.processors) s
          else (err handoff_disabled, s))
        on

  -- WriteShard of a service that is enabled, for a node that has an open processor, puts the write
  -- behind those that are pending for the node, and changes no other processor. The queue of the
  -- node must take the write: there is room for it under the maximal size of the queue, it fits a
  -- segment, there is an id for a new segment, and the tail has room or holds a pending block.
  pub write_shard-Hinted :
      (to_string : Point → List ℕ) (shard_id owner : ℕ) (points : List Point) (s : Service Point)
      (p : NodeProcessor Point) (view : List (List ℕ)) (h : Pending p view)
      → s.enabled ≡ true
      → find owner s.processors ≡ some p
      → p.done ≡ true
      → Takes h.queue h.fifo (marshal_write to_string shard_id points)
      → let r = write_shard to_string shard_id owner points s in
        (r.0 ≡ ok tt) × Hinted s r.1 owner (view ++ marshal_write to_string shard_id points ∷ [])
  unfolding hint_or_add
  write_shard-Hinted to_string shard_id owner points s p view h on found opened t =
      rw (write_enabled to_string shard_id owner points s on)
        (rw found (on_processor-Hinted to_string shard_id owner points s p view h opened t))

  abbrev first_processor : ℕ → NodeProcessor Point
  first_processor id = record (new_processor id empty_dir) { done = true; queue = some first_queue }

  open_first : (id : ℕ) → open_processor (new_processor id empty_dir) ≡ (ok tt, first_processor id)
  unfolding open_processor make_dir open_new_queue keep_queue
  open_first id =
      ap (λ r. keep_queue r first_queue (record (new_processor id empty_dir) { done = true }))
        (open_queue-IsFifo default_max_size).0

  abbrev first-Pending : (id : ℕ) → Pending (first_processor id) []
  first-Pending id = record {
    queue = first_queue;
    queue_eq = refl;
    fifo = opened_fifo default_max_size;
  }

  abbrev with_first : ℕ → Service Point → Service Point
  with_first id s = record s { processors = set_processor id (first_processor id) s.processors }

  add_first :
      (id : ℕ) (s : Service Point)
      → s.disks id ≡ empty_dir
      → add_processor id s ≡ (ok tt, with_first id s)
  unfolding add_processor keep_opened
  add_first id s e =
      ap (λ d. keep_opened id (open_processor (new_processor id d)) s) e
      ∙ ap (λ r. keep_opened id r s) (open_first id)

  hint_first :
      (id : ℕ) (m : Exec (NodeProcessor Point) (Unit {0})) (s : Service Point)
      → s.disks id ≡ empty_dir
      → hint_or_add id m none s ≡ on_processor id m (some (first_processor id)) (with_first id s)
  unfolding hint_or_add if_opened
  hint_first id m s e =
      ap (λ r. if_opened id m r.0 r.1) (add_first id s e)
      ∙ ap (λ o. on_processor id m o (with_first id s))
          (find-set_processor id (first_processor id) s.processors)

  -- WriteShard of a service that is enabled, for a node that has no processor, and nothing in its
  -- directory, makes one that has the write pending and nothing else, and changes no other
  -- processor, if the marshalled write has at most 10485760 - 16 bytes, so that it fits a segment.
  pub write_shard-Hinted_first :
      (to_string : Point → List ℕ) (shard_id owner : ℕ) (points : List Point) (s : Service Point)
      → s.enabled ≡ true
      → find owner s.processors ≡ none
      → s.disks owner ≡ empty_dir
      → length (marshal_write to_string shard_id points) + 16 ≤ 10485760
      → let r = write_shard to_string shard_id owner points s in
        (r.0 ≡ ok tt) × Hinted s r.1 owner (marshal_write to_string shard_id points ∷ [])
  write_shard-Hinted_first to_string shard_id owner points s on missing clean short =
      let (done, h) =
        on_processor-Hinted to_string shard_id owner points (with_first owner s)
          (first_processor owner) [] (first-Pending owner) refl
          (first-Takes (marshal_write to_string shard_id points) short) in
      rw (write_enabled to_string shard_id owner points s on) (
        rw missing (
          rw (hint_first owner (hint_shard to_string shard_id points) s clean) (
            done,
            record {
              processor = h.processor;
              found = h.found;
              pending = h.pending;
              others = λ id apart.
                  h.others id apart
                  ∙ find-put_other owner id (first_processor owner) s.processors apart;
            },
          )))

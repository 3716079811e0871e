-- ===== src/Hh/Processor/Hint.antt =====
-- Writes that are hinted to a NodeProcessor: WriteShard, and Open when it fails.
use mathlib.Core.Path.{subst}
use influxdb_cluster.Prelude.{
  ℕ, ◌+◌, ◌≤◌, ◌<◌, ◌≡◌, refl, sym, ap, ◌∙◌, true, false, none, List, [], ◌∷◌, ◌++◌, length,
  length-append, arith,
}
use influxdb_cluster.Prelude.Bytes.{word, put_uint64, length-put_uint64}
use influxdb_cluster.Hh.Exec.{Error, Result, ok, err, panic, continue, Exec}
use influxdb_cluster.Hh.Directory.{Directory}
use influxdb_cluster.Hh.Queue.{Queue, queue_append}
use influxdb_cluster.Hh.Fifo.{IsFifo}
use influxdb_cluster.Hh.Fifo.Grow.{next_id}
use influxdb_cluster.Hh.Fifo.Append.{HasRoom, TailTakes, queue_append-IsFifo}
use influxdb_cluster.Hh.Processor.Write.{lines, marshal_write}
use influxdb_cluster.Hh.Processor.Life.{
  NodeProcessor, make_dir, keep_queue, open_new_queue, open_processor, hint_shard, count_write,
  call_queue, on_disk,
}
use influxdb_cluster.Hh.Processor.Fifo.{Pending}

-- The queue can take the bytes.
pub record Takes (q : Queue) {view : List (List ℕ)} (f : IsFifo q view) (b : List ℕ) : Type 0 where
  pub room : HasRoom q b
  pub short : length b + 8 ≤ q.max_segment_size
  pub small : next_id q < word
  pub tail : TailTakes q.max_segment_size b f.parts

module _ {Point : Type 0} where
  some_bytes :
      (to_string : Point → List ℕ) (shard_id : ℕ) (points : List Point)
      → 0 < length (marshal_write to_string shard_id points)
  unfolding marshal_write
  some_bytes to_string shard_id points = omega (
    arith,
    length-append (put_uint64 shard_id) (lines to_string points),
    length-put_uint64 shard_id,
  )

  hint_open :
      (to_string : Point → List ℕ) (shard_id : ℕ) (points : List Point) (n : NodeProcessor Point)
      → n.done ≡ true
      → hint_shard to_string shard_id points n
        ≡ call_queue n.queue
            (queue_append (marshal_write to_string shard_id points))
            (count_write points n)
  unfolding hint_shard
  hint_open to_string shard_id points n opened = rw opened

  -- `WriteShard` on an open processor puts the marshalled write behind those that are pending, if the
  -- queue takes it: there is room for it under the maximal size of the queue, it fits a segment,
  -- there is an id for a new segment, and the tail has room or holds a pending block.
  pub hint_shard-Pending :
      (to_string : Point → List ℕ) (shard_id : ℕ) (points : List Point) (n : NodeProcessor Point)
      (view : List (List ℕ)) (h : Pending n view)
      → n.done ≡ true
      → Takes h.queue h.fifo (marshal_write to_string shard_id points)
      → ((hint_shard to_string shard_id points n).0 ≡ ok tt)
        × Pending
            (hint_shard to_string shard_id points n).1
            (view ++ marshal_write to_string shard_id points ∷ [])
  hint_shard-Pending to_string shard_id points n view h opened t =
      let b = marshal_write to_string shard_id points in
      let (done, f) =
        queue_append-IsFifo h.queue view b h.fifo t.room (some_bytes to_string shard_id points)
          t.short t.small t.tail in
      let e =
        hint_open to_string shard_id points n opened
        ∙ ap (λ o. call_queue o (queue_append b) (count_write points n)) h.queue_eq in
      rw e (done, record { queue = (queue_append b h.queue).1; queue_eq = refl; fifo = f })

  -- A processor that `done` marks as open, with no queue.
  record Stranded (n : NodeProcessor Point) : Type 0 where
    opened : n.done ≡ true
    no_queue : n.queue ≡ none

  keep_queue-Stranded :
      (r : Result (Unit {0})) (q : Queue) (e : Error) (n : NodeProcessor Point)
      → Stranded n
      → (keep_queue r q n).0 ≡ err e
      → Stranded (keep_queue r q n).1
  unfolding keep_queue
  keep_queue-Stranded (ok _) q e n s h = cc h
  keep_queue-Stranded (err x) q e n s h =
      subst (λ o. Stranded (on_disk o (λ d. (ok tt, q.dir)) n).1) (sym s.no_queue)
        (record { opened = s.opened; no_queue = s.no_queue })

  on_disk-Stranded :
      {A : Type 0} (m : Exec Directory A) (n : NodeProcessor Point)
      → Stranded n
      → Stranded (on_disk n.queue m n).1
  on_disk-Stranded m n s =
      subst (λ o. Stranded (on_disk o m n).1) (sym s.no_queue)
        (record { opened = s.opened; no_queue = s.no_queue })

  open_rest-Stranded :
      (r : Result (Unit {0})) (e : Error) (n : NodeProcessor Point)
      → Stranded n
      → (continue r (λ _. open_new_queue) n).0 ≡ err e
      → Stranded (continue r (λ _. open_new_queue) n).1
  unfolding open_new_queue
  open_rest-Stranded (ok _) e n s h = keep_queue-Stranded _ _ e n s h
  open_rest-Stranded (err x) e n s h = s

  open-eq :
      (n : NodeProcessor Point)
      → n.done ≡ false
      → let m : NodeProcessor Point = record n { done = true } in
        open_processor n
        ≡ continue
            (on_disk m.queue make_dir m).0
            (λ _. open_new_queue)
            (on_disk m.queue make_dir m).1
  unfolding open_processor
  open-eq n closed = rw closed

  open_failed-Stranded :
      (n : NodeProcessor Point) (e : Error)
      → n.done ≡ false
      → n.queue ≡ none
      → (open_processor n).0 ≡ err e
      → Stranded (open_processor n).1
  open_failed-Stranded n e closed missing h =
      let m : NodeProcessor Point = record n { done = true } in
      rw (open-eq n closed) (
        open_rest-Stranded (on_disk m.queue make_dir m).0 e (on_disk m.queue make_dir m).1
          (on_disk-Stranded make_dir m (record { opened = refl; no_queue = missing }))
          (sym (ap (λ r. r.0) (open-eq n closed)) ∙ h))

  -- If the first `Open` fails, the processor counts as open all the same, with no queue: another
  -- `Open` reports success and does nothing, and `WriteShard` panics.
  pub open_failed :
      (to_string : Point → List ℕ) (shard_id : ℕ) (points : List Point) (n : NodeProcessor Point)
      (e : Error)
      → n.done ≡ false
      → n.queue ≡ none
      → (open_processor n).0 ≡ err e
      → (open_processor (open_processor n).1 ≡ (ok tt, (open_processor n).1))
        × ((hint_shard to_string shard_id points (open_processor n).1).0 ≡ err panic)
  open_failed to_string shard_id points n e closed missing h =
      let s = open_failed-Stranded n e closed missing h in
      (
        open_again (open_processor n).1 s.opened,
        ap (λ r. r.0)
            (hint_open to_string shard_id points (open_processor n).1 s.opened
              ∙ ap
                  (λ o.
                    call_queue o (queue_append (marshal_write to_string shard_id points))
                      (count_write points (open_processor n).1))
                  s.no_queue),
      )
    where
      open_again : (m : NodeProcessor Point) → m.done ≡ true → open_processor m ≡ (ok tt, m)
      open_again m opened = unfold open_processor in rw opened

-- ===== src/Hh/Lost.antt =====
-- Errors of the tail segment that Append of hh/queue.go does not report.
use influxdb_cluster.Prelude.{
  ℕ, ◌≡◌, ◌≢◌, refl, ap, ◌∙◌, none, some, List, ◌==◌, ==_iff, arith, inl, inr, Bool-cases,
}
use influxdb_cluster.Hh.Exec.{Error, ok, err, not_open, segment_full}
use influxdb_cluster.Hh.Segment.{Segment, append, is_nil}
use influxdb_cluster.Hh.Directory.{store_content}
use influxdb_cluster.Hh.Queue.{Queue, put_back, on_segment, queue_append, append_tail, retry}
use influxdb_cluster.Hh.Fifo.Append.{HasRoom, not_queue_full}

retry_ignores :
    (e : Error) (b : List ℕ) (q : Queue) → e ≢ segment_full → retry (err e) b q ≡ (ok tt, q)
unfolding retry
retry_ignores segment_full b q h = absurd (h refl)
retry_ignores _ b q h = refl

-- Whatever error the tail gives other than a full segment, `Append` reports success, and the queue
-- is as the failed call on the tail left it.
pub append_ignores_error :
    (q : Queue) (t : ℕ) (b : List ℕ) (e : Error)
    → q.tail ≡ some t
    → HasRoom q b
    → (append b (q.objects t)).0 ≡ err e
    → e ≢ segment_full
    → queue_append b q ≡ (ok tt, (on_segment t (append b) q).1)
unfolding queue_append append_tail on_segment
append_ignores_error q t b e tail room failed other =
    ap (λ o. append_tail o b q) tail
    ∙ rw (not_queue_full q b room, failed) (retry_ignores e b _ other)

closed_append : (b : List ℕ) (s : Segment) → s.file ≡ none → append b s ≡ (err not_open, s)
unfolding append is_nil
closed_append b s closed = ground (arith)

same_object : (q : Queue) (t r : ℕ) → (put_back t (q.objects t) q).objects r ≡ q.objects r
same_object q t r = elim (Bool-cases (t == r)) [
  | inl same ↦ rw same (ap q.objects ((==_iff t r).0 same))
  | inr other ↦ rw other
]

closed_call :
    (q : Queue) (t : ℕ) (b : List ℕ)
    → (q.objects t).file ≡ none
    → (on_segment t (append b) q).1 ≡ put_back t (q.objects t) q
unfolding on_segment
closed_call q t b closed = ap (λ x. put_back t x.1 q) (closed_append b (q.objects t) closed)

-- A block that is given to a queue whose tail is a closed segment is lost, if the queue has room for
-- it under its maximal size: `Append` reports success, and neither the segments nor the directory
-- has changed.
pub append_lost :
    (q : Queue) (t : ℕ) (b : List ℕ)
    → q.tail ≡ some t
    → HasRoom q b
    → (q.objects t).file ≡ none
    → ((queue_append b q).0 ≡ ok tt)
      × ((r : ℕ) → (queue_append b q).1.objects r ≡ q.objects r)
      × ((queue_append b q).1.dir ≡ q.dir)
      × ((queue_append b q).1.segments ≡ q.segments)
unfolding store_content
append_lost q t b tail room closed =
    let done : queue_append b q ≡ (ok tt, put_back t (q.objects t) q) =
      append_ignores_error q t b not_open tail room
        (ap (λ x. x.0) (closed_append b (q.objects t) closed)) (λ x. cc x)
      ∙ ap (λ x. (ok tt, x)) (closed_call q t b closed) in
    (
      ap (λ x. x.0) done,
      λ r. ap (λ x. x.1.objects r) done ∙ same_object q t r,
      ap (λ x. x.1.dir) done
          ∙ ap (λ o. record q.dir { entries = store_content (q.objects t).path o q.dir.entries })
              closed,
      ap (λ x. x.1.segments) done,
    )

-- ===== src/Hh/Fifo/Read.antt =====
-- Reading the queue: Current.
use mathlib.Core.Path.{subst}
use influxdb_cluster.Prelude.{
  ℕ, ◌+◌, ◌≤◌, ◌≡◌, ◌≢◌, refl, sym, ap, ◌∙◌, List, [], ◌∷◌, ◌++◌, length, length-append, arith,
}
use influxdb_cluster.Hh.Exec.{ok, err, eof, not_open}
use influxdb_cluster.Hh.Os.{FileName}
use influxdb_cluster.Hh.Segment.{current}
use influxdb_cluster.Hh.Segment.Layout.{frames, blocks, length-frames-cons}
use influxdb_cluster.Hh.Segment.Current.{current_lem, current_eof}
use influxdb_cluster.Hh.Queue.{Queue, put_back, on_ref, queue_current}
use influxdb_cluster.Hh.Fifo.{Part, part, segment, pending, Fits, IsQueue, IsFifo, Live}
use influxdb_cluster.Hh.Fifo.Heap.{Holds-at}
use influxdb_cluster.Hh.Fifo.Calls.{on_segment_lem, put_back-IsQueue}

-- A block takes less than the blocks of its segment.
block_le : (passed held : List (List ℕ)) (r : List ℕ) → length r ≤ length (blocks passed (r ∷ held))
block_le passed held r =
    omega (arith, length-append (frames passed) (frames (r ∷ held)), length-frames-cons r held)

-- What the queue knows of its head: to be read when the head holds a block.
pub head_facts :
    (q : Queue) (p : Part) (ps : List Part) → IsQueue q (p ∷ ps) → Fits q.max_segment_size p
head_facts q p ps inv = (Holds-at q.objects q.max_segment_size 0 q.next_ref [] ps p inv.holds).1

-- The head that holds a block, with its parts written out.
pub open_head :
    (q : Queue) (p : Part) (ps : List Part) (held : List (List ℕ))
    → p.held ≡ held
    → IsQueue q (p ∷ ps)
    → IsQueue q (part p.ref p.path p.passed held p.cursor ∷ ps)
open_head q p ps held e inv =
    subst (λ x. IsQueue q (x ∷ ps)) (λ i. part p.ref p.path p.passed (e i) p.cursor) inv

module _ (q : Queue) (ref : ℕ) (path : FileName) (passed held : List (List ℕ)) (cursor : ℕ)
    (r : List ℕ) (ps : List Part) where
  current_at_head :
      IsQueue q (part ref path passed (r ∷ held) cursor ∷ ps)
      → queue_current q ≡ (
        ok r,
        put_back ref
            (segment q.max_segment_size
              (part ref path passed (r ∷ held) (length (frames passed) + 8 + length r)))
            q,
      )
  unfolding queue_current
  current_at_head inv =
      ap (λ o. on_ref o current not_open q) inv.head
      ∙ on_segment_lem q [] ps (part ref path passed (r ∷ held) cursor)
          (part ref path passed (r ∷ held) (length (frames passed) + 8 + length r)) inv current
          (ok r)
          (current_lem path q.max_segment_size passed held cursor r fits.full.0
            (omega (arith, block_le passed held r)) (omega (arith, inv.bound))
            (omega (arith, inv.bound)))
    where
      fits : Fits q.max_segment_size (part ref path passed (r ∷ held) cursor)
      fits = head_facts q _ ps inv

  current-IsQueue :
      IsQueue q (part ref path passed (r ∷ held) cursor ∷ ps)
      → IsQueue
          (queue_current q).1
          (part ref path passed (r ∷ held) (length (frames passed) + 8 + length r) ∷ ps)
  current-IsQueue inv = rw (current_at_head inv) (
      put_back-IsQueue q [] ps (part ref path passed (r ∷ held) cursor) _ inv refl refl
        (record { within = fits.within; full = fits.full }))
    where
      fits : Fits q.max_segment_size (part ref path passed (r ∷ held) cursor)
      fits = head_facts q _ ps inv

-- The head may be replaced by one that holds a block.
pub Live-head : (p p' : Part) (ps : List Part) → Live (p ∷ ps) → p'.held ≢ [] → Live (p' ∷ ps)
Live-head p p' [] live h = tt
Live-head p p' (s ∷ ps) live h = (h, live.1)

Live-empty : (p p' : Part) (ps : List Part) → p.held ≡ [] → Live (p ∷ ps) → Live (p' ∷ ps)
Live-empty p p' [] e live = tt
Live-empty p p' (s ∷ ps) e live = absurd (live.0 e)

-- The same where the head is a part that holds the block.
current_IsFifo_cons :
    (q : Queue) (p : Part) (ps : List Part) (r : List ℕ) (held : List (List ℕ))
    → p.held ≡ r ∷ held
    → IsQueue q (p ∷ ps)
    → Live (p ∷ ps)
    → ((queue_current q).0 ≡ ok r) × IsFifo (queue_current q).1 (r ∷ (held ++ pending ps))
current_IsFifo_cons q p ps r held e inv live =
    let at = open_head q p ps (r ∷ held) e inv in
    (
      ap (λ t. t.0) (current_at_head q p.ref p.path p.passed held p.cursor r ps at),
      record {
        parts =
            part p.ref p.path p.passed (r ∷ held) (length (frames p.passed) + 8 + length r) ∷ ps;
        inv = current-IsQueue q p.ref p.path p.passed held p.cursor r ps at;
        view_eq = unfold pending in refl;
        live =
            Live-head p
              (part p.ref p.path p.passed (r ∷ held) (length (frames p.passed) + 8 + length r)) ps
              live (λ x. cc x);
      },
    )

split_held :
    (held : List (List ℕ)) (p : Part) (ps : List Part) (r : List ℕ) (view : List (List ℕ))
    → p.held ≡ held
    → Live (p ∷ ps)
    → held ++ pending ps ≡ r ∷ view
    → (h : List (List ℕ)) × (held ≡ r ∷ h) × (h ++ pending ps ≡ view)
unfolding pending
split_held [] p [] r view same live e = cc
split_held [] p (s ∷ ps) r view same live e = absurd (live.0 same)
split_held (x ∷ h) p ps r view same live e = (h, ground arith, ground arith)

-- The oldest pending block is the first one of the head.
pub head_splits :
    (p : Part) (ps : List Part) (r : List ℕ) (view : List (List ℕ))
    → Live (p ∷ ps)
    → pending (p ∷ ps) ≡ r ∷ view
    → (h : List (List ℕ)) × (p.held ≡ r ∷ h) × (h ++ pending ps ≡ view)
unfolding pending
head_splits p ps r view live e = split_held p.held p ps r view refl live e

current_parts :
    (q : Queue) (parts : List Part) (r : List ℕ) (view : List (List ℕ))
    → IsQueue q parts
    → Live parts
    → pending parts ≡ r ∷ view
    → ((queue_current q).0 ≡ ok r) × IsFifo (queue_current q).1 (r ∷ view)
current_parts q [] r view inv live e = absurd live
current_parts q (p ∷ ps) r view inv live e =
    let (h, at, rest) = head_splits p ps r view live e in
    rw (← rest) (current_IsFifo_cons q p ps r h at inv live)

-- `Current` gives the oldest pending block, and the queue keeps its contents.
pub queue_current-IsFifo :
    (q : Queue) (r : List ℕ) (view : List (List ℕ))
    → IsFifo q (r ∷ view)
    → ((queue_current q).0 ≡ ok r) × IsFifo (queue_current q).1 (r ∷ view)
queue_current-IsFifo q r view f = current_parts q f.parts r view f.inv f.live f.view_eq

empty_held : (held : List (List ℕ)) (ps : List Part) → held ++ pending ps ≡ [] → held ≡ []
empty_held [] ps e = refl
empty_held (r ∷ held) ps e = cc e

pub head_empty : (p : Part) (ps : List Part) → pending (p ∷ ps) ≡ [] → p.held ≡ []
unfolding pending
head_empty p ps e = empty_held p.held ps e

-- A head that is read to its end gives `io.EOF`, whatever stands behind it.
pub current_at_end :
    (q : Queue) (p : Part) (ps : List Part)
    → p.held ≡ []
    → IsQueue q (p ∷ ps)
    → (queue_current q ≡ (
      err eof,
      put_back p.ref (segment q.max_segment_size (part p.ref p.path p.passed [] p.cursor)) q,
    ))
      × IsQueue (queue_current q).1 (part p.ref p.path p.passed [] p.cursor ∷ ps)
unfolding queue_current
current_at_end q p ps none_held inv = (
  same,
  rw same (put_back-IsQueue q [] ps (part p.ref p.path p.passed [] p.cursor) _ at refl refl fits),
)
  where
    at : IsQueue q (part p.ref p.path p.passed [] p.cursor ∷ ps)
    at = open_head q p ps [] none_held inv

    fits : Fits q.max_segment_size (part p.ref p.path p.passed [] p.cursor)
    fits = head_facts q (part p.ref p.path p.passed [] p.cursor) ps at

    same : queue_current q ≡ (
      err eof,
      put_back p.ref (segment q.max_segment_size (part p.ref p.path p.passed [] p.cursor)) q,
    )
    same =
        ap (λ o. on_ref o current not_open q) inv.head
        ∙ on_segment_lem q [] ps (part p.ref p.path p.passed [] p.cursor)
            (part p.ref p.path p.passed [] p.cursor) at current (err eof)
            (current_eof p.path q.max_segment_size p.passed p.cursor
              (omega (arith, inv.bound, fits.within)))

current_parts_eof :
    (q : Queue) (parts : List Part)
    → IsQueue q parts
    → Live parts
    → pending parts ≡ []
    → ((queue_current q).0 ≡ err eof) × IsFifo (queue_current q).1 []
current_parts_eof q [] inv live e = absurd live
current_parts_eof q (p ∷ ps) inv live e =
    let none_held = head_empty p ps e in
    let (same, inv') = current_at_end q p ps none_held inv in
    (
      ap (λ t. t.0) same,
      record {
        parts = part p.ref p.path p.passed [] p.cursor ∷ ps;
        inv = inv';
        view_eq = unfold pending in (ap (λ h. h ++ pending ps) (sym none_held) ∙ e);
        live = Live-empty p (part p.ref p.path p.passed [] p.cursor) ps none_held live;
      },
    )

-- With nothing pending, `Current` gives `io.EOF`, and nothing is pending after it.
pub queue_current-IsFifo_eof :
    (q : Queue) → IsFifo q [] → ((queue_current q).0 ≡ err eof) × IsFifo (queue_current q).1 []
queue_current-IsFifo_eof q f = current_parts_eof q f.parts f.inv f.live f.view_eq

-- ===== src/Hh/Fifo/Append.antt =====
-- Adding a block: Append.
use mathlib.Core.Path.{subst}
use influxdb_cluster.Prelude.{
  ℕ, ◌+◌, ◌≤◌, ◌<◌, ◌≡◌, ◌≢◌, ◌⊎◌, refl, sym, ap, ◌∙◌, false, inl, inr, Option, some, List, [], ◌∷◌,
  ◌++◌, append_assoc, append-nil, map, length, All-append, arith,
}
use native.Mathlib.Decide.{dec_lt}
use influxdb_cluster.Prelude.Bytes.{add64, lt_int64, half_word, word}
use influxdb_cluster.Hh.Exec.{ok, err, segment_full}
use influxdb_cluster.Hh.Segment.{append}
use influxdb_cluster.Hh.Segment.Layout.{frames, blocks, segment_of, length-blocks-append}
use influxdb_cluster.Hh.Segment.Append.{append_lem, append_full}
use influxdb_cluster.Hh.Queue.{
  Queue, put_back, on_segment, queue_usage, queue_append, append_tail, retry, last,
}
use influxdb_cluster.Hh.Fifo.{Part, ref_of, segment, pending, Fits, IsQueue, IsFifo, Live}
use influxdb_cluster.Hh.Fifo.Heap.{Holds-at}
use influxdb_cluster.Hh.Fifo.Calls.{on_segment_lem, put_back-IsQueue}
use influxdb_cluster.Hh.Fifo.Grow.{
  next_id, new_part, grown, add_segment_lem, grown-IsQueue, last_snoc, map_snoc,
}
use influxdb_cluster.Hh.Fifo.Ids.{next-store}

-- The tail with a block more.
abbrev pub longer : Part → List ℕ → Part
longer p b = record p {
  held = p.held ++ b ∷ [];
  cursor = length (blocks p.passed (p.held ++ b ∷ [])) + 8;
}

module _ (q : Queue) (before : List Part) (p : Part) (b : List ℕ)
    (inv : IsQueue q (before ++ p ∷ [])) where
  pub tail-Fits : Fits q.max_segment_size p
  tail-Fits = (Holds-at q.objects q.max_segment_size 0 q.next_ref before [] p inv.holds).1

  pub at_tail : {A : Type 0} (f : Option ℕ → A) → f q.tail ≡ f (some p.ref)
  at_tail f = ap f (inv.tail ∙ (ap last (map_snoc before p) ∙ last_snoc (map ref_of before) p.ref))

  -- A block that fits in the tail.
  append_to_tail :
      length (blocks p.passed p.held) + 8 + length b ≤ q.max_segment_size
      → on_segment p.ref (append b) q
        ≡ (ok tt, put_back p.ref (segment q.max_segment_size (longer p b)) q)
  append_to_tail room = on_segment_lem q before [] p (longer p b) inv (append b) (ok tt) (
      append_lem p.path q.max_segment_size p.passed p.held p.cursor b tail-Fits.full room
        (omega (arith, inv.bound)))

  append_to_tail-IsQueue :
      length (blocks p.passed p.held) + 8 + length b ≤ q.max_segment_size
      → 0 < length b
      → IsQueue
          (put_back p.ref (segment q.max_segment_size (longer p b)) q)
          (before ++ longer p b ∷ [])
  append_to_tail-IsQueue room some_bytes =
      put_back-IsQueue q before [] p (longer p b) inv refl refl (record {
        within = omega (arith, length-blocks-append p.passed p.held b);
        full = All-append _ p.held (b ∷ []) tail-Fits.full (some_bytes, tt);
      })

  pub append_too_long :
      q.max_segment_size < length (blocks p.passed p.held) + 8 + length b
      → length b + 8 ≤ q.max_segment_size
      → on_segment p.ref (append b) q
        ≡ (err segment_full, put_back p.ref (segment q.max_segment_size p) q)
  append_too_long over short = on_segment_lem q before [] p p inv (append b) (err segment_full) (
      append_full p.path q.max_segment_size p.passed p.held p.cursor b over
        (omega (arith, inv.bound, tail-Fits.within)))

pending_snoc :
    (before : List Part) (p : Part) → pending (before ++ p ∷ []) ≡ pending before ++ p.held
unfolding pending
pending_snoc [] p = append-nil p.held
pending_snoc (s ∷ before) p =
    ap (λ v. s.held ++ v) (pending_snoc before p)
    ∙ sym (append_assoc s.held (pending before) p.held)

pending_longer :
    (before : List Part) (p p' : Part) (b : List ℕ)
    → p'.held ≡ p.held ++ b ∷ []
    → pending (before ++ p' ∷ []) ≡ pending (before ++ p ∷ []) ++ b ∷ []
pending_longer before p p' b e =
    pending_snoc before p'
    ∙ (ap (λ h. pending before ++ h) e
        ∙ (sym (append_assoc (pending before) p.held (b ∷ []))
            ∙ sym (ap (λ v. v ++ b ∷ []) (pending_snoc before p))))

Live-last : (before : List Part) (p p' : Part) → Live (before ++ p ∷ []) → Live (before ++ p' ∷ [])
Live-last [] p p' live = tt
Live-last (s ∷ []) p p' live = (live.0, tt)
Live-last (s ∷ t ∷ before) p p' live = (live.0, Live-last (t ∷ before) p p' live.1)

Live-grow :
    (before : List Part) (p p' : Part)
    → Live (before ++ p ∷ [])
    → p.held ≢ []
    → Live ((before ++ p ∷ []) ++ p' ∷ [])
Live-grow [] p p' live h = (h, tt)
Live-grow (s ∷ []) p p' live h = (live.0, (h, tt))
Live-grow (s ∷ t ∷ before) p p' live h = (live.0, Live-grow (t ∷ before) p p' live.1 h)

-- The queue has room for the block.
abbrev pub HasRoom : Queue → List ℕ → Type 0
HasRoom q b = (queue_usage q + length b ≤ q.max_size) × (q.max_size < half_word)

pub not_queue_full :
    (q : Queue) (b : List ℕ)
    → HasRoom q b
    → lt_int64 q.max_size (add64 (queue_usage q) (length b)) ≡ false
not_queue_full q b room = ground arith

-- The block goes to the tail.
append_fits :
    (q : Queue) (before : List Part) (p : Part) (b : List ℕ)
    → IsQueue q (before ++ p ∷ [])
    → Live (before ++ p ∷ [])
    → HasRoom q b
    → 0 < length b
    → length (blocks p.passed p.held) + 8 + length b ≤ q.max_segment_size
    → ((queue_append b q).0 ≡ ok tt)
      × IsFifo (queue_append b q).1 (pending (before ++ p ∷ []) ++ b ∷ [])
unfolding queue_append append_tail retry
append_fits q before p b inv live room some_bytes fits =
    let e =
      at_tail q before p b inv (λ t. append_tail t b q)
      ∙ rw (not_queue_full q b room, append_to_tail q before p b inv fits) in
    (
      ap (λ t. t.0) e,
      record {
        parts = before ++ longer p b ∷ [];
        inv = rw e (append_to_tail-IsQueue q before p b inv fits some_bytes);
        view_eq = pending_longer before p (longer p b) b refl;
        live = Live-last before p (longer p b) live;
      },
    )

no_blocks : length (blocks [] []) ≡ 0
unfolding frames
no_blocks = refl

grown_snoc :
    (q : Queue) (before : List Part) (p : Part)
    → IsQueue q (before ++ p ∷ [])
    → next_id q < word
    → Fits q.max_segment_size (new_part q)
    → IsQueue (record (grown q) { tail = some q.next_ref }) ((before ++ p ∷ []) ++ new_part q ∷ [])
grown_snoc q [] p inv small fits = grown-IsQueue q p [] inv small fits
grown_snoc q (s ∷ before) p inv small fits = grown-IsQueue q s (before ++ p ∷ []) inv small fits

-- The block goes to a new segment.
pub retry_lem :
    (q : Queue) (before : List Part) (p : Part) (b : List ℕ)
    → IsQueue q (before ++ p ∷ [])
    → next_id q < word
    → 0 < length b
    → length b + 8 ≤ q.max_segment_size
    → (q' : Queue) × (retry (err segment_full) b q ≡ (ok tt, q'))
      × IsQueue q' ((before ++ p ∷ []) ++ longer (new_part q) b ∷ [])
unfolding retry
retry_lem q before p b inv small some_bytes short = (
  put_back q.next_ref (segment q.max_segment_size (longer (new_part q) b)) q2,
  rw (add_segment_lem q (before ++ p ∷ []) inv small)
      (append_to_tail q2 (before ++ p ∷ []) (new_part q) b inv2 room),
  append_to_tail-IsQueue q2 (before ++ p ∷ []) (new_part q) b inv2 room some_bytes,
)
  where
    q2 : Queue
    q2 = record (grown q) { tail = some q.next_ref }

    inv2 : IsQueue q2 ((before ++ p ∷ []) ++ new_part q ∷ [])
    inv2 = grown_snoc q before p inv small (record { within = omega (arith, no_blocks); full = tt })

    room : length (blocks [] []) + 8 + length b ≤ q.max_segment_size
    room = omega (arith, no_blocks)

pub next_id-put_back :
    (q : Queue) (r : ℕ) (p : Part)
    → next_id (put_back r (segment q.max_segment_size p) q) ≡ next_id q
unfolding segment_of
next_id-put_back q r p = ap (λ m. m + 1) (next-store p.path _ q.dir.entries)

append_grows :
    (q : Queue) (before : List Part) (p : Part) (b : List ℕ)
    → IsQueue q (before ++ p ∷ [])
    → Live (before ++ p ∷ [])
    → HasRoom q b
    → 0 < length b
    → length b + 8 ≤ q.max_segment_size
    → next_id q < word
    → p.held ≢ []
    → q.max_segment_size < length (blocks p.passed p.held) + 8 + length b
    → ((queue_append b q).0 ≡ ok tt)
      × IsFifo (queue_append b q).1 (pending (before ++ p ∷ []) ++ b ∷ [])
unfolding queue_append append_tail
append_grows q before p b inv live room some_bytes short small holds_some over =
    let q1 : Queue = put_back p.ref (segment q.max_segment_size p) q in
    let inv1 : IsQueue q1 (before ++ p ∷ []) =
      put_back-IsQueue q before [] p p inv refl refl (tail-Fits q before p b inv) in
    let (q', done, inv') =
      retry_lem q1 before p b inv1 (rw (next_id-put_back q p.ref p) small) some_bytes short in
    let e =
      at_tail q before p b inv (λ t. append_tail t b q)
      ∙ (rw (not_queue_full q b room, append_too_long q before p b inv over short) done) in
    (
      ap (λ t. t.0) e,
      record {
        parts = (before ++ p ∷ []) ++ longer (new_part q1) b ∷ [];
        inv = rw e inv';
        view_eq = pending_snoc (before ++ p ∷ []) (longer (new_part q1) b);
        live = Live-grow before p (longer (new_part q1) b) live holds_some;
      },
    )

-- The tail takes the block, or it holds one, so that a new segment may follow it.
abbrev pub TailTakes : ℕ → List ℕ → List Part → Type 0
TailTakes max_size b [] = ⊥
TailTakes max_size b (p ∷ []) =
    (length (blocks p.passed p.held) + 8 + length b ≤ max_size) ⊎ (p.held ≢ [])
TailTakes max_size b (p ∷ s ∷ ps) = TailTakes max_size b (s ∷ ps)

last_part :
    (p : Part) (ps : List Part) → (before : List Part) × (l : Part) × (p ∷ ps ≡ before ++ l ∷ [])
last_part p [] = ([], p, refl)
last_part p (s ∷ ps) = let (before, l, e) = last_part s ps in (p ∷ before, l, ap (◌∷◌ p) e)

TailTakes-last :
    (max_size : ℕ) (b : List ℕ) (before : List Part) (l : Part)
    → TailTakes max_size b (before ++ l ∷ [])
    → (length (blocks l.passed l.held) + 8 + length b ≤ max_size) ⊎ (l.held ≢ [])
TailTakes-last max b [] l h = h
TailTakes-last max b (s ∷ []) l h = h
TailTakes-last max b (s ∷ t ∷ before) l h = TailTakes-last max b (t ∷ before) l h

append_parts :
    (q : Queue) (before : List Part) (l : Part) (b : List ℕ)
    → IsQueue q (before ++ l ∷ [])
    → Live (before ++ l ∷ [])
    → HasRoom q b
    → 0 < length b
    → length b + 8 ≤ q.max_segment_size
    → next_id q < word
    → TailTakes q.max_segment_size b (before ++ l ∷ [])
    → ((queue_append b q).0 ≡ ok tt)
      × IsFifo (queue_append b q).1 (pending (before ++ l ∷ []) ++ b ∷ [])
append_parts q before l b inv live room some_bytes short small takes =
    elim (dec_lt q.max_segment_size (length (blocks l.passed l.held) + 8 + length b)) [
      | no fits ↦ append_fits q before l b inv live room some_bytes (omega arith)
      | yes over ↦ elim (TailTakes-last q.max_segment_size b before l takes) [
        | inl fits ↦ absurd (omega arith)
        | inr holds_some ↦
            append_grows q before l b inv live room some_bytes short small holds_some over
      ]
    ]

append_any :
    (q : Queue) (parts : List Part) (b : List ℕ)
    → IsQueue q parts
    → Live parts
    → HasRoom q b
    → 0 < length b
    → length b + 8 ≤ q.max_segment_size
    → next_id q < word
    → TailTakes q.max_segment_size b parts
    → ((queue_append b q).0 ≡ ok tt) × IsFifo (queue_append b q).1 (pending parts ++ b ∷ [])
append_any q [] b inv live room some_bytes short small takes = absurd live
append_any q (p ∷ ps) b inv live room some_bytes short small takes =
    let (before, l, e) = last_part p ps in
    rw e (
      append_parts q before l b (subst (IsQueue q) e inv) (subst Live e live) room some_bytes short
        small (subst (TailTakes q.max_segment_size b) e takes))

-- An `Append` of a block that the queue has room for succeeds, and the block is pending behind
-- the others, if the block is not empty and fits in a segment, the numbers of the segments are not
-- used up, and the tail takes the block or holds one.
pub queue_append-IsFifo :
    (q : Queue) (view : List (List ℕ)) (b : List ℕ) (f : IsFifo q view)
    → HasRoom q b
    → 0 < length b
    → length b + 8 ≤ q.max_segment_size
    → next_id q < word
    → TailTakes q.max_segment_size b f.parts
    → ((queue_append b q).0 ≡ ok tt) × IsFifo (queue_append b q).1 (view ++ b ∷ [])
queue_append-IsFifo q view b f room some_bytes short small takes =
    rw (← f.view_eq) (append_any q f.parts b f.inv f.live room some_bytes short small takes)

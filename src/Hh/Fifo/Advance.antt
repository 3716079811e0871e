-- ===== src/Hh/Fifo/Advance.antt =====
-- Passing a block: Advance.
use influxdb_cluster.Prelude.{ℕ, ◌+◌, ◌≡◌, refl, ap, ◌∙◌, List, [], ◌∷◌, ◌++◌, length, arith}
use influxdb_cluster.Hh.Exec.{ok, err, eof}
use influxdb_cluster.Hh.Os.{FileName}
use influxdb_cluster.Hh.Segment.{advance}
use influxdb_cluster.Hh.Segment.Layout.{frames}
use influxdb_cluster.Hh.Segment.Advance.{blocks_shift, advance_next, advance_last}
use influxdb_cluster.Hh.Queue.{Queue, put_back, queue_advance, advance_head, trim_at_end, trim_head}
use influxdb_cluster.Hh.Fifo.{Part, part, segment, pending, Fits, IsQueue, IsFifo, Live}
use influxdb_cluster.Hh.Fifo.Calls.{on_segment_lem, put_back-IsQueue}
use influxdb_cluster.Hh.Fifo.Read.{head_facts, open_head, head_splits, Live-head}
use influxdb_cluster.Hh.Fifo.Trim.{trim_head-IsQueue, trim_head_single}

module _ (q : Queue) (ref : ℕ) (path : FileName) (passed : List (List ℕ)) (cursor : ℕ) (r : List ℕ)
    (ps : List Part) where
  -- The head after the block is passed.
  abbrev pub passed_head : List (List ℕ) → Part
  passed_head held = part ref path (passed ++ r ∷ []) held (length (frames (passed ++ r ∷ [])) + 8)

  passed-Fits :
      (held : List (List ℕ))
      → Fits q.max_segment_size (part ref path passed (r ∷ held) cursor)
      → Fits q.max_segment_size (passed_head held)
  passed-Fits held fits = record {
    within = rw (blocks_shift passed held r) fits.within;
    full = fits.full.1;
  }

  pub passed-IsQueue :
      (held : List (List ℕ))
      → IsQueue q (part ref path passed (r ∷ held) cursor ∷ ps)
      → IsQueue
          (put_back ref (segment q.max_segment_size (passed_head held)) q)
          (passed_head held ∷ ps)
  passed-IsQueue held inv =
      put_back-IsQueue q [] ps (part ref path passed (r ∷ held) cursor) (passed_head held) inv refl
        refl (passed-Fits held (head_facts q _ ps inv))

  advance_inside :
      (b : List ℕ) (held : List (List ℕ))
      → IsQueue q (part ref path passed (r ∷ b ∷ held) cursor ∷ ps)
      → queue_advance q
        ≡ (ok tt, put_back ref (segment q.max_segment_size (passed_head (b ∷ held))) q)
  unfolding queue_advance advance_head trim_at_end
  advance_inside b held inv =
      let fits = head_facts q (part ref path passed (r ∷ b ∷ held) cursor) ps inv in
      ap (λ o. advance_head o q) inv.head
      ∙ rw (
          on_segment_lem q [] ps (part ref path passed (r ∷ b ∷ held) cursor)
            (passed_head (b ∷ held)) inv advance (ok tt)
            (advance_next path q.max_segment_size passed held cursor r b
              (omega (arith, inv.bound, fits.within))))

  advance_to_end :
      IsQueue q (part ref path passed (r ∷ []) cursor ∷ ps)
      → queue_advance q ≡ trim_head (put_back ref (segment q.max_segment_size (passed_head [])) q)
  unfolding queue_advance advance_head trim_at_end
  advance_to_end inv =
      let fits = head_facts q (part ref path passed (r ∷ []) cursor) ps inv in
      ap (λ o. advance_head o q) inv.head
      ∙ rw (
          on_segment_lem q [] ps (part ref path passed (r ∷ []) cursor) (passed_head []) inv advance
            (err eof)
            (advance_last path q.max_segment_size passed cursor r
              (omega (arith, inv.bound, fits.within))))

-- One block of the head, with the parts of the head written out.
advance_cons :
    (q : Queue) (ref : ℕ) (path : FileName) (passed : List (List ℕ)) (cursor : ℕ) (r : List ℕ)
    (held : List (List ℕ)) (ps : List Part)
    → IsQueue q (part ref path passed (r ∷ held) cursor ∷ ps)
    → Live (part ref path passed (r ∷ held) cursor ∷ ps)
    → ((queue_advance q).0 ≡ ok tt) × IsFifo (queue_advance q).1 (held ++ pending ps)
advance_cons q ref path passed cursor r (b ∷ held) ps inv live =
    let e = advance_inside q ref path passed cursor r ps b held inv in
    (
      ap (λ t. t.0) e,
      record {
        parts = passed_head q ref path passed cursor r ps (b ∷ held) ∷ ps;
        inv = rw e (passed-IsQueue q ref path passed cursor r ps (b ∷ held) inv);
        view_eq = unfold pending in refl;
        live =
            Live-head (part ref path passed (r ∷ b ∷ held) cursor)
              (passed_head q ref path passed cursor r ps (b ∷ held)) ps live (λ x. cc x);
      },
    )
advance_cons q ref path passed cursor r [] [] inv live =
    let p' : Part = passed_head q ref path passed cursor r [] [] in
    let at = passed-IsQueue q ref path passed cursor r [] [] inv in
    let e =
      advance_to_end q ref path passed cursor r [] inv
      ∙ trim_head_single (put_back ref (segment q.max_segment_size p') q) p' at in
    (
      ap (λ t. t.0) e,
      record { parts = p' ∷ []; inv = rw e at; view_eq = unfold pending in refl; live = tt },
    )
advance_cons q ref path passed cursor r [] (s ∷ ps) inv live =
    let p' : Part = passed_head q ref path passed cursor r (s ∷ ps) [] in
    let at = passed-IsQueue q ref path passed cursor r (s ∷ ps) [] inv in
    let e = advance_to_end q ref path passed cursor r (s ∷ ps) inv in
    let done = trim_head-IsQueue (put_back ref (segment q.max_segment_size p') q) p' s ps at in
    (rw e done.0, record { parts = s ∷ ps; inv = rw e done.1; view_eq = refl; live = live.1 })

advance_parts :
    (q : Queue) (parts : List Part) (r : List ℕ) (view : List (List ℕ))
    → IsQueue q parts
    → Live parts
    → pending parts ≡ r ∷ view
    → ((queue_advance q).0 ≡ ok tt) × IsFifo (queue_advance q).1 view
advance_parts q [] r view inv live e = absurd live
advance_parts q (p ∷ ps) r view inv live e =
    let (h, at, rest) = head_splits p ps r view live e in
    rw (← rest) (
      advance_cons q p.ref p.path p.passed p.cursor r h ps (open_head q p ps (r ∷ h) at inv)
        (Live-head p (part p.ref p.path p.passed (r ∷ h) p.cursor) ps live (λ x. cc x)))

-- `Advance` passes the oldest pending block, and the rest stays pending in order.
pub queue_advance-IsFifo :
    (q : Queue) (r : List ℕ) (view : List (List ℕ))
    → IsFifo q (r ∷ view)
    → ((queue_advance q).0 ≡ ok tt) × IsFifo (queue_advance q).1 view
queue_advance-IsFifo q r view f = advance_parts q f.parts r view f.inv f.live f.view_eq

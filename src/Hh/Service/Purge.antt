-- ===== src/Hh/Service/Purge.antt =====
-- What the purge of inactive nodes in hh/service.go deletes.
use mathlib.Core.Path.{subst}
use influxdb_cluster.Prelude.{
  ℕ, ◌+◌, ◌<◌, ◌≡◌, ◌≢◌, refl, sym, ap, ◌∙◌, inl, inr, Bool, true, false, Bool-cases, Option, none,
  some, List, [], ◌∷◌, All, ltb, ltb→lt, ◌==◌, ==_iff,
}
use influxdb_cluster.Hh.Exec.{Result, ok, err, panic}
use influxdb_cluster.Hh.Os.{FileName}
use influxdb_cluster.Hh.Directory.{Directory}
use influxdb_cluster.Hh.Processor.Life.{
  NodeProcessor, processor_last_modified, close_processor, purge_processor,
}
use influxdb_cluster.Hh.Service.{
  Service, find, drop_purged, purge_closed, purge_inactive, purge_modified, purge_one, purge_next,
  purge_each, purged, purge_inactive_processors,
}

StaleBy : Result Bool → ℕ → ℕ → Result ℕ → Type 0
StaleBy a now max_age r = (a ≡ ok false) × (time : ℕ) × (r ≡ ok time) × (time + max_age < now)

module _ {Point : Type 0} where
  -- The metastore does not know the node, and the hints are older than the age.
  pub record IsStale (active : ℕ → Result Bool) (modified : FileName → Option ℕ) (now max_age : ℕ)
      (p : NodeProcessor Point) : Type 0 where
    pub unknown_node : active p.node_id ≡ ok false
    pub time : ℕ
    pub last : (processor_last_modified modified p).0 ≡ ok time
    pub old : time + max_age < now

  -- Neither of the calls that can panic does: the queue is there, and its tail is open.
  pub record IsCalm (modified : FileName → Option ℕ) (p : NodeProcessor Point) : Type 0 where
    pub calm_tail : (processor_last_modified modified p).0 ≢ err panic
    pub calm_close : (close_processor (processor_last_modified modified p).1).0 ≢ err panic

  -- A processor that is deleted was stale; one that cannot panic gives a result.
  abbrev Verdict : Type 0 → Option (Bool × NodeProcessor Point) → Type 0
  Verdict Stale none = ⊥
  Verdict Stale (some (true, p)) = Stale
  Verdict Stale (some (false, p)) = Unit {0}

  purge_closed-Verdict :
      (Stale : Type 0) (r : Result (Unit {0}) × NodeProcessor Point)
      → Stale
      → r.0 ≢ err panic
      → Verdict Stale (purge_closed r)
  unfolding purge_closed drop_purged
  purge_closed-Verdict Stale (err panic, p) h calm = absurd (calm refl)
  purge_closed-Verdict Stale (err _, p) h calm = tt
  purge_closed-Verdict Stale (ok _, p) h calm = dropped (purge_processor p)
    where
      dropped : (x : Result (Unit {0}) × NodeProcessor Point) → Verdict Stale (some (drop_purged x))
      dropped (err e, q) = tt
      dropped (ok _, q) = h

  purge_inactive-Verdict :
      (a : Result Bool) (now max_age time : ℕ) (p : NodeProcessor Point)
      → (close_processor p).0 ≢ err panic
      → Verdict (StaleBy a now max_age (ok time)) (purge_inactive a (ltb (time + max_age) now) p)
  unfolding purge_inactive StaleBy
  purge_inactive-Verdict (err e) now max_age time p calm = tt
  purge_inactive-Verdict (ok true) now max_age time p calm = tt
  purge_inactive-Verdict (ok false) now max_age time p calm =
      elim (Bool-cases (ltb (time + max_age) now)) [
        | inl old ↦ rw old (
            purge_closed-Verdict _ (close_processor p)
              (refl, time, refl, ltb→lt (time + max_age) now old) calm)
        | inr young ↦ rw young tt
      ]

  purge_modified-Verdict :
      (a : Result Bool) (now max_age : ℕ) (r : Result ℕ × NodeProcessor Point)
      → r.0 ≢ err panic
      → (close_processor r.1).0 ≢ err panic
      → Verdict (StaleBy a now max_age r.0) (purge_modified a now max_age r)
  unfolding purge_modified
  purge_modified-Verdict a now max_age (err panic, p) calm close = absurd (calm refl)
  purge_modified-Verdict a now max_age (err _, p) calm close = tt
  purge_modified-Verdict a now max_age (ok time, p) calm close =
      purge_inactive-Verdict a now max_age time p close

  -- What a pass leaves of the entry of a node.
  abbrev pub LeftOr :
      Type 0 → Option (Bool × NodeProcessor Point) → Option (NodeProcessor Point) → Type 0
  LeftOr Stale body none = Stale
  LeftOr Stale body (some left) = body ≡ some (false, left)

  -- No key stands twice in the map.
  abbrev pub Keyed : List (ℕ × NodeProcessor Point) → Type 0
  Keyed [] = Unit {0}
  Keyed (e ∷ es) = (find e.0 es ≡ none) × Keyed es

  module _ (modified : ℕ → FileName → Option ℕ) (active : ℕ → Result Bool) (now max_age : ℕ) where
    abbrev body : ℕ × NodeProcessor Point → Option (Bool × NodeProcessor Point)
    body e = purge_one (modified e.0) active now max_age e.1

    abbrev Stale : ℕ × NodeProcessor Point → Type 0
    Stale e = IsStale active (modified e.0) now max_age e.1

    -- The body of the loop returns, and deletes a stale processor only.
    body_lem :
        (e : ℕ × NodeProcessor Point)
        → IsCalm (modified e.0) e.1
        → (b : Bool) × (p : NodeProcessor Point) × (body e ≡ some (b, p)) × (b ≡ true → Stale e)
    unfolding purge_one StaleBy
    body_lem e calm = verdict (body e) refl (
        purge_modified-Verdict (active e.1.node_id) now max_age
          (processor_last_modified (modified e.0) e.1) calm.calm_tail calm.calm_close)
      where
        stale :
            StaleBy (active e.1.node_id) now max_age (processor_last_modified (modified e.0) e.1).0
            → Stale e
        stale (unknown, time, last, old) = record {
          unknown_node = unknown;
          time = time;
          last = last;
          old = old;
        }

        verdict :
            (o : Option (Bool × NodeProcessor Point))
            → body e ≡ o
            → Verdict
                (StaleBy
                  (active e.1.node_id)
                  now
                  max_age
                  (processor_last_modified (modified e.0) e.1).0)
                o
            → (b : Bool) × (p : NodeProcessor Point) × (body e ≡ some (b, p)) × (b ≡ true → Stale e)
        verdict none q h = absurd h
        verdict (some (true, p)) q h = (true, p, q, λ _. stale h)
        verdict (some (false, p)) q h = (false, p, q, λ x. cc x)

    -- A pass over these entries returns; what was not there is not there after it.
    pub record Swept (es : List (ℕ × NodeProcessor Point)) (disks : ℕ → Directory) : Type 0 where
      pub left : List (ℕ × NodeProcessor Point) × (ℕ → Directory)
      pub returned : purge_each modified active now max_age es disks ≡ some left
      pub absent : (id : ℕ) → find id es ≡ none → find id left.0 ≡ none
      pub present :
          (id : ℕ) (p : NodeProcessor Point)
          → Keyed es
          → find id es ≡ some p
          → LeftOr (Stale (id, p)) (body (id, p)) (find id left.0)

    next_eq :
        (e : ℕ × NodeProcessor Point) (es : List (ℕ × NodeProcessor Point)) (disks : ℕ → Directory)
        (rest : Swept es disks)
        → purge_each modified active now max_age (e ∷ es) disks
          ≡ purge_next e.0 (body e) (some rest.left)
    unfolding purge_each
    next_eq e es disks rest = ap (purge_next e.0 (body e)) rest.returned

    goes :
        (e : ℕ × NodeProcessor Point) (es : List (ℕ × NodeProcessor Point)) (disks : ℕ → Directory)
        (p : NodeProcessor Point)
        → body e ≡ some (true, p)
        → Stale e
        → Swept es disks
        → Swept (e ∷ es) disks
    unfolding find
    goes e es disks p b stale rest = record {
      left = (rest.left.0, _);
      returned = next_eq e es disks rest ∙ ap (λ o. purge_next e.0 o (some rest.left)) b;
      absent = λ id h. elim (Bool-cases (e.0 == id)) [
        | inl same ↦ cc (rw same at h)
        | inr other ↦ rest.absent id (rw other at h)
      ];
      present = λ id q k h. elim (Bool-cases (e.0 == id)) [
        | inl same ↦
            let gone : find id rest.left.0 ≡ none =
              rest.absent id (ap (λ i. find i es) (sym ((==_iff e.0 id).0 same)) ∙ k.0) in
            let there : e.1 ≡ q = cc (rw same at h) in
            rw gone (subst (λ x. Stale x) (λ j. ((==_iff e.0 id).0 same j, there j)) stale)
        | inr other ↦ rest.present id q k.1 (rw other at h)
      ];
    }

    stays :
        (e : ℕ × NodeProcessor Point) (es : List (ℕ × NodeProcessor Point)) (disks : ℕ → Directory)
        (p : NodeProcessor Point)
        → body e ≡ some (false, p)
        → Swept es disks
        → Swept (e ∷ es) disks
    unfolding find
    stays e es disks p b rest = record {
      left = ((e.0, p) ∷ rest.left.0, rest.left.1);
      returned = next_eq e es disks rest ∙ ap (λ o. purge_next e.0 o (some rest.left)) b;
      absent = λ id h. elim (Bool-cases (e.0 == id)) [
        | inl same ↦ cc (rw same at h)
        | inr other ↦ rw other (rest.absent id (rw other at h))
      ];
      present = λ id q k h. elim (Bool-cases (e.0 == id)) [
        | inl same ↦
            let there : e.1 ≡ q = cc (rw same at h) in
            rw same (ap body (λ j. (sym ((==_iff e.0 id).0 same) j, sym there j)) ∙ b)
        | inr other ↦ rw other (rest.present id q k.1 (rw other at h))
      ];
    }

    sweep :
        (es : List (ℕ × NodeProcessor Point)) (disks : ℕ → Directory)
        → All (λ e. IsCalm (modified e.0) e.1) es
        → Swept es disks
    unfolding find purge_each
    sweep [] disks calm = record {
      left = ([], disks);
      returned = refl;
      absent = λ id h. h;
      present = λ id p k h. cc h;
    }
    sweep (e ∷ es) disks calm = let rest = sweep es disks calm.1 in next (body_lem e calm.0) rest
      where
        next :
            (b : Bool) × (p : NodeProcessor Point) × (body e ≡ some (b, p)) × (b ≡ true → Stale e)
            → Swept es disks
            → Swept (e ∷ es) disks
        next (true, p, q, stale) rest = goes e es disks p q (stale refl) rest
        next (false, p, q, stale) rest = stays e es disks p q rest

  -- A pass of the purge over processors whose queue is there, with an open tail, and whose Close
  -- does not panic, returns. It deletes a processor only if the metastore does not know its node and
  -- its queue was last written to longer ago than the age; any other stays in the map, as the body
  -- of the loop leaves it.
  pub purge-IsStale :
      (modified : ℕ → FileName → Option ℕ) (active : ℕ → Result Bool) (now : ℕ) (s : Service Point)
      → All (λ e. IsCalm (modified e.0) e.1) s.processors
      → Keyed s.processors
      → (t : Service Point) × (purge_inactive_processors modified active now s ≡ some t)
        × ((id : ℕ) (p : NodeProcessor Point)
            → find id s.processors ≡ some p
            → LeftOr
                (IsStale active (modified id) now s.max_age p)
                (purge_one (modified id) active now s.max_age p)
                (find id t.processors))
  unfolding purge_inactive_processors
  purge-IsStale modified active now s calm k =
      let r = sweep modified active now s.max_age s.processors s.disks calm in
      (_, ap (λ o. purged o s) r.returned, λ id p h. r.present id p k h)

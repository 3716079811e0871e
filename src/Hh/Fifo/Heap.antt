-- ===== src/Hh/Fifo/Heap.antt =====
-- The objects of the parts under a change of one object.
use influxdb_cluster.Prelude.{
  ℕ, suc, ◌≤◌, ◌<◌, ◌≡◌, ap, ◌∙◌, List, [], ◌∷◌, ◌++◌, map, ==_self, arith,
}
use influxdb_cluster.Hh.Segment.{Segment}
use influxdb_cluster.Hh.Queue.{update}
use influxdb_cluster.Hh.Fifo.{Part, ref_of, segment, Fits, Holds}

module _ (objects : ℕ → Segment) (max_size r : ℕ) (s : Segment) where
  pub Holds-update_below :
      (lo hi : ℕ) (ps : List Part)
      → r < lo
      → Holds objects max_size lo ps hi
      → Holds (update objects r s) max_size lo ps hi
  Holds-update_below lo hi [] h holds = holds
  Holds-update_below lo hi (p ∷ ps) h holds = (
    holds.0,
    ground (arith, holds.1),
    holds.2,
    Holds-update_below (suc p.ref) hi ps (omega arith) holds.3,
  )

pub update_other :
    (objects : ℕ → Segment) (r x : ℕ) (s : Segment) → x < r → update objects r s x ≡ objects x
update_other objects r x s h = ground arith

-- The references of the parts lie in their bounds.
pub Holds-lt :
    (objects : ℕ → Segment) (max_size lo hi : ℕ) (before after : List Part) (p : Part)
    → Holds objects max_size lo (before ++ p ∷ after) hi
    → lo ≤ p.ref
Holds-lt objects max lo hi [] after p holds = holds.0
Holds-lt objects max lo hi (b ∷ before) after p holds =
    omega (arith, Holds-lt objects max (suc b.ref) hi before after p holds.3)

pub Holds-le :
    (objects : ℕ → Segment) (max_size lo hi : ℕ) (ps : List Part)
    → Holds objects max_size lo ps hi
    → lo ≤ hi
Holds-le objects max lo hi [] holds = holds
Holds-le objects max lo hi (p ∷ ps) holds =
    omega (arith, Holds-le objects max (suc p.ref) hi ps holds.3)

pub Holds-update :
    (objects : ℕ → Segment) (max_size lo hi : ℕ) (before after : List Part) (p p' : Part)
    → p'.ref ≡ p.ref
    → Fits max_size p'
    → Holds objects max_size lo (before ++ p ∷ after) hi
    → Holds (update objects p.ref (segment max_size p')) max_size lo (before ++ p' ∷ after) hi
Holds-update objects max lo hi [] after p p' e fits holds = (
  omega arith,
  rw (e, ==_self p.ref),
  fits,
  rw e (
      Holds-update_below objects max p.ref (segment max p') (suc p.ref) hi after (omega arith)
        holds.3),
)
Holds-update objects max lo hi (b ∷ before) after p p' e fits holds = (
  holds.0,
  update_other objects p.ref b.ref (segment max p')
        (Holds-lt objects max (suc b.ref) hi before after p holds.3)
      ∙ holds.1,
  holds.2,
  Holds-update objects max (suc b.ref) hi before after p p' e fits holds.3,
)

-- A new object behind those of the parts.
pub Holds-append :
    (objects : ℕ → Segment) (max_size lo hi : ℕ) (ps : List Part) (p : Part)
    → p.ref ≡ hi
    → Fits max_size p
    → Holds objects max_size lo ps hi
    → Holds (update objects hi (segment max_size p)) max_size lo (ps ++ p ∷ []) (suc hi)
Holds-append objects max lo hi [] p e fits holds =
    (omega arith, rw (e, ==_self hi), fits, omega arith)
Holds-append objects max lo hi (q ∷ ps) p e fits holds = (
  holds.0,
  update_other objects hi q.ref (segment max p) (Holds-le objects max (suc q.ref) hi ps holds.3)
      ∙ holds.1,
  holds.2,
  Holds-append objects max (suc q.ref) hi ps p e fits holds.3,
)

pub Holds-at :
    (objects : ℕ → Segment) (max_size lo hi : ℕ) (before after : List Part) (p : Part)
    → Holds objects max_size lo (before ++ p ∷ after) hi
    → (objects p.ref ≡ segment max_size p) × Fits max_size p
Holds-at objects max lo hi [] after p holds = (holds.1, holds.2)
Holds-at objects max lo hi (b ∷ before) after p holds =
    Holds-at objects max (suc b.ref) hi before after p holds.3

pub map_replace :
    (before after : List Part) (p p' : Part)
    → p'.ref ≡ p.ref
    → map ref_of (before ++ p' ∷ after) ≡ map ref_of (before ++ p ∷ after)
map_replace [] after p p' e = rw e
map_replace (b ∷ before) after p p' e = ap (◌∷◌ b.ref) (map_replace before after p p' e)

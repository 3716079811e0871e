-- ===== src/Cluster/PointsWriter/Mapping.antt =====
-- The mapping of points to shards in cluster/points_writer.go.
use mathlib.Core.Path.{subst}
use influxdb_cluster.Prelude.{
  ℕ, ◌≡◌, ◌≢◌, refl, sym, ap, ◌∙◌, inl, inr, Bool, false, Bool-cases, Option, none, some,
  Option-cases, List, [], ◌∷◌, ◌++◌, append-nil, append_assoc, All, ◌==◌, ==_iff, ==_self,
  if◌then◌else◌, arith,
}
use influxdb_cluster.Meta.Data.{ShardInfo}
use influxdb_cluster.Cluster.PointsWriter.{
  get, set, ShardMapping, new_shard_mapping, with_point, map_point, map_points,
}

unlike : (a b : ℕ) → b ≢ a → (a == b) ≡ false
unlike a b h = ground arith

module _ {A : Type 0} where
  pub get-set : (k : ℕ) (a : A) (es : List (ℕ × A)) → get k (set k a es) ≡ some a
  unfolding get set
  get-set k a [] = rw (==_self k) refl
  get-set k a (e ∷ es) = elim (Bool-cases (e.0 == k)) [
    | inl same ↦ rw same (rw (==_self k) refl)
    | inr other ↦ rw other (rw other (get-set k a es))
  ]

  pub get-set_other : (k i : ℕ) (a : A) (es : List (ℕ × A)) → i ≢ k → get i (set k a es) ≡ get i es
  unfolding get set
  get-set_other k i a [] apart = rw (unlike k i apart) refl
  get-set_other k i a (e ∷ es) apart = elim (Bool-cases (e.0 == k)) [
    | inl same ↦
        rw same
          (rw (unlike k i apart) (rw (unlike e.0 i (λ q. apart (q ∙ (==_iff e.0 k).0 same))) refl))
    | inr other ↦
        rw other (ap (λ o. if e.0 == i then some e.1 else o) (get-set_other k i a es apart))
  ]

  -- No key stands twice in the map.
  abbrev pub Keyed : List (ℕ × A) → Type 0
  Keyed [] = Unit {0}
  Keyed (e ∷ es) = All (λ x. x.0 ≢ e.0) es × Keyed es

  pub All-each :
      (P Q : ℕ × A → Type 0) (es : List (ℕ × A)) → ((e : ℕ × A) → P e → Q e) → All P es → All Q es
  All-each P Q [] h all = tt
  All-each P Q (e ∷ es) h all = (h e all.0, All-each P Q es h all.1)

  All-set :
      (P : ℕ → Type 0) (k : ℕ) (a : A) (es : List (ℕ × A))
      → P k
      → All (λ e. P e.0) es
      → All (λ e. P e.0) (set k a es)
  unfolding set
  All-set P k a [] h all = (h, tt)
  All-set P k a (e ∷ es) h all = elim (Bool-cases (e.0 == k)) [
    | inl same ↦ rw same (h, all.1)
    | inr other ↦ rw other (all.0, All-set P k a es h all.1)
  ]

  pub Keyed-set : (k : ℕ) (a : A) (es : List (ℕ × A)) → Keyed es → Keyed (set k a es)
  unfolding set
  Keyed-set k a [] h = (tt, tt)
  Keyed-set k a (e ∷ es) h = elim (Bool-cases (e.0 == k)) [
    | inl same ↦ rw same (subst (λ i. All (λ x. x.0 ≢ i) es) ((==_iff e.0 k).0 same) h.0, h.1)
    | inr other ↦ rw other (
      All-set (λ i. i ≢ e.0) k a es (λ q. cc (other, (==_iff e.0 k).1 (sym q))) h.0,
      Keyed-set k a es h.1,
    )
  ]

-- The map has a shard with this id.
abbrev pub Known : List (ℕ × ShardInfo) → ℕ → Type 0
Known shards i = (sh : ShardInfo) × (get i shards ≡ some sh) × (sh.id ≡ i)

Known-set :
    (sh : ShardInfo) (shards : List (ℕ × ShardInfo)) (i : ℕ)
    → Known shards i
    → Known (set sh.id sh shards) i
Known-set sh shards i (x, found, same) = elim (Bool-cases (sh.id == i)) [
  | inl e ↦
      let q = (==_iff sh.id i).0 e in
      (sh, ap (λ j. get j (set sh.id sh shards)) (sym q) ∙ get-set sh.id sh shards, q)
  | inr other ↦ (
    x,
    get-set_other sh.id i sh shards (λ q. cc (other, (==_iff sh.id i).1 (sym q))) ∙ found,
    same,
  )
]

abbrev pub belongs : Option ShardInfo → ℕ → Bool
belongs none i = false
belongs (some sh) i = sh.id == i

module _ {Point : Type 0} where
  abbrev pub points_of : ℕ → ShardMapping Point → List Point
  points_of i m = elim (get i m.points) [ none ↦ [] | some ps ↦ ps ]

  -- What a shard is to have: the points whose shard it is, in their order.
  abbrev pub points_for : (Point → Option ShardInfo) → ℕ → List Point → List Point
  points_for shard_of i [] = []
  points_for shard_of i (p ∷ ps) =
      let rest = points_for shard_of i ps in if belongs (shard_of p) i then p ∷ rest else rest

  -- Each key of the points is that of a shard with this id, and stands once.
  pub record IsMapped (m : ShardMapping Point) : Type 0 where
    pub keyed : Keyed m.points
    pub known : All (λ e. Known m.shards e.0) m.points

  points_of-map_point :
      (sh : ShardInfo) (p : Point) (m : ShardMapping Point)
      → points_of sh.id (map_point sh p m) ≡ points_of sh.id m ++ p ∷ []
  unfolding map_point
  points_of-map_point sh p m =
      ap (λ o. elim o [ none ↦ [] | some ps ↦ ps ])
        (get-set sh.id (with_point (get sh.id m.points) p) m.points)
      ∙ added (get sh.id m.points)
    where
      added :
          (o : Option (List Point))
          → with_point o p ≡ elim o as (λ x. List Point) [ none ↦ [] | some ps ↦ ps ] ++ p ∷ []
      added none = refl
      added (some ps) = refl

  points_of-map_point_other :
      (sh : ShardInfo) (p : Point) (m : ShardMapping Point) (i : ℕ)
      → i ≢ sh.id
      → points_of i (map_point sh p m) ≡ points_of i m
  unfolding map_point
  points_of-map_point_other sh p m i apart =
      ap (λ o. elim o [ none ↦ [] | some ps ↦ ps ])
        (get-set_other sh.id i (with_point (get sh.id m.points) p) m.points apart)

  points_of-map_points :
      (shard_of : Point → Option ShardInfo) (i : ℕ) (ps : List Point) (m m' : ShardMapping Point)
      → map_points shard_of ps m ≡ some m'
      → points_of i m' ≡ points_of i m ++ points_for shard_of i ps
  unfolding map_points
  points_of-map_points shard_of i [] m m' e =
      let q : m ≡ m' = cc e in sym (ap (points_of i) q) ∙ sym (append-nil (points_of i m))
  points_of-map_points shard_of i (p ∷ ps) m m' e = elim (Option-cases (shard_of p)) [
    | inl missing ↦ cc (rw missing at e)
    | inr (sh, found) ↦
        let rest = points_of-map_points shard_of i ps (map_point sh p m) m' (rw found at e) in
        elim (Bool-cases (sh.id == i)) [
          | inl same ↦ rw found (
              rw same (
                rest
                ∙ (ap (λ xs. xs ++ points_for shard_of i ps)
                      (here sh p m i ((==_iff sh.id i).0 same))
                    ∙ append_assoc (points_of i m) (p ∷ []) (points_for shard_of i ps))))
          | inr other ↦ rw found (
              rw other (
                rest
                ∙ ap (λ xs. xs ++ points_for shard_of i ps)
                    (points_of-map_point_other sh p m i
                      (λ q. cc (other, (==_iff sh.id i).1 (sym q))))))
        ]
  ]
    where
      here :
          (sh : ShardInfo) (q : Point) (k : ShardMapping Point) (j : ℕ)
          → sh.id ≡ j
          → points_of j (map_point sh q k) ≡ points_of j k ++ q ∷ []
      here sh q k j e' =
          subst (λ x. points_of x (map_point sh q k) ≡ points_of x k ++ q ∷ []) e'
            (points_of-map_point sh q k)

  map_point-IsMapped :
      (sh : ShardInfo) (p : Point) (m : ShardMapping Point)
      → IsMapped m
      → IsMapped (map_point sh p m)
  unfolding map_point
  map_point-IsMapped sh p m h = record {
    keyed = Keyed-set sh.id (with_point (get sh.id m.points) p) m.points h.keyed;
    known =
        All-set (Known (set sh.id sh m.shards)) sh.id (with_point (get sh.id m.points) p) m.points
          (sh, get-set sh.id sh m.shards, refl)
          (All-each (λ e. Known m.shards e.0) (λ e. Known (set sh.id sh m.shards) e.0) m.points
            (λ e k. Known-set sh m.shards e.0 k) h.known);
  }

  map_points-IsMapped :
      (shard_of : Point → Option ShardInfo) (ps : List Point) (m m' : ShardMapping Point)
      → IsMapped m
      → map_points shard_of ps m ≡ some m'
      → IsMapped m'
  unfolding map_points
  map_points-IsMapped shard_of [] m m' h e = subst IsMapped q h
    where
      q : m ≡ m'
      q = cc e
  map_points-IsMapped shard_of (p ∷ ps) m m' h e = elim (Option-cases (shard_of p)) [
    | inl missing ↦ cc (rw missing at e)
    | inr (sh, found) ↦
        map_points-IsMapped shard_of ps (map_point sh p m) m' (map_point-IsMapped sh p m h)
          (rw found at e)
  ]

  -- The mapping of points to shards.
  pub record Maps (shard_of : Point → Option ShardInfo) (ps : List Point) (m : ShardMapping Point)
      : Type 0 where
    pub mapped : IsMapped m
    pub parts : (i : ℕ) → points_of i m ≡ points_for shard_of i ps

  pub map_points-Maps_if :
      (shard_of : Point → Option ShardInfo) (ps : List Point) (m : ShardMapping Point)
      → map_points shard_of ps new_shard_mapping ≡ some m
      → Maps shard_of ps m
  map_points-Maps_if shard_of ps m e = record {
    mapped =
        map_points-IsMapped shard_of ps new_shard_mapping m (record { keyed = tt; known = tt }) e;
    parts = λ i. points_of-map_points shard_of i ps new_shard_mapping m e ∙ none_before i;
  }
    where
      none_before :
          (i : ℕ)
          → points_of i new_shard_mapping ++ points_for shard_of i ps ≡ points_for shard_of i ps
      none_before i = unfold get in refl

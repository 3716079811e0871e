-- ===== src/Cluster/PointsWriter/Groups.antt =====
-- The shard groups that MapShards of cluster/points_writer.go makes for points.
use mathlib.Core.Path.{subst}
use influxdb_cluster.Prelude.{
  ℕ, ◌≡◌, refl, sym, ap, ◌∙◌, inl, inr, Bool-cases, Option, none, some, List, [], ◌∷◌, All, ◌==◌,
  ==_iff,
}
use influxdb_cluster.Meta.Data.{ShardGroupInfo}
use influxdb_cluster.Cluster.Store.{Reply, ok, err, Name}
use influxdb_cluster.Cluster.PointsWriter.{
  get, set, MetaClient, Points, add_group, create_groups, time_ranges,
}
use influxdb_cluster.Cluster.PointsWriter.Mapping.{Keyed, Keyed-set, get-set, get-set_other}

-- A map has the same under each key in whatever order it is gone over.
abbrev pub IsOrder : (List (ℕ × Option ShardGroupInfo) → List (ℕ × Option ShardGroupInfo)) → Type 0
IsOrder order =
    (rs : List (ℕ × Option ShardGroupInfo)) → Keyed rs → (t : ℕ) → get t (order rs) ≡ get t rs

each : {A : Type 0} (P Q : A → Type 0) (xs : List A) → ((a : A) → P a → Q a) → All P xs → All Q xs
each P Q [] h all = tt
each P Q (x ∷ xs) h all = (h x all.0, each P Q xs h all.1)

-- The map has the range.
abbrev pub Range : List (ℕ × Option ShardGroupInfo) → ℕ → Type 0
Range rs t = (x : Option ShardGroupInfo) × (get t rs ≡ some x)

Range-set : (i t : ℕ) (rs : List (ℕ × Option ShardGroupInfo)) → Range rs t → Range (set i none rs) t
Range-set i t rs (x, h) = elim (Bool-cases (i == t)) [
  | inl same ↦
      (none, ap (λ j. get j (set i none rs)) (sym ((==_iff i t).0 same)) ∙ get-set i none rs)
  | inr other ↦ (x, get-set_other i t none rs (λ q. cc (other, (==_iff i t).1 (sym q))) ∙ h)
]

module _ {M : Type 0} (meta : MetaClient M) where
  -- Every range that is there gets a group.
  create_groups-made :
      (database policy : Name) (rs gs : List (ℕ × Option ShardGroupInfo)) (m : M) (t : ℕ)
      (x : Option ShardGroupInfo)
      → (create_groups meta database policy rs m).0 ≡ ok gs
      → get t rs ≡ some x
      → (g : Option ShardGroupInfo) × (m' : M) × (get t gs ≡ some g)
        × ((meta.create_shard_group database policy t m').0 ≡ ok g)
  unfolding create_groups get
  create_groups-made database policy [] gs m t x e h = cc h
  create_groups-made database policy (r ∷ rs) gs m t x e h =
      made (meta.create_shard_group database policy r.0 m) refl e
        (λ gs' m1 q2 h2. create_groups-made database policy rs gs' m1 t x q2 h2)
    where
      -- What CreateShardGroup gave for the key.
      Given : List (ℕ × Option ShardGroupInfo) → Type 0
      Given xs =
          (g : Option ShardGroupInfo) × (m' : M) × (get t xs ≡ some g)
          × ((meta.create_shard_group database policy t m').0 ≡ ok g)

      made :
          (c : Reply (Option ShardGroupInfo) × M)
          → meta.create_shard_group database policy r.0 m ≡ c
          → (add_group meta database policy c r.0 (create_groups meta database policy rs)).0 ≡ ok gs
          → ((gs' : List (ℕ × Option ShardGroupInfo)) (m1 : M)
              → (create_groups meta database policy rs m1).0 ≡ ok gs'
              → get t rs ≡ some x
              → Given gs')
          → Given gs
      made (err _, m1) q e later = cc e
      made (ok g, m1) q e later = rest (create_groups meta database policy rs m1).0 refl e
        where
          rest :
              (o : Reply (List (ℕ × Option ShardGroupInfo)))
              → (create_groups meta database policy rs m1).0 ≡ o
              → (elim o [ err e ↦ err e | ok gs' ↦ ok ((r.0, g) ∷ gs') ]) ≡ ok gs
              → Given gs
          rest (err _) q2 e2 = cc e2
          rest (ok gs') q2 e2 =
              let all : (r.0, g) ∷ gs' ≡ gs = cc e2 in
              subst Given all (elim (Bool-cases (r.0 == t)) [
                | inl same ↦ (
                  g,
                  m,
                  rw same refl,
                  ap (λ i. (meta.create_shard_group database policy i m).0)
                        (sym ((==_iff r.0 t).0 same))
                      ∙ ap (λ c. c.0) q,
                )
                | inr other ↦
                    let (g', m', found, answer) = later gs' m1 q2 (rw other at h) in
                    (g', m', rw other found, answer)
              ])

module _ {Point : Type 0} where
  -- The range of each point is among the time ranges, whose keys differ.
  time_ranges-Keyed :
      (range_of : Point → ℕ) (points : List Point) (rs : List (ℕ × Option ShardGroupInfo))
      → Keyed rs
      → Keyed (time_ranges range_of points rs)
  unfolding time_ranges
  time_ranges-Keyed range_of [] rs k = k
  time_ranges-Keyed range_of (p ∷ ps) rs k =
      time_ranges-Keyed range_of ps (set (range_of p) none rs) (Keyed-set (range_of p) none rs k)

  time_ranges-keeps :
      (range_of : Point → ℕ) (points : List Point) (rs : List (ℕ × Option ShardGroupInfo)) (t : ℕ)
      → Range rs t
      → Range (time_ranges range_of points rs) t
  unfolding time_ranges
  time_ranges-keeps range_of [] rs t h = h
  time_ranges-keeps range_of (p ∷ ps) rs t h =
      time_ranges-keeps range_of ps (set (range_of p) none rs) t (Range-set (range_of p) t rs h)

  time_ranges-All :
      (range_of : Point → ℕ) (points : List Point) (rs : List (ℕ × Option ShardGroupInfo))
      → All (λ p. Range (time_ranges range_of points rs) (range_of p)) points
  unfolding time_ranges
  time_ranges-All range_of [] rs = tt
  time_ranges-All range_of (p ∷ ps) rs = (
    time_ranges-keeps range_of ps (set (range_of p) none rs) (range_of p)
        (none, get-set (range_of p) none rs),
    time_ranges-All range_of ps (set (range_of p) none rs),
  )

module _ {M Point : Type 0} (meta : MetaClient M) (pts : Points Point) where
  -- A group for the start of the range of each point: what CreateShardGroup gave for it, in some
  -- state of the metadata.
  abbrev pub Made : Name → Name → ℕ → List (ℕ × Option ShardGroupInfo) → List Point → Type 0
  Made database policy duration groups points =
      All
        (λ p.
          let start = pts.truncate (pts.time p) duration in
          (g : Option ShardGroupInfo) × (m : M) × (get start groups ≡ some g)
          × ((meta.create_shard_group database policy start m).0 ≡ ok g))
        points

  pub ranges-Made :
      (database policy : Name) (duration : ℕ) (points : List Point) (m : M)
      (groups : List (ℕ × Option ShardGroupInfo))
      → IsOrder pts.range_order
      → (create_groups meta database policy
          (pts.range_order (time_ranges (λ p. pts.truncate (pts.time p) duration) points []))
          m).0
        ≡ ok groups
      → Made database policy duration groups points
  ranges-Made database policy duration points m groups order e =
      let range_of : Point → ℕ = λ p. pts.truncate (pts.time p) duration in
      let rs = time_ranges range_of points [] in
      each _ _ points
        (λ p h.
          create_groups-made meta database policy (pts.range_order rs) groups m (range_of p) h.0 e
            (order rs (time_ranges-Keyed range_of points [] tt) (range_of p) ∙ h.1))
        (time_ranges-All range_of points [])

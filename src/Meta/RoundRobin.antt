-- ===== src/Meta/RoundRobin.antt =====
-- The owners that CreateShardGroup of meta/data.go gives to the shards of a group.
use mathlib.Core.Path.{subst}
use native.Mathlib.Nat.{
  mul-le-mul_left, mul-suc, div-add-mod, div-add-mod', mod-lt, suc-mul, add_comm, add-suc, add-zero,
  zero-add, suc-add, zero-mul,
}
use native.Mathlib.Decide.{dec_lt}
use influxdb_cluster.Prelude.{
  ℕ, zero, suc, ◌+◌, ◌*◌, ◌/◌, ◌%◌, ◌≤◌, ◌<◌, ◌≡◌, ◌≢◌, refl, sym, ap, ◌∙◌, List, [], ◌∷◌, ◌++◌,
  All, length, arith,
}
use influxdb_cluster.Meta.Data.{NodeInfo, ShardInfo, RetentionPolicyInfo, Data}
use influxdb_cluster.Meta.Sorted.{Distinct}
use influxdb_cluster.Meta.Groups.{
  Influx, node_at, pick, assign, generated_shards, replica_count, new_group,
}

-- Two places that are less than a turn apart are not one.
turn : (n i t : ℕ) → 0 < t → t < n → (i + t) % n ≢ i % n
turn n i t some_steps less same = elim (dec_lt (i / n) ((i + t) / n)) [
  | yes later ↦ absurd (
      omega (
        arith,
        mul-le-mul_left n later,
        mul-suc n (i / n),
        same,
        div-add-mod (i + t) n,
        div-add-mod i n,
      ))
  | no not_later ↦
      let back : (i + t) / n ≤ i / n = omega arith in
      absurd (omega (arith, mul-le-mul_left n back, same, div-add-mod (i + t) n, div-add-mod i n))
]

node_at-All :
    (P : ℕ → Type 0) (i : ℕ) (ns : List NodeInfo)
    → All (λ n. P n.id) ns
    → i < length ns
    → P (node_at i ns)
unfolding node_at
node_at-All P i [] all h = absurd (omega arith)
node_at-All P zero (n ∷ ns) all h = all.0
node_at-All P (suc i) (n ∷ ns) all h = node_at-All P i ns all.1 (omega arith)

node_at-Distinct :
    (a b : ℕ) (ns : List NodeInfo)
    → Distinct ns
    → a < length ns
    → b < length ns
    → a ≢ b
    → node_at a ns ≢ node_at b ns
unfolding node_at
node_at-Distinct a b [] d h k other = absurd (omega arith)
node_at-Distinct zero zero (n ∷ ns) d h k other = absurd (other refl)
node_at-Distinct zero (suc b) (n ∷ ns) d h k other =
    λ e. node_at-All (λ x. x ≢ n.id) b ns d.0 (omega arith) (sym e)
node_at-Distinct (suc a) zero (n ∷ ns) d h k other =
    node_at-All (λ x. x ≢ n.id) a ns d.0 (omega arith)
node_at-Distinct (suc a) (suc b) (n ∷ ns) d h k other =
    node_at-Distinct a b ns d.1 (omega arith) (omega arith) (λ e. other (ap suc e))

-- No id twice.
abbrev pub NoneTwice : List ℕ → Type 0
NoneTwice [] = Unit {0}
NoneTwice (x ∷ xs) = All (λ y. y ≢ x) xs × NoneTwice xs

module _ (nodes : List NodeInfo) (d : Distinct nodes) where
  pick_later :
      (j i t : ℕ)
      → 0 < t
      → t + j ≤ length nodes
      → All (λ y. y ≢ node_at (i % length nodes) nodes) (pick j (i + t) nodes)
  unfolding pick
  pick_later zero i t some_steps h = tt
  pick_later (suc j) i t some_steps h = (
    node_at-Distinct ((i + t) % length nodes) (i % length nodes) nodes d
        (mod-lt (i + t) (omega arith)) (mod-lt i (omega arith))
        (turn (length nodes) i t some_steps (omega arith)),
    subst (λ k. All (λ y. y ≢ node_at (i % length nodes) nodes) (pick j k nodes)) (add-suc i t)
        (pick_later j i (suc t) (omega arith) (omega arith)),
  )

  pick-NoneTwice : (j i : ℕ) → j ≤ length nodes → NoneTwice (pick j i nodes)
  unfolding pick
  pick-NoneTwice zero i h = tt
  pick-NoneTwice (suc j) i h =
      let next : i + 1 ≡ suc i = omega arith in
      (
        subst (λ k. All (λ y. y ≢ node_at (i % length nodes) nodes) (pick j k nodes)) next
            (pick_later j i 1 (omega arith) (omega arith)),
        pick-NoneTwice j (suc i) (omega arith),
      )

-- The owners of all shards, one after the other.
unfoldable pub all_owners : List ShardInfo → List ℕ
all_owners [] = []
all_owners (s ∷ ss) = s.owners ++ all_owners ss

pick-append :
    (j k i : ℕ) (nodes : List NodeInfo)
    → pick (j + k) i nodes ≡ pick j i nodes ++ pick k (i + j) nodes
unfolding pick
pick-append zero k i nodes =
    ap (λ j. pick j i nodes) (zero-add k) ∙ ap (λ x. pick k x nodes) (sym (add-zero i))
pick-append (suc j) k i nodes =
    let next : suc i + j ≡ i + suc j = omega arith in
    ap (λ x. pick x i nodes) (suc-add j k)
    ∙ ap (◌∷◌ (node_at (i % length nodes) nodes))
        (pick-append j k (suc i) nodes ∙ ap (λ x. pick j (suc i) nodes ++ pick k x nodes) next)

-- Shards that have no owner yet.
abbrev Bare : List ShardInfo → Type 0
Bare = All (λ s. s.owners ≡ [])

all_owners-assign :
    (r i : ℕ) (nodes : List NodeInfo) (ss : List ShardInfo)
    → Bare ss
    → all_owners (assign r i nodes ss) ≡ pick (length ss * r) i nodes
unfolding all_owners assign
all_owners-assign r i nodes [] bare = rw (zero-mul r) (unfold pick in refl)
all_owners-assign r i nodes (s ∷ ss) bare = rw (
  bare.0,
  all_owners-assign r (i + r) nodes ss bare.1,
  suc-mul (length ss) r,
  add_comm (length ss * r) r,
  pick-append r (length ss * r) i nodes,
)

length-pick : (j i : ℕ) (nodes : List NodeInfo) → length (pick j i nodes) ≡ j
unfolding pick
length-pick zero i nodes = refl
length-pick (suc j) i nodes = ap suc (length-pick j (suc i) nodes)

assign-counts :
    (r i : ℕ) (nodes : List NodeInfo) (ss : List ShardInfo)
    → Bare ss
    → All (λ s. length s.owners ≡ r) (assign r i nodes ss)
unfolding assign
assign-counts r i nodes [] bare = tt
assign-counts r i nodes (s ∷ ss) bare =
    (rw (bare.0) (length-pick r i nodes), assign-counts r (i + r) nodes ss bare.1)

generated_shards-Bare : (n most : ℕ) → Bare (generated_shards n most).0
unfolding generated_shards
generated_shards-Bare zero most = tt
generated_shards-Bare (suc n) most = (refl, generated_shards-Bare n _)

length-generated_shards : (n most : ℕ) → length (generated_shards n most).0 ≡ n
unfolding generated_shards
length-generated_shards zero most = refl
length-generated_shards (suc n) most = ap suc (length-generated_shards n _)

-- In a new group every shard has as many owners as there are replicas, no data node owns two shards
-- or one shard twice, and there are as many shards as there are whole sets of replicas among the
-- nodes.
pub new_group-owners :
    (lib : Influx) (rpi : RetentionPolicyInfo) (timestamp : ℕ) (d : Data)
    → Distinct d.data_nodes
    → 0 < length d.data_nodes
    → let shards = (new_group lib rpi timestamp d).0.shards in
      let replica_n = replica_count rpi.replica_n (length d.data_nodes) in
      All (λ s. length s.owners ≡ replica_n) shards
      × NoneTwice (all_owners shards)
      × (length shards ≡ length d.data_nodes / replica_n)
unfolding new_group assign
new_group-owners lib rpi timestamp d distinct some_nodes =
    let n = length d.data_nodes in
    let r = replica_count rpi.replica_n n in
    let made = (generated_shards (n / r) d.max_shard_id).0 in
    let bare = generated_shards-Bare (n / r) d.max_shard_id in
    (
      assign-counts r (d.index % n) d.data_nodes made bare,
      rw
          (
            all_owners-assign r (d.index % n) d.data_nodes made bare,
            length-generated_shards (n / r) d.max_shard_id,
          )
          (pick-NoneTwice d.data_nodes distinct (n / r * r) (d.index % n)
            (omega (arith, div-add-mod' n r))),
      length-assign r (d.index % n) d.data_nodes made
          ∙ length-generated_shards (n / r) d.max_shard_id,
    )
  where
    length-assign :
        (r i : ℕ) (nodes : List NodeInfo) (ss : List ShardInfo)
        → length (assign r i nodes ss) ≡ length ss
    length-assign r i nodes [] = refl
    length-assign r i nodes (s ∷ ss) = ap suc (length-assign r (i + r) nodes ss)

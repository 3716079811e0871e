-- ===== src/Meta/Release.antt =====
-- DeleteMetaNode of meta/data.go: the node goes, and no shard keeps it as an owner.
use influxdb_cluster.Prelude.{
  ℕ, ◌≡◌, ◌≢◌, refl, inl, inr, Bool, true, false, ◌&&◌, Bool-cases, some, none, List, [], ◌∷◌,
  length, map, All, ◌==◌, ==_iff, if◌then◌else◌, arith,
}
use influxdb_cluster.Meta.Data.{
  NodeInfo, ShardInfo, ShardGroupInfo, RetentionPolicyInfo, DatabaseInfo, Data, Outcome, ok, err,
  node_not_found, without_id, meta_node,
}
use influxdb_cluster.Meta.RoundRobin.{NoneTwice}
use influxdb_cluster.Meta.Delete.{without_id-gone, shorter}

unfoldable pub has_owner : ℕ → List ℕ → Bool
has_owner i [] = false
has_owner i (o ∷ os) = if o == i then true else has_owner i os

-- The last of the owners with the id is taken out.
unfoldable pub drop_owner : ℕ → List ℕ → List ℕ
drop_owner i [] = []
drop_owner i (o ∷ os) =
    let rest = o ∷ drop_owner i os in if has_owner i os then rest else if o == i then os else rest

unfoldable pub release_shard : ℕ → ShardInfo → ShardInfo
release_shard i s = record s { owners = drop_owner i s.owners }

unfoldable pub all_orphaned : List ShardInfo → Bool
all_orphaned [] = true
all_orphaned (s ∷ ss) = (length s.owners == 0) && all_orphaned ss

-- A group with no owner left is marked as deleted.
unfoldable pub release_group : ℕ → ℕ → ShardGroupInfo → ShardGroupInfo
release_group i now g =
    let shards = map (release_shard i) g.shards in
    record g { shards = shards; deleted_at = if all_orphaned shards then now else g.deleted_at }

abbrev pub release_policy : ℕ → ℕ → RetentionPolicyInfo → RetentionPolicyInfo
release_policy i now rp = record rp { shard_groups = map (release_group i now) rp.shard_groups }

abbrev pub release_database : ℕ → ℕ → DatabaseInfo → DatabaseInfo
release_database i now db = record db {
  retention_policies = map (release_policy i now) db.retention_policies;
}

unfoldable pub delete_meta_node : ℕ → ℕ → Data → Outcome (Unit {0}) × Data
delete_meta_node id now d =
    let nodes = without_id id d.meta_nodes in
    if length nodes == length d.meta_nodes then (err node_not_found, d) else (
      ok tt,
      record d { meta_nodes = nodes; databases = map (release_database id now) d.databases },
    )

-- What holds of every shard.
abbrev pub AllShards : (ShardInfo → Type 0) → List DatabaseInfo → Type 0
AllShards P =
    All (λ db. All (λ rp. All (λ g. All P g.shards) rp.shard_groups) db.retention_policies)

All-map_over :
    {A B : Type 0} (P : A → Type 0) (Q : B → Type 0) (f : A → B) (xs : List A)
    → ((a : A) → P a → Q (f a))
    → All P xs
    → All Q (map f xs)
All-map_over P Q f [] h all = tt
All-map_over P Q f (x ∷ xs) h all = (h x all.0, All-map_over P Q f xs h all.1)

-- No owner has the id.
abbrev pub Free : ℕ → List ℕ → Type 0
Free i os = All (λ o. o ≢ i) os

not_owner : (i : ℕ) (os : List ℕ) → has_owner i os ≡ false → Free i os
unfolding has_owner
not_owner i [] e = tt
not_owner i (o ∷ os) e = elim (Bool-cases (o == i)) [
  | inl same ↦ cc (rw same at e)
  | inr other ↦ ((λ q. cc (other, (==_iff o i).1 q)), not_owner i os (rw other at e))
]

has_owner-first : (i o : ℕ) (os : List ℕ) → Free o os → has_owner i os ≡ true → o ≢ i
unfolding has_owner
has_owner-first i o [] free e = cc e
has_owner-first i o (x ∷ xs) free e = elim (Bool-cases (x == i)) [
  | inl same ↦ λ q. free.0 (cc ((==_iff x i).0 same, q))
  | inr other ↦ has_owner-first i o xs free.1 (rw other at e)
]

drop_owner-Free : (i : ℕ) (os : List ℕ) → NoneTwice os → Free i (drop_owner i os)
unfolding drop_owner
drop_owner-Free i [] once = tt
drop_owner-Free i (o ∷ os) once = elim (Bool-cases (has_owner i os)) [
  | inl later ↦ rw later (has_owner-first i o os once.0 later, drop_owner-Free i os once.1)
  | inr none_later ↦ elim (Bool-cases (o == i)) [
    | inl same ↦ rw none_later (rw same (not_owner i os none_later))
    | inr other ↦
        rw none_later (rw other ((λ q. cc (other, (==_iff o i).1 q)), drop_owner-Free i os once.1))
  ]
]

-- `DeleteMetaNode` of a node that is there succeeds, the node is gone, and no shard has it as an
-- owner any more, if no shard had any owner twice.
pub delete_meta_node-AllShards :
    (id now : ℕ) (d : Data) (n : NodeInfo)
    → meta_node id d ≡ some n
    → AllShards (λ s. NoneTwice s.owners) d.databases
    → ((delete_meta_node id now d).0 ≡ ok tt)
      × (meta_node id (delete_meta_node id now d).1 ≡ none)
      × AllShards (λ s. Free id s.owners) (delete_meta_node id now d).1.databases
unfolding delete_meta_node meta_node release_group release_shard
delete_meta_node-AllShards i now d n e once = rw not_same (
  refl,
  without_id-gone i d.meta_nodes,
  All-map_over _ _ (release_database i now) d.databases
      (λ db a.
        All-map_over _ _ (release_policy i now) db.retention_policies
          (λ rp b.
            All-map_over _ _ (release_group i now) rp.shard_groups
              (λ g c.
                All-map_over _ _ (release_shard i) g.shards
                  (λ s twice. drop_owner-Free i s.owners twice) c)
              b)
          a)
      once,
)
  where
    not_same : (length (without_id i d.meta_nodes) == length d.meta_nodes) ≡ false
    not_same = ground (arith, shorter i d.meta_nodes n e)

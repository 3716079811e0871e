-- ===== src/Meta/Groups.antt =====
-- Shard groups of meta/data.go: CreateShardGroup. The methods of the embedded `meta.Data` and its
-- parts are parameters.
use influxdb_cluster.Prelude.{
  ℕ, zero, suc, ◌+◌, ◌/◌, ◌%◌, Option, none, some, List, [], ◌∷◌, ◌++◌, length, ltb, ◌==◌,
  if◌then◌else◌,
}
use influxdb_cluster.Prelude.Bytes.{add64}
use influxdb_cluster.Meta.Data.{
  Address, NodeInfo, ShardInfo, ShardGroupInfo, RetentionPolicyInfo, DatabaseInfo, Data, Outcome,
  ok, err, policy_not_found,
}

-- `retention_policy` gives the places of the database and of the policy in it. `by_timestamp` is
-- ShardGroupByTimestamp, `sort_groups` sorts shard groups, and `truncate` is `Time.Truncate`.
pub record Influx : Type 0 where
  pub retention_policy :
      List DatabaseInfo → Address → Address → Outcome (Option (ℕ × ℕ × RetentionPolicyInfo))
  pub by_timestamp : RetentionPolicyInfo → ℕ → Option ShardGroupInfo
  pub sort_groups : List ShardGroupInfo → List ShardGroupInfo
  pub truncate : ℕ → ℕ → ℕ

-- The id of the node at a place.
unfoldable pub node_at : ℕ → List NodeInfo → ℕ
node_at i [] = 0
node_at zero (n ∷ ns) = n.id
node_at (suc i) (n ∷ ns) = node_at i ns

-- As many nodes as there are replicas, from a place on, and from the start again after the last.
unfoldable pub pick : ℕ → ℕ → List NodeInfo → List ℕ
pick zero index nodes = []
pick (suc j) index nodes = node_at (index % length nodes) nodes ∷ pick j (suc index) nodes

unfoldable pub assign : ℕ → ℕ → List NodeInfo → List ShardInfo → List ShardInfo
assign replica_n index nodes [] = []
assign replica_n index nodes (s ∷ ss) =
    record s { owners = s.owners ++ pick replica_n index nodes }
    ∷ assign replica_n (index + replica_n) nodes ss

-- The shards and the greatest id after them.
unfoldable pub generated_shards : ℕ → ℕ → List ShardInfo × ℕ
generated_shards zero max_id = ([], max_id)
generated_shards (suc n) max_id =
    let rest = generated_shards n (add64 max_id 1) in
    (record { id = add64 max_id 1; owners = [] } ∷ rest.0, rest.1)

-- At least one replica, and no more than nodes.
unfoldable pub replica_count : ℕ → ℕ → ℕ
replica_count replica_n nodes =
    if replica_n == 0 then 1 else if ltb nodes replica_n then nodes else replica_n

-- A change of the policy at its place.
unfoldable pub set_policy :
    ℕ → RetentionPolicyInfo → List RetentionPolicyInfo → List RetentionPolicyInfo
set_policy i p [] = []
set_policy zero p (x ∷ xs) = p ∷ xs
set_policy (suc i) p (x ∷ xs) = x ∷ set_policy i p xs

unfoldable pub set_database : ℕ → ℕ → RetentionPolicyInfo → List DatabaseInfo → List DatabaseInfo
set_database i j p [] = []
set_database zero j p (x ∷ xs) =
    record x { retention_policies = set_policy j p x.retention_policies } ∷ xs
set_database (suc i) j p (x ∷ xs) = x ∷ set_database i j p xs

-- The new group, with its shards in the order of their ids.
unfoldable pub new_group : Influx → RetentionPolicyInfo → ℕ → Data → ShardGroupInfo × ℕ
new_group lib rpi timestamp d =
    let nodes = length d.data_nodes in
    let replica_n = replica_count rpi.replica_n nodes in
    let start = lib.truncate timestamp rpi.shard_group_duration in
    let made = generated_shards (nodes / replica_n) d.max_shard_id in
    (
      record {
        id = add64 d.max_shard_group_id 1;
        start_time = start;
        end_time = start + rpi.shard_group_duration;
        deleted_at = 0;
        shards = assign replica_n (d.index % nodes) d.data_nodes made.0;
      },
      made.1,
    )

abbrev pub add_group : Influx → ℕ × ℕ × RetentionPolicyInfo → ShardGroupInfo × ℕ → Data → Data
add_group lib (i, j, rpi) (group, max_shard_id) d = record d {
  max_shard_group_id = group.id;
  max_shard_id = max_shard_id;
  databases =
      set_database i j
        (record rpi { shard_groups = lib.sort_groups (rpi.shard_groups ++ group ∷ []) })
        d.databases;
}

abbrev pub add_if_missing :
    Influx
    → ℕ
    → Option ShardGroupInfo
    → ℕ × ℕ × RetentionPolicyInfo
    → Data
    → Outcome (Unit {0}) × Data
add_if_missing lib timestamp (some g) at d = (ok tt, d)
add_if_missing lib timestamp none at d =
    (ok tt, add_group lib at (new_group lib at.2 timestamp d) d)

abbrev pub in_policy :
    Influx → ℕ → Outcome (Option (ℕ × ℕ × RetentionPolicyInfo)) → Data → Outcome (Unit {0}) × Data
in_policy lib timestamp (err e) d = (err e, d)
in_policy lib timestamp (ok none) d = (err policy_not_found, d)
in_policy lib timestamp (ok (some at)) d =
    add_if_missing lib timestamp (lib.by_timestamp at.2 timestamp) at d

unfoldable pub create_shard_group :
    Influx → Address → Address → ℕ → Data → Outcome (Unit {0}) × Data
create_shard_group lib database policy timestamp d =
    if length d.data_nodes == 0
    then (ok tt, d)
    else in_policy lib timestamp (lib.retention_policy d.databases database policy) d

-- ===== src/Meta/Tests.antt =====
-- The theorems on meta/data.go at concrete data: two meta nodes, of which one is a data node too.
pub mod Codec
use influxdb_cluster.Prelude.{
  true, false, ◌/◌, ◌≡◌, refl, none, [], ◌∷◌, All, length, map, some, arith,
}
use influxdb_cluster.Meta.Data.{
  same_address, meta_node, ShardGroupInfo, Address, RetentionPolicyInfo, Data, ok, create_meta_node,
  create_data_node, new_node, with_id,
}
use influxdb_cluster.Meta.Users.{user, find_user, create_user, Named, create_user-Named}
use influxdb_cluster.Meta.Owners.{FirstOf, shards_of, shard_location, shard_location-FirstOf}
use influxdb_cluster.Meta.Nodes.{
  IsConsistent, create_data_node-IsConsistent, create_meta_node-IsConsistent,
}
use influxdb_cluster.Meta.Release.{AllShards, Free, delete_meta_node, delete_meta_node-AllShards}
use influxdb_cluster.Meta.ShardIds.{After, generated_shards-fresh}
use influxdb_cluster.Meta.Groups.{Influx, generated_shards, replica_count, new_group}
use influxdb_cluster.Meta.RoundRobin.{NoneTwice, all_owners, new_group-owners}

abbrev pub one : Address
one = b'a' ∷ []

abbrev pub two : Address
two = b'b' ∷ []

abbrev pub cluster : Data
cluster = record {
  meta_nodes = new_node 1 one one ∷ new_node 2 two two ∷ [];
  data_nodes =
      new_node 1 one one
      ∷ new_node 3 (b'c' ∷ []) (b'c' ∷ [])
      ∷ new_node 4 (b'd' ∷ []) (b'd' ∷ [])
      ∷ [];
  max_node_id = 4;
  index = 2;
  max_shard_group_id = 0;
  max_shard_id = 0;
  databases = [];
  users = [];
}

pub cluster-IsConsistent : IsConsistent cluster
cluster-IsConsistent = record {
  small = omega arith;
  meta_range = ((omega arith, omega arith), ((omega arith, omega arith), tt));
  data_range =
      ((omega arith, omega arith), ((omega arith, omega arith), ((omega arith, omega arith), tt)));
  meta_agree = (
    (λ e. refl, (λ e. absurd (omega arith), tt)),
    ((λ e. absurd (omega arith), (λ e. refl, tt)), tt),
  );
  data_agree = (
    (λ e. refl, (λ e. absurd (omega arith), tt)),
    (
      (λ e. absurd (omega arith), (λ e. absurd (omega arith), tt)),
      ((λ e. absurd (omega arith), (λ e. absurd (omega arith), tt)), tt),
    ),
  );
  distinct = (
    (λ e. absurd (omega arith), (λ e. absurd (omega arith), tt)),
    ((λ e. absurd (omega arith), tt), (tt, tt)),
  );
}

-- The second meta node becomes a data node.
create_data_node-IsConsistent_example : IsConsistent (create_data_node two two cluster).1
create_data_node-IsConsistent_example =
    create_data_node-IsConsistent two two cluster cluster-IsConsistent (omega arith)

create_meta_node-IsConsistent_example : IsConsistent (create_meta_node two two cluster).1
create_meta_node-IsConsistent_example =
    create_meta_node-IsConsistent two two cluster cluster-IsConsistent (omega arith)

abbrev influx : Influx
influx = record {
  retention_policy = λ dbs db rp. ok none;
  by_timestamp = λ rpi t. none;
  sort_groups = λ gs. gs;
  truncate = λ t width. t;
}

abbrev policy : RetentionPolicyInfo
policy = record { name = one; replica_n = 2; shard_group_duration = 60; shard_groups = [] }

new_group-owners_example :
    All (λ s. length s.owners ≡ replica_count 2 3) (new_group influx policy 100 cluster).0.shards
    × NoneTwice (all_owners (new_group influx policy 100 cluster).0.shards)
    × (length (new_group influx policy 100 cluster).0.shards ≡ 3 / replica_count 2 3)
new_group-owners_example =
    new_group-owners influx policy 100 cluster cluster-IsConsistent.distinct (omega arith)

abbrev group : ShardGroupInfo
group = record {
  id = 1;
  start_time = 0;
  end_time = 60;
  deleted_at = 0;
  shards = record { id = 1; owners = 1 ∷ 2 ∷ [] } ∷ record { id = 2; owners = 3 ∷ [] } ∷ [];
}

abbrev with_group : Data
with_group = record cluster {
  databases =
      record { name = one; retention_policies = record policy { shard_groups = group ∷ [] } ∷ [] }
      ∷ [];
}

the_second : meta_node 2 with_group ≡ some (new_node 2 two two)
unfolding meta_node with_id
the_second = refl

delete_meta_node-AllShards_example :
    ((delete_meta_node 2 100 with_group).0 ≡ ok tt)
    × (meta_node 2 (delete_meta_node 2 100 with_group).1 ≡ none)
    × AllShards (λ s. Free 2 s.owners) (delete_meta_node 2 100 with_group).1.databases
delete_meta_node-AllShards_example =
    delete_meta_node-AllShards 2 100 with_group (new_node 2 two two) the_second owners_once
  where
    owners_once : AllShards (λ s. NoneTwice s.owners) with_group.databases
    owners_once = ((((((λ e. absurd (omega arith), tt), (tt, tt)), ((tt, tt), tt)), tt), tt), tt)

shard_location-FirstOf_example : FirstOf 2 (shards_of with_group) (shard_location 2 with_group)
shard_location-FirstOf_example = shard_location-FirstOf 2 with_group

-- ===== src/Meta/Data.antt =====
-- The type Data of meta/data.go: the nodes of the cluster, and the shard groups of the embedded
-- `meta.Data` of influxdb, of which the fields that the code uses are here. A time is in nanoseconds.
use influxdb_cluster.Prelude.{
  ℕ, Bool, true, false, ◌&&◌, Option, none, some, List, [], ◌∷◌, ◌++◌, length, ltb, ◌==◌,
  if◌then◌else◌,
}
use influxdb_cluster.Prelude.Bytes.{add64}

-- An address as its bytes.
abbrev pub Address : Type 0
Address = List ℕ

unfoldable pub same_address : Address → Address → Bool
same_address [] [] = true
same_address [] (b ∷ bs) = false
same_address (a ∷ as') [] = false
same_address (a ∷ as') (b ∷ bs) = a == b && same_address as' bs

pub record NodeInfo : Type 0 where
  pub id : ℕ
  pub host : Address
  pub tcp_host : Address
  pub pending_shard_owners : List ℕ

pub record ShardInfo : Type 0 where
  pub id : ℕ
  pub owners : List ℕ

-- `deleted_at` is 0 for the zero time.
pub record ShardGroupInfo : Type 0 where
  pub id : ℕ
  pub start_time : ℕ
  pub end_time : ℕ
  pub deleted_at : ℕ
  pub shards : List ShardInfo

pub record RetentionPolicyInfo : Type 0 where
  pub name : Address
  pub replica_n : ℕ
  pub shard_group_duration : ℕ
  pub shard_groups : List ShardGroupInfo

pub record DatabaseInfo : Type 0 where
  pub name : Address
  pub retention_policies : List RetentionPolicyInfo

pub record UserInfo : Type 0 where
  pub name : Address
  pub hash : Address
  pub admin : Bool

-- `index` to `databases` are fields of the embedded `meta.Data`.
pub record Data : Type 0 where
  pub meta_nodes : List NodeInfo
  pub data_nodes : List NodeInfo
  pub max_node_id : ℕ
  pub index : ℕ
  pub max_shard_group_id : ℕ
  pub max_shard_id : ℕ
  pub databases : List DatabaseInfo
  pub users : List UserInfo

pub data MetaError : Type 0 where
  node_exists node_not_found policy_not_found shard_not_found owner_not_found : MetaError
  username_required user_exists user_not_found policy_exists policy_conflict not_leader : MetaError
  other_error : ℕ → MetaError

pub data Outcome (A : Type 0) : Type 0 where
  ok : A → Outcome A
  err : MetaError → Outcome A

-- The first node with an address, and the one with an id.
unfoldable pub with_tcp_host : Address → List NodeInfo → Option NodeInfo
with_tcp_host h [] = none
with_tcp_host h (n ∷ ns) = if same_address n.tcp_host h then some n else with_tcp_host h ns

unfoldable pub with_id : ℕ → List NodeInfo → Option NodeInfo
with_id i [] = none
with_id i (n ∷ ns) = if n.id == i then some n else with_id i ns

unfoldable pub with_host : Address → List NodeInfo → Option NodeInfo
with_host h [] = none
with_host h (n ∷ ns) = if same_address n.host h then some n else with_host h ns

unfoldable pub meta_node : ℕ → Data → Option NodeInfo
meta_node id d = with_id id d.meta_nodes

unfoldable pub data_node : ℕ → Data → Option NodeInfo
data_node id d = with_id id d.data_nodes

-- `sort.Sort` by id. It leaves the order of nodes with one id open; here it is kept.
unfoldable pub insert_node : NodeInfo → List NodeInfo → List NodeInfo
insert_node n [] = n ∷ []
insert_node n (m ∷ ms) = if ltb n.id m.id then n ∷ m ∷ ms else m ∷ insert_node n ms

unfoldable pub sort_from : List NodeInfo → List NodeInfo → List NodeInfo
sort_from sorted [] = sorted
sort_from sorted (n ∷ ns) = sort_from (insert_node n sorted) ns

abbrev pub sort_nodes : List NodeInfo → List NodeInfo
sort_nodes ns = sort_from [] ns

abbrev pub new_node : ℕ → Address → Address → NodeInfo
new_node id host tcp_host = record {
  id = id;
  host = host;
  tcp_host = tcp_host;
  pending_shard_owners = [];
}

-- The id of a meta node with the address; without one it is 0.
unfoldable pub existing_id : Option NodeInfo → ℕ
existing_id none = 0
existing_id (some n) = n.id

-- The id of the new node, and the greatest id after that.
unfoldable pub choose_id : ℕ → ℕ → ℕ × ℕ
choose_id existing max_id =
    if existing == 0 then (add64 max_id 1, add64 max_id 1) else (existing, max_id)

abbrev pub id_for : Address → Data → ℕ × ℕ
id_for tcp_host d = choose_id (existing_id (with_tcp_host tcp_host d.meta_nodes)) d.max_node_id

abbrev pub add_meta : ℕ × ℕ → Address → Address → Data → Data
add_meta ids host tcp_host d = record d {
  max_node_id = ids.1;
  meta_nodes = sort_nodes (d.meta_nodes ++ new_node ids.0 host tcp_host ∷ []);
}

abbrev pub add_data : ℕ × ℕ → Address → Address → Data → Data
add_data ids host tcp_host d = record d {
  max_node_id = ids.1;
  data_nodes = sort_nodes (d.data_nodes ++ new_node ids.0 host tcp_host ∷ []);
}

-- A node that is found is an error, which changes nothing.
abbrev pub unless_found : Option NodeInfo → Data → Data → Outcome (Unit {0}) × Data
unless_found (some n) before after = (err node_exists, before)
unless_found none before after = (ok tt, after)

-- If a data node has the address, it is an error.
unfoldable pub create_meta_node : Address → Address → Data → Outcome (Unit {0}) × Data
create_meta_node host tcp_host d =
    unless_found (with_tcp_host tcp_host d.data_nodes) d
      (add_meta (id_for tcp_host d) host tcp_host d)

unfoldable pub create_data_node : Address → Address → Data → Outcome (Unit {0}) × Data
create_data_node host tcp_host d =
    unless_found (with_tcp_host tcp_host d.data_nodes) d
      (add_data (id_for tcp_host d) host tcp_host d)

unfoldable pub set_meta_node : ℕ → Address → Address → Data → Outcome (Unit {0}) × Data
set_meta_node id host tcp_host d =
    unless_found (with_host host d.meta_nodes) d
      (record d { meta_nodes = d.meta_nodes ++ new_node id host tcp_host ∷ [] })

unfoldable pub without_id : ℕ → List NodeInfo → List NodeInfo
without_id i [] = []
without_id i (n ∷ ns) = if n.id == i then without_id i ns else n ∷ without_id i ns

unfoldable pub delete_data_node : ℕ → Data → Outcome (Unit {0}) × Data
delete_data_node id d =
    let nodes = without_id id d.data_nodes in
    if length nodes == length d.data_nodes
    then (err node_not_found, d)
    else (ok tt, record d { data_nodes = nodes })

-- The loop changes a copy of the node.
unfoldable pub update_data_node : ℕ → Address → Address → Data → Outcome (Unit {0}) × Data
update_data_node id host tcp_host d = (ok tt, d)

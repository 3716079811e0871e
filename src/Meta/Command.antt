-- ===== src/Meta/Command.antt =====
-- What the state machine of meta/store_fsm.go works on: the metadata with the embedded `meta.Data`
-- of influxdb, the commands of the raft log, and the library's methods, which are parameters.
use influxdb_cluster.Prelude.{ℕ, Bool, Option, List}
use influxdb_cluster.Meta.Data.{Address, NodeInfo, DatabaseInfo, Data, Outcome}

abbrev pub Name : Type 0
Name = List ℕ

-- The embedded `meta.Data`; `rest` is what the repository's code never looks at.
pub record Inner (I : Type 0) : Type 0 where
  pub term : ℕ
  pub index : ℕ
  pub cluster_id : ℕ
  pub max_shard_group_id : ℕ
  pub max_shard_id : ℕ
  pub databases : List DatabaseInfo
  pub rest : I

-- The metadata of the store: the fields of `data`, and those of the embedded part that it has not.
pub record Metadata (I : Type 0) : Type 0 where
  pub data_part : Data
  pub term : ℕ
  pub cluster_id : ℕ
  pub rest : I

-- The fields that are given to `meta.NewRetentionPolicyInfo` and CreateRetentionPolicy.
pub record PolicySpec : Type 0 where
  pub name : Name
  pub replica_n : ℕ
  pub duration : ℕ
  pub shard_group_duration : ℕ

-- `none` is a nil pointer: the field stays.
pub record PolicyUpdate : Type 0 where
  pub name : Option Name
  pub duration : Option ℕ
  pub replica_n : Option ℕ

-- A command with the fields that its handler reads. `unknown` is a type that Apply has no case for,
-- such as UpdateDataNodeCommand.
pub data Command : Type 0 where
  remove_peer : (addr : Address) → Command
  create_database : (name : Name) (policy : List ℕ) → Command
  drop_database : (name : Name) → Command
  create_policy : Command
  drop_policy : (database name : Name) → Command
  set_default_policy : Command
  update_policy : (database name : Name) (update : PolicyUpdate) → Command
  create_group : (database policy : Name) (timestamp : ℕ) → Command
  delete_group : (database policy : Name) (id : ℕ) → Command
  create_query : (database name query : Name) → Command
  drop_query : (database name : Name) → Command
  create_subscription : (database policy name mode : Name) (destinations : List Name) → Command
  drop_subscription : (database policy name : Name) → Command
  create_user : (name hash : Name) (admin : Bool) → Command
  drop_user : (name : Name) → Command
  update_user : (name hash : Name) → Command
  set_privilege : (name database : Name) (privilege : ℕ) → Command
  set_admin : (name : Name) (admin : Bool) → Command
  set_data : (bytes : List ℕ) → Command
  create_meta_node : (http tcp : Address) (rand : ℕ) → Command
  delete_meta_node : (id : ℕ) → Command
  set_meta_node : (http tcp : Address) (rand : ℕ) → Command
  create_data_node : Command
  delete_data_node : (id : ℕ) → Command
  add_shard_owner : Command
  unknown : Command

-- The methods of `meta.Data`, and `policy_of`, the method UnmarshalBinary of a retention policy.
pub record Library (I : Type 0) : Type 0 where
  pub policy_of : List ℕ → Option PolicySpec
  pub new_policy : Name → PolicySpec
  pub add_database : Name → Inner I → Outcome (Inner I)
  pub remove_database : Name → Inner I → Outcome (Inner I)
  pub add_policy : Name → PolicySpec → Bool → Inner I → Outcome (Inner I)
  pub remove_policy : Name → Name → Inner I → Outcome (Inner I)
  pub change_policy : Name → Name → PolicyUpdate → Bool → Inner I → Outcome (Inner I)
  pub add_shard_group : Name → Name → ℕ → Inner I → Outcome (Inner I)
  pub remove_shard_group : Name → Name → ℕ → Inner I → Outcome (Inner I)
  pub add_query : Name → Name → Name → Inner I → Outcome (Inner I)
  pub remove_query : Name → Name → Inner I → Outcome (Inner I)
  pub add_subscription : Name → Name → Name → Name → List Name → Inner I → Outcome (Inner I)
  pub remove_subscription : Name → Name → Name → Inner I → Outcome (Inner I)
  pub add_user : Name → Name → Bool → Inner I → Outcome (Inner I)
  pub remove_user : Name → Inner I → Outcome (Inner I)
  pub change_user : Name → Name → Inner I → Outcome (Inner I)
  pub grant : Name → Name → ℕ → Inner I → Outcome (Inner I)
  pub grant_admin : Name → Bool → Inner I → Outcome (Inner I)

-- What raft tells the store. `leave` is the method of the store that takes a node out of the peers:
-- it gives an error or nothing.
pub record Raft : Type 0 where
  pub is_leader : Bool
  pub leave : NodeInfo → Outcome (Unit {0})

module _ {I : Type 0} where
  abbrev pub inner_of : Metadata I → Inner I
  inner_of m = record {
    term = m.term;
    index = m.data_part.index;
    cluster_id = m.cluster_id;
    max_shard_group_id = m.data_part.max_shard_group_id;
    max_shard_id = m.data_part.max_shard_id;
    databases = m.data_part.databases;
    rest = m.rest;
  }

  abbrev pub with_inner : Metadata I → Inner I → Metadata I
  with_inner m i = record {
    data_part = record m.data_part {
      index = i.index;
      max_shard_group_id = i.max_shard_group_id;
      max_shard_id = i.max_shard_id;
      databases = i.databases;
    };
    term = i.term;
    cluster_id = i.cluster_id;
    rest = i.rest;
  }

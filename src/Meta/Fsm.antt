-- ===== src/Meta/Fsm.antt =====
-- The state machine of meta/store_fsm.go: Apply.
pub mod Errors
pub mod Replicas
pub mod Ids
pub mod Tests
use influxdb_cluster.Prelude.{ℕ, suc, Option, none, some}
use influxdb_cluster.Meta.Data.{Outcome, ok}
use influxdb_cluster.Meta.Snapshot.{Proto, empty_metadata, unmarshal_binary}
use influxdb_cluster.Meta.Command.{Library, Raft, Command}
use influxdb_cluster.Meta.Command
use influxdb_cluster.Meta.Handlers.{
  Store, apply_create_database, apply_remove_peer, apply_create_meta_node, apply_set_meta_node,
  apply_delete_meta_node, apply_delete_data_node, apply_set_data, apply_drop_database,
  apply_drop_policy, apply_update_policy, apply_create_group, apply_delete_group,
  apply_create_query, apply_drop_query, apply_create_subscription, apply_drop_subscription,
  apply_create_user, apply_drop_user, apply_update_user, apply_set_privilege, apply_set_admin,
  apply_create_policy, apply_set_default_policy, apply_create_data_node,
}

-- What the handlers have from outside; `now` is the time.
pub record Outside (I : Type 0) : Type 0 where
  pub library : Library I
  pub proto : Proto I
  pub raft : Raft
  pub now : ℕ

module _ {I : Type 0} where
  -- The switch of Apply; `none` is a panic.
  unfoldable pub handle : Outside I → Command → Store I → Option (Outcome (Unit {0}) × Store I)
  handle o (Command.remove_peer addr) s = some (apply_remove_peer o.raft addr s)
  handle o (Command.create_database name policy) s =
      some (apply_create_database o.library name policy s)
  handle o (Command.drop_database name) s = some (apply_drop_database o.library name s)
  handle o Command.create_policy s = some (apply_create_policy s)
  handle o (Command.drop_policy db name) s = some (apply_drop_policy o.library db name s)
  handle o Command.set_default_policy s = some (apply_set_default_policy s)
  handle o (Command.update_policy db name u) s = some (apply_update_policy o.library db name u s)
  handle o (Command.create_group db rp t) s = some (apply_create_group o.library db rp t s)
  handle o (Command.delete_group db rp id) s = some (apply_delete_group o.library db rp id s)
  handle o (Command.create_query db name q) s = some (apply_create_query o.library db name q s)
  handle o (Command.drop_query db name) s = some (apply_drop_query o.library db name s)
  handle o (Command.create_subscription db rp name mode ds) s =
      some (apply_create_subscription o.library db rp name mode ds s)
  handle o (Command.drop_subscription db rp name) s =
      some (apply_drop_subscription o.library db rp name s)
  handle o (Command.create_user name hash admin) s =
      some (apply_create_user o.library name hash admin s)
  handle o (Command.drop_user name) s = some (apply_drop_user o.library name s)
  handle o (Command.update_user name hash) s = some (apply_update_user o.library name hash s)
  handle o (Command.set_privilege name db p) s = some (apply_set_privilege o.library name db p s)
  handle o (Command.set_admin name admin) s = some (apply_set_admin o.library name admin s)
  handle o (Command.set_data bytes) s =
      apply_set_data (unmarshal_binary o.proto bytes (empty_metadata o.proto)) s
  handle o (Command.create_meta_node http tcp rand) s =
      some (apply_create_meta_node http tcp rand s)
  handle o (Command.delete_meta_node id) s = some (apply_delete_meta_node o.raft o.now id s)
  handle o (Command.set_meta_node http tcp rand) s = some (apply_set_meta_node http tcp rand s)
  handle o Command.create_data_node s = some (apply_create_data_node s)
  handle o (Command.delete_data_node id) s = some (apply_delete_data_node id s)
  handle o Command.add_shard_owner s = some (ok tt, s)
  handle o Command.unknown s = none

  -- The term and the index of the log are set, and the change is signalled, also after an error.
  abbrev pub stamp : ℕ → ℕ → Store I → Store I
  stamp term index s = record s {
    metadata = record s.metadata {
      term = term;
      data_part = record s.metadata.data_part { index = index };
    };
    signals = suc s.signals;
  }

  abbrev pub stamped :
      ℕ → ℕ → Option (Outcome (Unit {0}) × Store I) → Option (Outcome (Unit {0}) × Store I)
  stamped term index none = none
  stamped term index (some r) = some (r.0, stamp term index r.1)

  unfoldable pub apply_command :
      Outside I → ℕ → ℕ → Command → Store I → Option (Outcome (Unit {0}) × Store I)
  apply_command o term index cmd s = stamped term index (handle o cmd s)

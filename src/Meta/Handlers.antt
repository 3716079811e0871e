-- ===== src/Meta/Handlers.antt =====
-- The handlers of the commands of meta/store_fsm.go. A handler runs under the lock of the store, so
-- that a command is one step.
use influxdb_cluster.Prelude.{
  ℕ, Bool, true, false, Option, none, some, List, [], ◌∷◌, ◌++◌, length, ltb, ◌==◌, if◌then◌else◌,
}
use influxdb_cluster.Meta.Data.{
  Address, NodeInfo, Data, Outcome, ok, err, node_not_found, policy_exists, policy_conflict,
  not_leader, meta_node, create_meta_node, set_meta_node, delete_data_node,
}
use influxdb_cluster.Meta.Users.{clone}
use influxdb_cluster.Meta.Release.{delete_meta_node}
use influxdb_cluster.Meta.Command.{
  Name, Inner, Metadata, PolicySpec, PolicyUpdate, Library, Raft, inner_of, with_inner,
}

-- `signals` counts how often the channel `dataChanged` was closed, and `removals` records the peers
-- that raft was asked to remove. `auto_create` is the setting RetentionAutoCreate.
pub record Store (I : Type 0) : Type 0 where
  pub metadata : Metadata I
  pub signals : ℕ
  pub removals : List Address
  pub auto_create : Bool

abbrev pub max_auto_created_replica_n : ℕ
max_auto_created_replica_n = 3

-- "default".
abbrev pub auto_create_policy_name : Name
auto_create_policy_name = b'd' ∷ b'e' ∷ b'f' ∷ b'a' ∷ b'u' ∷ b'l' ∷ b't' ∷ []

abbrev pub auto_create_policy_period : ℕ
auto_create_policy_period = 0

unfoldable pub auto_replica_n : ℕ → ℕ
auto_replica_n nodes =
    if ltb max_auto_created_replica_n nodes
    then max_auto_created_replica_n
    else if ltb nodes 1
    then 1
    else nodes

module _ {I : Type 0} where
  abbrev pub cloned : Metadata I → Metadata I
  cloned m = record m { data_part = clone m.data_part }

  -- A changed copy replaces the metadata, unless there is an error.
  abbrev pub replace : Outcome (Metadata I) → Store I → Outcome (Unit {0}) × Store I
  replace (err e) s = (err e, s)
  replace (ok other) s = (ok tt, record s { metadata = other })

  abbrev pub changed : Metadata I → Outcome (Inner I) → Outcome (Metadata I)
  changed m (err e) = err e
  changed m (ok i) = ok (with_inner m i)

  -- A handler that copies the metadata and calls a method of the embedded part.
  unfoldable pub update_inner :
      (Inner I → Outcome (Inner I)) → Store I → Outcome (Unit {0}) × Store I
  update_inner f s = let other = cloned s.metadata in replace (changed other (f (inner_of other))) s

  abbrev pub then_inner : Outcome (Inner I) → (Inner I → Outcome (Inner I)) → Outcome (Inner I)
  then_inner (err e) f = err e
  then_inner (ok i) f = f i

  abbrev pub in_conflict : Outcome (Inner I) → Outcome (Inner I)
  in_conflict (err policy_exists) = err policy_conflict
  in_conflict o = o

  -- The retention policy of a new database: the one of the command if it can be read, and one with
  -- a replica on each data node, but on three at most, if the store is to make one.
  unfoldable pub first_policy :
      Library I → Option PolicySpec → Name → Bool → ℕ → Inner I → Outcome (Inner I)
  first_policy lib (some spec) name auto_create nodes i =
      in_conflict (lib.add_policy name spec true i)
  first_policy lib none name auto_create nodes i =
      if auto_create
      then lib.add_policy name
          (record (lib.new_policy auto_create_policy_name) {
            replica_n = auto_replica_n nodes;
            duration = auto_create_policy_period;
          })
          true i
      else ok i

  unfoldable pub apply_create_database :
      Library I → Name → List ℕ → Store I → Outcome (Unit {0}) × Store I
  apply_create_database lib name policy s =
      update_inner
        (λ i. then_inner (lib.add_database name i) (
          first_policy lib (lib.policy_of policy) name s.auto_create
            (length s.metadata.data_part.data_nodes)))
        s

  -- An error of raft is only logged.
  unfoldable pub apply_remove_peer : Raft → Address → Store I → Outcome (Unit {0}) × Store I
  apply_remove_peer raft addr s =
      (ok tt, if raft.is_leader then record s { removals = s.removals ++ addr ∷ [] } else s)

  -- A handler that does nothing but copy the metadata.
  unfoldable pub apply_copy : Store I → Outcome (Unit {0}) × Store I
  apply_copy s = replace (ok (cloned s.metadata)) s

  abbrev pub with_cluster_id : ℕ → Metadata I → Metadata I
  with_cluster_id rand m = record m {
    cluster_id = if m.cluster_id == 0 then rand else m.cluster_id;
  }

  -- The error of CreateMetaNode is dropped.
  unfoldable pub apply_create_meta_node :
      Address → Address → ℕ → Store I → Outcome (Unit {0}) × Store I
  apply_create_meta_node http tcp rand s =
      let other = cloned s.metadata in
      replace
        (ok (
          with_cluster_id rand
            (record other { data_part = (create_meta_node http tcp other.data_part).1 })))
        s

  -- So is that of SetMetaNode. The id of the node is that of the cluster.
  unfoldable pub apply_set_meta_node :
      Address → Address → ℕ → Store I → Outcome (Unit {0}) × Store I
  apply_set_meta_node http tcp rand s =
      let other = with_cluster_id rand (cloned s.metadata) in
      replace
        (ok (record other {
          data_part = (set_meta_node other.cluster_id http tcp other.data_part).1;
        }))
        s

  abbrev pub with_data : Metadata I → Outcome (Unit {0}) × Data → Outcome (Metadata I)
  with_data m (err e, d) = err e
  with_data m (ok _, d) = ok (record m { data_part = d })

  -- The node leaves the peers first. That the store is not the leader is no error.
  unfoldable pub after_leave : Outcome (Unit {0}) → ℕ → ℕ → Metadata I → Outcome (Metadata I)
  after_leave (ok _) id now other = with_data other (delete_meta_node id now other.data_part)
  after_leave (err not_leader) id now other =
      with_data other (delete_meta_node id now other.data_part)
  after_leave (err e) id now other = err e

  unfoldable pub leave_and_delete :
      Raft → Option NodeInfo → ℕ → ℕ → Metadata I → Outcome (Metadata I)
  leave_and_delete raft none id now other = err node_not_found
  leave_and_delete raft (some n) id now other = after_leave (raft.leave n) id now other

  unfoldable pub apply_delete_meta_node : Raft → ℕ → ℕ → Store I → Outcome (Unit {0}) × Store I
  apply_delete_meta_node raft now id s =
      let other = cloned s.metadata in
      replace (leave_and_delete raft (meta_node id other.data_part) id now other) s

  unfoldable pub apply_delete_data_node : ℕ → Store I → Outcome (Unit {0}) × Store I
  apply_delete_data_node id s =
      let other = cloned s.metadata in
      replace (with_data other (delete_data_node id other.data_part)) s

  -- The error of UnmarshalBinary is dropped. With one the embedded part is a nil pointer, and Apply
  -- panics when it sets the term.
  unfoldable pub apply_set_data :
      Option (Metadata I) → Store I → Option (Outcome (Unit {0}) × Store I)
  apply_set_data none s = none
  apply_set_data (some m) s = some (ok tt, record s { metadata = m })

  -- The handlers that call one method of the library on a copy.
  abbrev pub apply_drop_database : Library I → Name → Store I → Outcome (Unit {0}) × Store I
  apply_drop_database lib name s = update_inner (lib.remove_database name) s

  abbrev pub apply_drop_policy : Library I → Name → Name → Store I → Outcome (Unit {0}) × Store I
  apply_drop_policy lib db name s = update_inner (lib.remove_policy db name) s

  abbrev pub apply_update_policy :
      Library I → Name → Name → PolicyUpdate → Store I → Outcome (Unit {0}) × Store I
  apply_update_policy lib db name u s = update_inner (lib.change_policy db name u false) s

  abbrev pub apply_create_group :
      Library I → Name → Name → ℕ → Store I → Outcome (Unit {0}) × Store I
  apply_create_group lib db rp time s = update_inner (lib.add_shard_group db rp time) s

  abbrev pub apply_delete_group :
      Library I → Name → Name → ℕ → Store I → Outcome (Unit {0}) × Store I
  apply_delete_group lib db rp id s = update_inner (lib.remove_shard_group db rp id) s

  abbrev pub apply_create_query :
      Library I → Name → Name → Name → Store I → Outcome (Unit {0}) × Store I
  apply_create_query lib db name q s = update_inner (lib.add_query db name q) s

  abbrev pub apply_drop_query : Library I → Name → Name → Store I → Outcome (Unit {0}) × Store I
  apply_drop_query lib db name s = update_inner (lib.remove_query db name) s

  abbrev pub apply_create_subscription :
      Library I → Name → Name → Name → Name → List Name → Store I → Outcome (Unit {0}) × Store I
  apply_create_subscription lib db rp name mode ds s =
      update_inner (lib.add_subscription db rp name mode ds) s

  abbrev pub apply_drop_subscription :
      Library I → Name → Name → Name → Store I → Outcome (Unit {0}) × Store I
  apply_drop_subscription lib db rp name s = update_inner (lib.remove_subscription db rp name) s

  abbrev pub apply_create_user :
      Library I → Name → Name → Bool → Store I → Outcome (Unit {0}) × Store I
  apply_create_user lib name hash admin s = update_inner (lib.add_user name hash admin) s

  abbrev pub apply_drop_user : Library I → Name → Store I → Outcome (Unit {0}) × Store I
  apply_drop_user lib name s = update_inner (lib.remove_user name) s

  abbrev pub apply_update_user : Library I → Name → Name → Store I → Outcome (Unit {0}) × Store I
  apply_update_user lib name hash s = update_inner (lib.change_user name hash) s

  abbrev pub apply_set_privilege :
      Library I → Name → Name → ℕ → Store I → Outcome (Unit {0}) × Store I
  apply_set_privilege lib name db p s = update_inner (lib.grant name db p) s

  abbrev pub apply_set_admin : Library I → Name → Bool → Store I → Outcome (Unit {0}) × Store I
  apply_set_admin lib name admin s = update_inner (lib.grant_admin name admin) s

  -- The bodies of these are comments but for the copy.
  abbrev pub apply_create_policy : Store I → Outcome (Unit {0}) × Store I
  apply_create_policy s = apply_copy s

  abbrev pub apply_set_default_policy : Store I → Outcome (Unit {0}) × Store I
  apply_set_default_policy s = apply_copy s

  abbrev pub apply_create_data_node : Store I → Outcome (Unit {0}) × Store I
  apply_create_data_node s = apply_copy s

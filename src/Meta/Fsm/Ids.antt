-- ===== src/Meta/Fsm/Ids.antt =====
-- The ids of nodes under the commands of meta/store_fsm.go.
use mathlib.Core.Path.{subst}
use influxdb_cluster.Prelude.{
  ℕ, suc, ◌<◌, ◌≡◌, inl, inr, false, Bool-cases, Option, none, some, List, All, length, map, ◌==◌,
}
use influxdb_cluster.Prelude.Bytes.{word}
use influxdb_cluster.Meta.Data.{
  Address, NodeInfo, Data, DatabaseInfo, UserInfo, Outcome, ok, err, not_leader, meta_node,
  delete_data_node, without_id,
}
use influxdb_cluster.Meta.Users.{blank, clone}
use influxdb_cluster.Meta.Sorted.{All-map}
use influxdb_cluster.Meta.Nodes.{Agrees, InRange, IsConsistent, create_meta_node-IsConsistent}
use influxdb_cluster.Meta.Delete.{All-without_id, delete_data_node-IsConsistent_any}
use influxdb_cluster.Meta.Release.{delete_meta_node, release_database}
use influxdb_cluster.Meta.Command.{Name, Inner, Metadata, Library, Raft, Command, inner_of}
use influxdb_cluster.Meta.Handlers.{
  Store, cloned, replace, changed, update_inner, then_inner, first_policy, apply_create_database,
  apply_remove_peer, apply_copy, apply_create_meta_node, with_data, after_leave, leave_and_delete,
  apply_delete_meta_node, apply_delete_data_node,
}
use influxdb_cluster.Meta.Fsm.{Outside, handle, stamp, stamped, apply_command}

-- The other fields do not matter for the ids.
other_fields :
    (d : Data) (index groups shards : ℕ) (dbs : List DatabaseInfo) (us : List UserInfo)
    → IsConsistent d
    → IsConsistent (record d {
      index = index;
      max_shard_group_id = groups;
      max_shard_id = shards;
      databases = dbs;
      users = us;
    })
other_fields d index groups shards dbs us c = record {
  small = c.small;
  meta_range = c.meta_range;
  data_range = c.data_range;
  meta_agree = c.meta_agree;
  data_agree = c.data_agree;
  distinct = c.distinct;
}

clone-IsConsistent : (d : Data) → IsConsistent d → IsConsistent (clone d)
unfolding clone
clone-IsConsistent d c =
    other_fields d d.index d.max_shard_group_id d.max_shard_id d.databases (map blank d.users) c

without_meta-IsConsistent :
    (d : Data) (id : ℕ) (dbs : List DatabaseInfo)
    → IsConsistent d
    → IsConsistent (record d { meta_nodes = without_id id d.meta_nodes; databases = dbs })
without_meta-IsConsistent d id dbs c = record {
  small = c.small;
  meta_range = All-without_id (InRange d.max_node_id) id d.meta_nodes c.meta_range;
  data_range = c.data_range;
  meta_agree =
      All-without_id (λ x. All (Agrees x) (without_id id d.meta_nodes)) id d.meta_nodes
        (fewer d.meta_nodes c.meta_agree);
  data_agree = fewer d.data_nodes c.data_agree;
  distinct = c.distinct;
}
  where
    fewer :
        (ns : List NodeInfo)
        → All (λ x. All (Agrees x) d.meta_nodes) ns
        → All (λ x. All (Agrees x) (without_id id d.meta_nodes)) ns
    fewer ns all =
        All-map (λ x. All (Agrees x) d.meta_nodes)
          (λ x. All (Agrees x) (without_id id d.meta_nodes)) ns
          (λ x a. All-without_id (Agrees x) id d.meta_nodes a) all

delete_meta_node-IsConsistent :
    (id now : ℕ) (d : Data) → IsConsistent d → IsConsistent (delete_meta_node id now d).1
unfolding delete_meta_node
delete_meta_node-IsConsistent id now d c =
    elim (Bool-cases (length (without_id id d.meta_nodes) == length d.meta_nodes)) [
      | inl same ↦ rw same c
      | inr other ↦
          rw other (without_meta-IsConsistent d id (map (release_database id now) d.databases) c)
    ]

-- The commands that take ids from CreateMetaNode alone.
abbrev pub KeepsIds : Command → Type 0
KeepsIds (Command.set_data bytes) = ⊥
KeepsIds (Command.set_meta_node http tcp rand) = ⊥
KeepsIds _ = Unit {0}

module _ {I : Type 0} where
  -- The ids of a store are consistent.
  abbrev pub IdsOk : Store I → Type 0
  IdsOk s = IsConsistent s.metadata.data_part

  abbrev OutcomeOk : Outcome (Metadata I) → Type 0
  OutcomeOk (err e) = Unit {0}
  OutcomeOk (ok m) = IsConsistent m.data_part

  abbrev AfterOk : Option (Outcome (Unit {0}) × Store I) → Type 0
  AfterOk none = Unit {0}
  AfterOk (some r) = IdsOk r.1

  replace-IdsOk :
      (x : Outcome (Metadata I)) (s : Store I) → OutcomeOk x → IdsOk s → IdsOk (replace x s).1
  replace-IdsOk (err e) s h c = c
  replace-IdsOk (ok m) s h c = h

  changed-OutcomeOk :
      (m : Metadata I) (x : Outcome (Inner I)) → IsConsistent m.data_part → OutcomeOk (changed m x)
  changed-OutcomeOk m (err e) c = tt
  changed-OutcomeOk m (ok i) c =
      other_fields m.data_part i.index i.max_shard_group_id i.max_shard_id i.databases
        m.data_part.users c

  update_inner-IdsOk :
      (f : Inner I → Outcome (Inner I)) (s : Store I) → IdsOk s → IdsOk (update_inner f s).1
  unfolding update_inner
  update_inner-IdsOk f s c =
      replace-IdsOk (changed (cloned s.metadata) (f (inner_of (cloned s.metadata)))) s
        (changed-OutcomeOk (cloned s.metadata) (f (inner_of (cloned s.metadata)))
          (clone-IsConsistent s.metadata.data_part c))
        c

  create_database-IdsOk :
      (lib : Library I) (name : Name) (policy : List ℕ) (s : Store I)
      → IdsOk s
      → IdsOk (apply_create_database lib name policy s).1
  unfolding apply_create_database
  create_database-IdsOk lib name policy s c =
      update_inner-IdsOk
        (λ i. then_inner (lib.add_database name i) (
          first_policy lib (lib.policy_of policy) name s.auto_create
            (length s.metadata.data_part.data_nodes)))
        s c

  remove_peer-IdsOk :
      (raft : Raft) (addr : Address) (s : Store I)
      → IdsOk s
      → IdsOk (apply_remove_peer raft addr s).1
  unfolding apply_remove_peer
  remove_peer-IdsOk raft addr s c = elim (Bool-cases raft.is_leader) [
    | inl b ↦ rw b c
    | inr b ↦ rw b c
  ]

  copied-IdsOk : (s : Store I) → IdsOk s → IdsOk (apply_copy s).1
  unfolding apply_copy
  copied-IdsOk s c = clone-IsConsistent s.metadata.data_part c

  create_meta_node-IdsOk :
      (http tcp : Address) (rand : ℕ) (s : Store I)
      → IdsOk s
      → suc s.metadata.data_part.max_node_id < word
      → IdsOk (apply_create_meta_node http tcp rand s).1
  unfolding apply_create_meta_node clone
  create_meta_node-IdsOk http tcp rand s c room =
      create_meta_node-IsConsistent http tcp (clone s.metadata.data_part)
        (clone-IsConsistent s.metadata.data_part c) room

  with_data-OutcomeOk :
      (m : Metadata I) (r : Outcome (Unit {0}) × Data)
      → IsConsistent r.1
      → OutcomeOk (with_data m r)
  with_data-OutcomeOk m (err e, d) c = tt
  with_data-OutcomeOk m (ok _, d) c = c

  after_leave-OutcomeOk :
      (x : Outcome (Unit {0})) (id now : ℕ) (m : Metadata I)
      → IsConsistent m.data_part
      → OutcomeOk (after_leave x id now m)
  unfolding after_leave
  after_leave-OutcomeOk (ok _) id now m c =
      with_data-OutcomeOk m (delete_meta_node id now m.data_part)
        (delete_meta_node-IsConsistent id now m.data_part c)
  after_leave-OutcomeOk (err not_leader) id now m c =
      with_data-OutcomeOk m (delete_meta_node id now m.data_part)
        (delete_meta_node-IsConsistent id now m.data_part c)
  after_leave-OutcomeOk (err _) id now m c = tt

  leave-OutcomeOk :
      (raft : Raft) (n : Option NodeInfo) (id now : ℕ) (m : Metadata I)
      → IsConsistent m.data_part
      → OutcomeOk (leave_and_delete raft n id now m)
  unfolding leave_and_delete
  leave-OutcomeOk raft none id now m c = tt
  leave-OutcomeOk raft (some n) id now m c = after_leave-OutcomeOk (raft.leave n) id now m c

  delete_meta_node-IdsOk :
      (raft : Raft) (now id : ℕ) (s : Store I)
      → IdsOk s
      → IdsOk (apply_delete_meta_node raft now id s).1
  unfolding apply_delete_meta_node
  delete_meta_node-IdsOk raft now id s c =
      replace-IdsOk
        (leave_and_delete raft (meta_node id (clone s.metadata.data_part)) id now
          (cloned s.metadata))
        s
        (leave-OutcomeOk raft (meta_node id (clone s.metadata.data_part)) id now (cloned s.metadata)
          (clone-IsConsistent s.metadata.data_part c))
        c

  delete_data_node-IdsOk : (id : ℕ) (s : Store I) → IdsOk s → IdsOk (apply_delete_data_node id s).1
  unfolding apply_delete_data_node
  delete_data_node-IdsOk id s c =
      replace-IdsOk
        (with_data (cloned s.metadata) (delete_data_node id (clone s.metadata.data_part))) s
        (with_data-OutcomeOk (cloned s.metadata) (delete_data_node id (clone s.metadata.data_part))
          (delete_data_node-IsConsistent_any id (clone s.metadata.data_part)
            (clone-IsConsistent s.metadata.data_part c)))
        c

  handle-IdsOk :
      (o : Outside I) (cmd : Command) (s : Store I)
      → KeepsIds cmd
      → IdsOk s
      → suc s.metadata.data_part.max_node_id < word
      → AfterOk (handle o cmd s)
  unfolding handle
  handle-IdsOk o (Command.remove_peer addr) s k c room = remove_peer-IdsOk o.raft addr s c
  handle-IdsOk o (Command.create_database name policy) s k c room =
      create_database-IdsOk o.library name policy s c
  handle-IdsOk o (Command.drop_database name) s k c room =
      update_inner-IdsOk (o.library.remove_database name) s c
  handle-IdsOk o Command.create_policy s k c room = copied-IdsOk s c
  handle-IdsOk o (Command.drop_policy db name) s k c room =
      update_inner-IdsOk (o.library.remove_policy db name) s c
  handle-IdsOk o Command.set_default_policy s k c room = copied-IdsOk s c
  handle-IdsOk o (Command.update_policy db name u) s k c room =
      update_inner-IdsOk (o.library.change_policy db name u false) s c
  handle-IdsOk o (Command.create_group db rp time) s k c room =
      update_inner-IdsOk (o.library.add_shard_group db rp time) s c
  handle-IdsOk o (Command.delete_group db rp id) s k c room =
      update_inner-IdsOk (o.library.remove_shard_group db rp id) s c
  handle-IdsOk o (Command.create_query db name q) s k c room =
      update_inner-IdsOk (o.library.add_query db name q) s c
  handle-IdsOk o (Command.drop_query db name) s k c room =
      update_inner-IdsOk (o.library.remove_query db name) s c
  handle-IdsOk o (Command.create_subscription db rp name mode ds) s k c room =
      update_inner-IdsOk (o.library.add_subscription db rp name mode ds) s c
  handle-IdsOk o (Command.drop_subscription db rp name) s k c room =
      update_inner-IdsOk (o.library.remove_subscription db rp name) s c
  handle-IdsOk o (Command.create_user name hash admin) s k c room =
      update_inner-IdsOk (o.library.add_user name hash admin) s c
  handle-IdsOk o (Command.drop_user name) s k c room =
      update_inner-IdsOk (o.library.remove_user name) s c
  handle-IdsOk o (Command.update_user name hash) s k c room =
      update_inner-IdsOk (o.library.change_user name hash) s c
  handle-IdsOk o (Command.set_privilege name db p) s k c room =
      update_inner-IdsOk (o.library.grant name db p) s c
  handle-IdsOk o (Command.set_admin name admin) s k c room =
      update_inner-IdsOk (o.library.grant_admin name admin) s c
  handle-IdsOk o (Command.set_data bytes) s k c room = absurd k
  handle-IdsOk o (Command.create_meta_node http tcp rand) s k c room =
      create_meta_node-IdsOk http tcp rand s c room
  handle-IdsOk o (Command.delete_meta_node id) s k c room =
      delete_meta_node-IdsOk o.raft o.now id s c
  handle-IdsOk o (Command.set_meta_node http tcp rand) s k c room = absurd k
  handle-IdsOk o Command.create_data_node s k c room = copied-IdsOk s c
  handle-IdsOk o (Command.delete_data_node id) s k c room = delete_data_node-IdsOk id s c
  handle-IdsOk o Command.add_shard_owner s k c room = c
  handle-IdsOk o Command.unknown s k c room = tt

  stamped-IdsOk :
      (term index : ℕ) (x : Option (Outcome (Unit {0}) × Store I))
      (r : Outcome (Unit {0}) × Store I)
      → AfterOk x
      → stamped term index x ≡ some r
      → IdsOk r.1
  stamped-IdsOk term index none r h e = cc e
  stamped-IdsOk term index (some x) r h e = subst IdsOk (path e) (
      other_fields x.1.metadata.data_part index x.1.metadata.data_part.max_shard_group_id
        x.1.metadata.data_part.max_shard_id x.1.metadata.data_part.databases
        x.1.metadata.data_part.users h)
    where
      path : some (x.0, stamp term index x.1) ≡ some r → stamp term index x.1 ≡ r.1
      path q = cc q

  -- A command that Apply runs keeps the ids of the nodes consistent, also after an error, unless it
  -- is SetData, which replaces everything, or SetMetaNode, or the ids are used up.
  pub apply_command-IdsOk :
      (o : Outside I) (term index : ℕ) (cmd : Command) (s : Store I)
      (r : Outcome (Unit {0}) × Store I)
      → KeepsIds cmd
      → IdsOk s
      → suc s.metadata.data_part.max_node_id < word
      → apply_command o term index cmd s ≡ some r
      → IdsOk r.1
  unfolding apply_command
  apply_command-IdsOk o term index cmd s r k c room e =
      stamped-IdsOk term index (handle o cmd s) r (handle-IdsOk o cmd s k c room) e

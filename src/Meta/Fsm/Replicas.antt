-- ===== src/Meta/Fsm/Replicas.antt =====
-- Replicas that apply the same raft log by meta/store_fsm.go.
use mathlib.Core.Path.{subst}
use influxdb_cluster.Prelude.{
  ℕ, ◌≡◌, refl, sym, ap, ◌∙◌, ◌⊎◌, inl, inr, Bool, false, Bool-cases, Option, none, some, List, [],
  ◌∷◌, length,
}
use influxdb_cluster.Meta.Data.{
  Address, NodeInfo, Outcome, ok, err, not_leader, meta_node, create_meta_node, set_meta_node,
  delete_data_node,
}
use influxdb_cluster.Meta.Users.{clone}
use influxdb_cluster.Meta.Snapshot.{empty_metadata, unmarshal_binary}
use influxdb_cluster.Meta.Release.{delete_meta_node}
use influxdb_cluster.Meta.Command.{Name, Library, Inner, Metadata, Command, Raft, inner_of}
use influxdb_cluster.Meta.Handlers.{
  Store, cloned, replace, changed, update_inner, then_inner, first_policy, apply_create_database,
  apply_remove_peer, apply_copy, apply_create_meta_node, apply_set_meta_node, with_cluster_id,
  with_data, after_leave, leave_and_delete, apply_delete_meta_node, apply_delete_data_node,
  apply_set_data,
}
use influxdb_cluster.Meta.Fsm.{Outside, handle, stamped, apply_command}

-- An entry of the log.
pub record Entry : Type 0 where
  pub term : ℕ
  pub index : ℕ
  pub command : Command

-- Leaving the peers works, or the replica is not the leader.
abbrev pub Leaves : Outcome (Unit {0}) → Type 0
Leaves o = (o ≡ ok tt) ⊎ (o ≡ err not_leader)

-- Both panic, or both return and agree.
abbrev pub Both : {A : Type 0} → (A → A → Type 0) → Option A → Option A → Type 0
Both R none none = Unit {0}
Both R (some a) (some b) = R a b
Both R none (some b) = ⊥
Both R (some a) none = ⊥

module _ {I : Type 0} where
  abbrev go_on :
      Option (Outcome (Unit {0}) × Store I) → (Store I → Option (Store I)) → Option (Store I)
  go_on none k = none
  go_on (some r) k = k r.1

  -- A replica applies a log; `none` is a panic. What it has from outside may differ at each index.
  unfoldable pub run_log : (ℕ → Outside I) → List Entry → Store I → Option (Store I)
  run_log os [] s = some s
  run_log os (e ∷ es) s =
      go_on (apply_command (os e.index) e.term e.index e.command s) (run_log os es)

  -- Two stores with one metadata and one setting; what was signalled may differ.
  abbrev pub SameMetadata : Store I → Store I → Type 0
  SameMetadata s t = (s.metadata ≡ t.metadata) × (s.auto_create ≡ t.auto_create)

  abbrev pub SameResult : Outcome (Unit {0}) × Store I → Outcome (Unit {0}) × Store I → Type 0
  SameResult r r' = (r.0 ≡ r'.0) × SameMetadata r.1 r'.1

  replace-same :
      (x : Outcome (Metadata I)) (s t : Store I)
      → SameMetadata s t
      → SameResult (replace x s) (replace x t)
  replace-same (err e) s t h = (refl, h)
  replace-same (ok m) s t h = (refl, (refl, h.1))

  -- A handler that works on a copy of the metadata.
  copy_agrees :
      (f : Metadata I → Bool → Outcome (Metadata I)) (s t : Store I)
      → SameMetadata s t
      → SameResult (replace (f s.metadata s.auto_create) s) (replace (f t.metadata t.auto_create) t)
  copy_agrees f s t h =
      subst (λ x. SameResult (replace (f s.metadata s.auto_create) s) (replace x t))
        (λ i. f (h.0 i) (h.1 i)) (replace-same (f s.metadata s.auto_create) s t h)

  update_inner-agrees :
      (f : Inner I → Outcome (Inner I)) (s t : Store I)
      → SameMetadata s t
      → SameResult (update_inner f s) (update_inner f t)
  unfolding update_inner
  update_inner-agrees f s t h =
      copy_agrees (λ m b. changed (cloned m) (f (inner_of (cloned m)))) s t h

  after_leave_lem :
      (x : Outcome (Unit {0})) (id now : ℕ) (m : Metadata I)
      → Leaves x
      → after_leave x id now m ≡ with_data m (delete_meta_node id now m.data_part)
  unfolding after_leave
  after_leave_lem (ok _) id now m h = refl
  after_leave_lem (err not_leader) id now m h = refl
  after_leave_lem (err e) id now m (inl h) = cc h
  after_leave_lem (err e) id now m (inr h) = cc h

  leave_agrees :
      (raft raft' : Raft) (n : Option NodeInfo) (id now : ℕ) (m : Metadata I)
      → ((x : NodeInfo) → Leaves (raft.leave x))
      → ((x : NodeInfo) → Leaves (raft'.leave x))
      → leave_and_delete raft n id now m ≡ leave_and_delete raft' n id now m
  unfolding leave_and_delete
  leave_agrees raft raft' none id now m h k = refl
  leave_agrees raft raft' (some n) id now m h k =
      after_leave_lem (raft.leave n) id now m (h n)
      ∙ sym (after_leave_lem (raft'.leave n) id now m (k n))

  set_data-agrees :
      (o : Option (Metadata I)) (s t : Store I)
      → SameMetadata s t
      → Both SameResult (apply_set_data o s) (apply_set_data o t)
  unfolding apply_set_data
  set_data-agrees none s t h = tt
  set_data-agrees (some m) s t h = (refl, (refl, h.1))

  remove_peer-agrees :
      (raft raft' : Raft) (addr : Address) (s t : Store I)
      → SameMetadata s t
      → SameResult (apply_remove_peer raft addr s) (apply_remove_peer raft' addr t)
  unfolding apply_remove_peer
  remove_peer-agrees raft raft' addr s t e = elim (Bool-cases raft.is_leader) [
    | inl b ↦ elim (Bool-cases raft'.is_leader) [
      | inl b' ↦ rw b (rw b' (refl, e))
      | inr b' ↦ rw b (rw b' (refl, e))
    ]
    | inr b ↦ elim (Bool-cases raft'.is_leader) [
      | inl b' ↦ rw b (rw b' (refl, e))
      | inr b' ↦ rw b (rw b' (refl, e))
    ]
  ]

  create_database-agrees :
      (lib : Library I) (name : Name) (policy : List ℕ) (s t : Store I)
      → SameMetadata s t
      → SameResult
          (apply_create_database lib name policy s)
          (apply_create_database lib name policy t)
  unfolding apply_create_database update_inner
  create_database-agrees lib name policy s t e =
      copy_agrees
        (λ m b. changed (cloned m) (
          then_inner (lib.add_database name (inner_of (cloned m)))
            (first_policy lib (lib.policy_of policy) name b (length m.data_part.data_nodes))))
        s t e

  copied-agrees : (s t : Store I) → SameMetadata s t → SameResult (apply_copy s) (apply_copy t)
  unfolding apply_copy
  copied-agrees s t e = copy_agrees (λ m b. ok (cloned m)) s t e

  create_meta_node-agrees :
      (http tcp : Address) (rand : ℕ) (s t : Store I)
      → SameMetadata s t
      → SameResult (apply_create_meta_node http tcp rand s) (apply_create_meta_node http tcp rand t)
  unfolding apply_create_meta_node
  create_meta_node-agrees http tcp rand s t e =
      copy_agrees
        (λ m b. ok (
          with_cluster_id rand
            (record (cloned m) { data_part = (create_meta_node http tcp (clone m.data_part)).1 })))
        s t e

  set_meta_node-agrees :
      (http tcp : Address) (rand : ℕ) (s t : Store I)
      → SameMetadata s t
      → SameResult (apply_set_meta_node http tcp rand s) (apply_set_meta_node http tcp rand t)
  unfolding apply_set_meta_node
  set_meta_node-agrees http tcp rand s t e =
      copy_agrees
        (λ m b.
          let other = with_cluster_id rand (cloned m) in
          ok (record other {
            data_part = (set_meta_node other.cluster_id http tcp other.data_part).1;
          }))
        s t e

  delete_data_node-agrees :
      (id : ℕ) (s t : Store I)
      → SameMetadata s t
      → SameResult (apply_delete_data_node id s) (apply_delete_data_node id t)
  unfolding apply_delete_data_node
  delete_data_node-agrees id s t e =
      copy_agrees (λ m b. with_data (cloned m) (delete_data_node id (clone m.data_part))) s t e

  delete_meta_node-agrees :
      (raft raft' : Raft) (now id : ℕ) (s t : Store I)
      → ((x : NodeInfo) → Leaves (raft.leave x))
      → ((x : NodeInfo) → Leaves (raft'.leave x))
      → SameMetadata s t
      → SameResult (apply_delete_meta_node raft now id s) (apply_delete_meta_node raft' now id t)
  unfolding apply_delete_meta_node
  delete_meta_node-agrees raft raft' now id s t h k e =
      subst
        (λ x.
          SameResult
            (replace
              (leave_and_delete raft (meta_node id (clone s.metadata.data_part)) id now
                (cloned s.metadata))
              s)
            (replace x t))
        (leave_agrees raft raft' (meta_node id (clone t.metadata.data_part)) id now
          (cloned t.metadata) h k)
        (copy_agrees
          (λ m b. leave_and_delete raft (meta_node id (clone m.data_part)) id now (cloned m)) s t e)

  module _ (o : Outside I) (raft : Raft) (h : (x : NodeInfo) → Leaves (o.raft.leave x))
      (k : (x : NodeInfo) → Leaves (raft.leave x)) where
    abbrev there : Outside I
    there = record o { raft = raft }

    handle-agrees :
        (cmd : Command) (s t : Store I)
        → SameMetadata s t
        → Both SameResult (handle o cmd s) (handle there cmd t)
    unfolding handle
    handle-agrees (Command.remove_peer addr) s t e = remove_peer-agrees o.raft raft addr s t e
    handle-agrees (Command.create_database name policy) s t e =
        create_database-agrees o.library name policy s t e
    handle-agrees (Command.drop_database name) s t e =
        update_inner-agrees (o.library.remove_database name) s t e
    handle-agrees Command.create_policy s t e = copied-agrees s t e
    handle-agrees (Command.drop_policy db name) s t e =
        update_inner-agrees (o.library.remove_policy db name) s t e
    handle-agrees Command.set_default_policy s t e = copied-agrees s t e
    handle-agrees (Command.update_policy db name u) s t e =
        update_inner-agrees (o.library.change_policy db name u false) s t e
    handle-agrees (Command.create_group db rp time) s t e =
        update_inner-agrees (o.library.add_shard_group db rp time) s t e
    handle-agrees (Command.delete_group db rp id) s t e =
        update_inner-agrees (o.library.remove_shard_group db rp id) s t e
    handle-agrees (Command.create_query db name q) s t e =
        update_inner-agrees (o.library.add_query db name q) s t e
    handle-agrees (Command.drop_query db name) s t e =
        update_inner-agrees (o.library.remove_query db name) s t e
    handle-agrees (Command.create_subscription db rp name mode ds) s t e =
        update_inner-agrees (o.library.add_subscription db rp name mode ds) s t e
    handle-agrees (Command.drop_subscription db rp name) s t e =
        update_inner-agrees (o.library.remove_subscription db rp name) s t e
    handle-agrees (Command.create_user name hash admin) s t e =
        update_inner-agrees (o.library.add_user name hash admin) s t e
    handle-agrees (Command.drop_user name) s t e =
        update_inner-agrees (o.library.remove_user name) s t e
    handle-agrees (Command.update_user name hash) s t e =
        update_inner-agrees (o.library.change_user name hash) s t e
    handle-agrees (Command.set_privilege name db p) s t e =
        update_inner-agrees (o.library.grant name db p) s t e
    handle-agrees (Command.set_admin name admin) s t e =
        update_inner-agrees (o.library.grant_admin name admin) s t e
    handle-agrees (Command.set_data bytes) s t e =
        set_data-agrees (unmarshal_binary o.proto bytes (empty_metadata o.proto)) s t e
    handle-agrees (Command.create_meta_node http tcp rand) s t e =
        create_meta_node-agrees http tcp rand s t e
    handle-agrees (Command.delete_meta_node id) s t e =
        delete_meta_node-agrees o.raft raft o.now id s t h k e
    handle-agrees (Command.set_meta_node http tcp rand) s t e =
        set_meta_node-agrees http tcp rand s t e
    handle-agrees Command.create_data_node s t e = copied-agrees s t e
    handle-agrees (Command.delete_data_node id) s t e = delete_data_node-agrees id s t e
    handle-agrees Command.add_shard_owner s t e = (refl, e)
    handle-agrees Command.unknown s t e = tt

  abbrev at_entry : ℕ → ℕ → Metadata I → Metadata I
  at_entry term index m = record m { term = term; data_part = record m.data_part { index = index } }

  stamped-agrees :
      (term index : ℕ) (r r' : Option (Outcome (Unit {0}) × Store I))
      → Both SameResult r r'
      → Both SameResult (stamped term index r) (stamped term index r')
  stamped-agrees term index none none h = tt
  stamped-agrees term index (some r) (some r') h = (h.0, (ap (at_entry term index) h.1.0, h.1.1))
  stamped-agrees term index none (some r') h = absurd h
  stamped-agrees term index (some r) none h = absurd h

  go_on-agrees :
      (k k' : Store I → Option (Store I)) (r r' : Option (Outcome (Unit {0}) × Store I))
      → ((s t : Store I) → SameMetadata s t → Both SameMetadata (k s) (k' t))
      → Both SameResult r r'
      → Both SameMetadata (go_on r k) (go_on r' k')
  go_on-agrees k k' none none step h = tt
  go_on-agrees k k' (some r) (some r') step h = step r.1 r'.1 h.1
  go_on-agrees k k' none (some r') step h = absurd h
  go_on-agrees k k' (some r) none step h = absurd h

  command_agrees :
      (o : Outside I) (raft : Raft)
      → ((x : NodeInfo) → Leaves (o.raft.leave x))
      → ((x : NodeInfo) → Leaves (raft.leave x))
      → (term index : ℕ) (cmd : Command) (s t : Store I) → SameMetadata s t
      → Both SameResult
          (apply_command o term index cmd s)
          (apply_command (record o { raft = raft }) term index cmd t)
  unfolding apply_command
  command_agrees o raft h k term index cmd s t e =
      stamped-agrees term index (handle o cmd s) (handle (there o raft h k) cmd t)
        (handle-agrees o raft h k cmd s t e)

  -- What a replica finds at each index of the log: raft is its own, the rest is that of all.
  abbrev pub with_raft : (ℕ → Outside I) → (ℕ → Raft) → ℕ → Outside I
  with_raft os rafts index = record (os index) { raft = rafts index }

  -- Replicas that start with one metadata and one setting and apply one log both panic, or end with
  -- one metadata, whichever of them is the leader, if at each index the library and the clock answer
  -- alike and no leader fails to leave the peers.
  pub run_log-agrees :
      (os : ℕ → Outside I) (rafts : ℕ → Raft) (es : List Entry) (s t : Store I)
      → ((index : ℕ) (x : NodeInfo) → Leaves ((os index).raft.leave x))
      → ((index : ℕ) (x : NodeInfo) → Leaves ((rafts index).leave x))
      → SameMetadata s t
      → Both SameMetadata (run_log os es s) (run_log (with_raft os rafts) es t)
  unfolding run_log
  run_log-agrees os rafts [] s t h k e = e
  run_log-agrees os rafts (entry ∷ es) s t h k e =
      go_on-agrees (run_log os es) (run_log (with_raft os rafts) es)
        (apply_command (os entry.index) entry.term entry.index entry.command s)
        (apply_command (with_raft os rafts entry.index) entry.term entry.index entry.command t)
        (λ s' t'. run_log-agrees os rafts es s' t' h k)
        (command_agrees (os entry.index) (rafts entry.index) (h entry.index) (k entry.index)
          entry.term entry.index entry.command s t e)

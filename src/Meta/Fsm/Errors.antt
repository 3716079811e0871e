-- ===== src/Meta/Fsm/Errors.antt =====
-- Commands of meta/store_fsm.go that fail.
use influxdb_cluster.Prelude.{ℕ, ◌≡◌, refl, sym, ap, ◌∙◌, Option, none, some, List}
use influxdb_cluster.Meta.Data.{Address, Outcome, ok, err, MetaError}
use influxdb_cluster.Meta.Snapshot.{empty_metadata, unmarshal_binary}
use influxdb_cluster.Meta.Command.{Inner, Metadata, Command, Raft}
use influxdb_cluster.Meta.Handlers.{
  Store, cloned, replace, update_inner, apply_create_database, apply_remove_peer, apply_copy,
  apply_create_meta_node, apply_set_meta_node, apply_delete_meta_node, apply_delete_data_node,
  apply_set_data,
}
use influxdb_cluster.Meta.Fsm.{Outside, handle, stamp, stamped, apply_command}

module _ {I : Type 0} where
  -- An outcome that leaves the store alone if it is an error.
  record IsAtomic (s : Store I) (r : Outcome (Unit {0}) × Store I) : Type 0 where
    at : (e : MetaError) → r.0 ≡ err e → r.1 ≡ s

  abbrev IfReturns : Store I → Option (Outcome (Unit {0}) × Store I) → Type 0
  IfReturns s none = Unit {0}
  IfReturns s (some r) = IsAtomic s r

  replace-IsAtomic : (x : Outcome (Metadata I)) (s : Store I) → IsAtomic s (replace x s)
  replace-IsAtomic (err e) s = record { at = λ e' h. refl }
  replace-IsAtomic (ok m) s = record { at = λ e h. cc h }

  done-IsAtomic : (s t : Store I) → IsAtomic s (ok tt, t)
  done-IsAtomic s t = record { at = λ e h. cc h }

  update_inner-IsAtomic :
      (f : Inner I → Outcome (Inner I)) (s : Store I) → IsAtomic s (update_inner f s)
  unfolding update_inner
  update_inner-IsAtomic f s = replace-IsAtomic _ s

  set_data-IfReturns : (o : Option (Metadata I)) (s : Store I) → IfReturns s (apply_set_data o s)
  unfolding apply_set_data
  set_data-IfReturns none s = tt
  set_data-IfReturns (some m) s = done-IsAtomic s (record s { metadata = m })

  apply_copy-IsAtomic : (s : Store I) → IsAtomic s (apply_copy s)
  unfolding apply_copy
  apply_copy-IsAtomic s = replace-IsAtomic (ok (cloned s.metadata)) s

  remove_peer-IsAtomic :
      (raft : Raft) (addr : List ℕ) (s : Store I) → IsAtomic s (apply_remove_peer raft addr s)
  unfolding apply_remove_peer
  remove_peer-IsAtomic raft addr s = record { at = λ e h. cc h }

  create_meta_node-IsAtomic :
      (http tcp : Address) (rand : ℕ) (s : Store I)
      → IsAtomic s (apply_create_meta_node http tcp rand s)
  unfolding apply_create_meta_node
  create_meta_node-IsAtomic http tcp rand s = record { at = λ e h. cc h }

  set_meta_node-IsAtomic :
      (http tcp : Address) (rand : ℕ) (s : Store I)
      → IsAtomic s (apply_set_meta_node http tcp rand s)
  unfolding apply_set_meta_node
  set_meta_node-IsAtomic http tcp rand s = record { at = λ e h. cc h }

  handle-IfReturns : (o : Outside I) (cmd : Command) (s : Store I) → IfReturns s (handle o cmd s)
  unfolding handle apply_create_database apply_delete_meta_node apply_delete_data_node
  handle-IfReturns o (Command.remove_peer addr) s = remove_peer-IsAtomic o.raft addr s
  handle-IfReturns o (Command.create_database name policy) s = update_inner-IsAtomic _ s
  handle-IfReturns o (Command.drop_database name) s = update_inner-IsAtomic _ s
  handle-IfReturns o Command.create_policy s = apply_copy-IsAtomic s
  handle-IfReturns o (Command.drop_policy db name) s = update_inner-IsAtomic _ s
  handle-IfReturns o Command.set_default_policy s = apply_copy-IsAtomic s
  handle-IfReturns o (Command.update_policy db name u) s = update_inner-IsAtomic _ s
  handle-IfReturns o (Command.create_group db rp t) s = update_inner-IsAtomic _ s
  handle-IfReturns o (Command.delete_group db rp id) s = update_inner-IsAtomic _ s
  handle-IfReturns o (Command.create_query db name q) s = update_inner-IsAtomic _ s
  handle-IfReturns o (Command.drop_query db name) s = update_inner-IsAtomic _ s
  handle-IfReturns o (Command.create_subscription db rp name mode ds) s = update_inner-IsAtomic _ s
  handle-IfReturns o (Command.drop_subscription db rp name) s = update_inner-IsAtomic _ s
  handle-IfReturns o (Command.create_user name hash admin) s = update_inner-IsAtomic _ s
  handle-IfReturns o (Command.drop_user name) s = update_inner-IsAtomic _ s
  handle-IfReturns o (Command.update_user name hash) s = update_inner-IsAtomic _ s
  handle-IfReturns o (Command.set_privilege name db p) s = update_inner-IsAtomic _ s
  handle-IfReturns o (Command.set_admin name admin) s = update_inner-IsAtomic _ s
  handle-IfReturns o (Command.set_data bytes) s =
      set_data-IfReturns (unmarshal_binary o.proto bytes (empty_metadata o.proto)) s
  handle-IfReturns o (Command.create_meta_node http tcp rand) s =
      create_meta_node-IsAtomic http tcp rand s
  handle-IfReturns o (Command.delete_meta_node id) s = replace-IsAtomic _ s
  handle-IfReturns o (Command.set_meta_node http tcp rand) s =
      set_meta_node-IsAtomic http tcp rand s
  handle-IfReturns o Command.create_data_node s = apply_copy-IsAtomic s
  handle-IfReturns o (Command.delete_data_node id) s = replace-IsAtomic _ s
  handle-IfReturns o Command.add_shard_owner s = done-IsAtomic s s
  handle-IfReturns o Command.unknown s = tt

  stamped-error :
      (term index : ℕ) (s t : Store I) (e : MetaError) (r : Option (Outcome (Unit {0}) × Store I))
      → IfReturns s r
      → stamped term index r ≡ some (err e, t)
      → t ≡ stamp term index s
  stamped-error term index s t e none h q = cc q
  stamped-error term index s t e (some (o, u)) h q =
      let p : (o ≡ err e) × (stamp term index u ≡ t) = (cc q, cc q) in
      sym p.1 ∙ ap (stamp term index) (h.at e p.0)

  -- A command that gives an error changes the term and the index and signals a change, as every
  -- command does, and leaves all else in the store as it was.
  pub apply_command-error :
      (o : Outside I) (term index : ℕ) (cmd : Command) (s t : Store I) (e : MetaError)
      → apply_command o term index cmd s ≡ some (err e, t)
      → t ≡ stamp term index s
  unfolding apply_command
  apply_command-error o term index cmd s t e h =
      stamped-error term index s t e (handle o cmd s) (handle-IfReturns o cmd s) h

-- ===== src/Meta/Fsm/Tests.antt =====
-- The theorems on meta/store_fsm.go at a concrete store.
use mathlib.Core.List.{Memᴰ}
use influxdb_cluster.Prelude.{
  ℕ, ◌≡◌, ◌≢◌, refl, inl, inr, true, false, none, some, List, [], ◌∷◌, ◌++◌, arith,
}
use influxdb_cluster.Meta.Data.{
  Outcome, ok, err, user_not_found, not_leader, new_node, create_meta_node, with_tcp_host,
  same_address,
}
use influxdb_cluster.Meta.Snapshot.{marshal_node, marshal, persist, restore, marshal_binary}
use influxdb_cluster.Meta.Restore.{kept, restore-persist, restored-id_one}
use influxdb_cluster.Meta.Command.{Inner, Library, Raft, Command}
use influxdb_cluster.Meta.Handlers.{Store, update_inner, apply_create_meta_node}
use influxdb_cluster.Meta.Fsm.{Outside, handle, stamp, apply_command}
use influxdb_cluster.Meta.Fsm.Errors.{apply_command-error}
use influxdb_cluster.Meta.Fsm.Ids.{IdsOk, apply_command-IdsOk}
use influxdb_cluster.Meta.Fsm.Replicas.{
  Entry, run_log, SameMetadata, Both, with_raft, run_log-agrees,
}
use influxdb_cluster.Meta.Tests.{cluster, cluster-IsConsistent, one, two}
use influxdb_cluster.Meta.Tests.Codec.{put_cluster, proto, proto-IsFaithful}

abbrev pub same_inner : Inner (Unit {0}) → Outcome (Inner (Unit {0}))
same_inner i = ok i

abbrev pub library : Library (Unit {0})
library = record {
  policy_of = λ bytes. none;
  new_policy =
      λ name. record { name = name; replica_n = 1; duration = 0; shard_group_duration = 60 };
  add_database = λ name i. ok (record i {
    databases = i.databases ++ record { name = name; retention_policies = [] } ∷ [];
  });
  remove_database = λ name. same_inner;
  add_policy = λ name spec default. same_inner;
  remove_policy = λ db name. same_inner;
  change_policy = λ db name u default. same_inner;
  add_shard_group = λ db name t. same_inner;
  remove_shard_group = λ db name id. same_inner;
  add_query = λ db name q. same_inner;
  remove_query = λ db name. same_inner;
  add_subscription = λ db rp name mode ds. same_inner;
  remove_subscription = λ db rp name. same_inner;
  add_user = λ name hash admin. same_inner;
  remove_user = λ name i. err user_not_found;
  change_user = λ name hash. same_inner;
  grant = λ name db p. same_inner;
  grant_admin = λ name admin. same_inner;
}

abbrev pub leader : Raft
leader = record { is_leader = true; leave = λ n. ok tt }

abbrev pub follower : Raft
follower = record { is_leader = false; leave = λ n. err not_leader }

abbrev pub outside : Outside (Unit {0})
outside = record { library = library; proto = proto; raft = leader; now = 100 }

abbrev pub store : Store (Unit {0})
store = record {
  metadata = record { data_part = cluster; term = 1; cluster_id = 7; rest = tt };
  signals = 0;
  removals = [];
  auto_create = true;
}

abbrev after_error : Store (Unit {0})
after_error = record {
  metadata = record {
    data_part = record cluster { index = 3 };
    term = 2;
    cluster_id = 7;
    rest = tt;
  };
  signals = 1;
  removals = [];
  auto_create = true;
}

-- A user that the library does not know.
no_such_user :
    apply_command outside 2 3 (Command.drop_user one) store ≡ some (err user_not_found, after_error)
unfolding apply_command handle update_inner
no_such_user = refl

apply_command-error_example : after_error ≡ stamp 2 3 store
apply_command-error_example =
    apply_command-error outside 2 3 (Command.drop_user one) store after_error user_not_found
      no_such_user

abbrev created : Outcome (Unit {0}) × Store (Unit {0})
created = (ok tt, stamp 2 3 (apply_create_meta_node two two 9 store).1)

it_is_created : apply_command outside 2 3 (Command.create_meta_node two two 9) store ≡ some created
unfolding apply_command handle apply_create_meta_node
it_is_created = refl

apply_command-IdsOk_example : IdsOk created.1
apply_command-IdsOk_example =
    apply_command-IdsOk outside 2 3 (Command.create_meta_node two two 9) store created tt
      cluster-IsConsistent (omega arith) it_is_created

abbrev log : List Entry
log =
    record { term = 2; index = 3; command = Command.create_meta_node (b'e' ∷ []) (b'e' ∷ []) 9 }
    ∷ record { term = 2; index = 4; command = Command.delete_meta_node 2 }
    ∷ record { term = 2; index = 5; command = Command.remove_peer one }
    ∷ record { term = 2; index = 6; command = Command.create_database one [] }
    ∷ []

run_log-agrees_example :
    Both SameMetadata
      (run_log (λ i. outside) log store)
      (run_log (with_raft (λ i. outside) (λ i. follower)) log store)
run_log-agrees_example =
    run_log-agrees (λ i. outside) (λ i. follower) log store store (λ i x. inl refl)
      (λ i x. inr refl) (refl, refl)

abbrev snapshot : List ℕ
snapshot = put_cluster (marshal proto store.metadata)

written : persist proto store.metadata ≡ some snapshot
unfolding persist marshal_binary
written = refl

restore-persist_example : restore proto snapshot ≡ some (kept store.metadata)
restore-persist_example = restore-persist proto store.metadata snapshot proto-IsFaithful written

none_has : with_tcp_host (b'e' ∷ []) cluster.meta_nodes ≡ none
unfolding with_tcp_host same_address
none_has = refl

restored-id_one_example :
    let nodes = (create_meta_node one (b'e' ∷ []) (kept store.metadata).data_part).1.meta_nodes in
    Memᴰ (marshal_node (new_node 1 one one)) nodes
    × Memᴰ (new_node 1 one (b'e' ∷ [])) nodes
    × ((marshal_node (new_node 1 one one)).id ≡ 1)
    × (one ≢ b'e' ∷ [])
restored-id_one_example =
    restored-id_one proto store.metadata (kept store.metadata) snapshot one (b'e' ∷ [])
      (new_node 1 one one) proto-IsFaithful written
      (restore-persist proto store.metadata snapshot proto-IsFaithful written) (Memᴰ.head refl) refl
      none_has

-- ===== src/Meta/Store/Tests.antt =====
-- The theorems on meta/store.go at a concrete member.
use influxdb_cluster.Prelude.{◌≡◌, refl, true, none, [], ◌∷◌, arith}
use influxdb_cluster.Meta.Data.{Address, same_address, with_tcp_host}
use influxdb_cluster.Meta.Store.{Member, Backend, join}
use influxdb_cluster.Meta.Store.Join.{Joined, join-Joined}
use influxdb_cluster.Meta.Fsm.Tests.{outside, store}
use influxdb_cluster.Meta.Tests.{cluster, cluster-IsConsistent, one, two}

abbrev backend : Backend
backend = record {
  peers_error = none;
  add_error = λ a. none;
  remove_error = λ a. none;
  commit_error = λ cmd. none;
  is_leader = true;
  leader = one;
}

abbrev member : Member (Unit {0})
member = record {
  store = store;
  address = one;
  opened = true;
  peers = one ∷ two ∷ [];
  term = 2;
  index = 3;
}

abbrev fifth : Address
fifth = b'e' ∷ []

no_data_node : with_tcp_host fifth cluster.data_nodes ≡ none
unfolding with_tcp_host same_address
no_data_node = refl

join-Joined_example : Joined backend fifth fifth (join backend outside fifth fifth 9 member)
join-Joined_example =
    join-Joined backend outside fifth fifth 9 member
      (record { peers = refl; adds = λ a. refl; commits = λ cmd. refl }) refl cluster-IsConsistent
      (omega arith) no_data_node

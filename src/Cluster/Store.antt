-- ===== src/Cluster/Store.antt =====
-- What the package cluster uses of the tsdb store of a node, and its errors.
use influxdb_cluster.Prelude.{ℕ, List}

pub data WriteError : Type 0 where
  shard_not_found database_not_found policy_not_found write_failed bad_request : WriteError
  cannot_read not_across_cluster : WriteError
  other_error : ℕ → WriteError
  -- The errors of processWriteShardRequest, with the shard.
  create_shard_error write_shard_error : ℕ → WriteError → WriteError

pub data Reply (A : Type 0) : Type 0 where
  ok : A → Reply A
  err : WriteError → Reply A

abbrev pub Name : Type 0
Name = List ℕ

-- The methods of `tsdb.Store`, on a state of the store.
pub record TsdbStore (S Point : Type 0) : Type 0 where
  pub write_to_shard : ℕ → List Point → S → Reply (Unit {0}) × S
  pub create_shard : Name → Name → ℕ → S → Reply (Unit {0}) × S

-- A node: the state of its store, and the writes that the store took, in order.
pub record Node (S Point : Type 0) : Type 0 where
  pub store : S
  pub taken : List (ℕ × List Point)

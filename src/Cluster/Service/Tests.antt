-- ===== src/Cluster/Service/Tests.antt =====
-- The theorems on cluster/service.go at concrete data: a request is the shard and its points, as bytes.
use influxdb_cluster.Prelude.{ℕ, ◌≡◌, ◌≢◌, refl, Option, none, some, List, [], ◌∷◌, arith}
use influxdb_cluster.Tlv.{Writer}
use influxdb_cluster.Cluster.Store.{Reply, ok, err, bad_request, Node}
use influxdb_cluster.Cluster.PointsWriter.Tests.{tsdb, node}
use influxdb_cluster.Cluster.Service.{
  MessageTypes, WriteShardRequest, Rpc, stuck, handle_conn, process_write_shard_request,
}
use influxdb_cluster.Cluster.Service.Serves.{
  TookOrDropped, requests, serve_writes, process_write_shard_request-TookOrDropped,
  handle_conn-serve_writes,
}
use influxdb_cluster.Cluster.Service.Ends.{handle_conn-ends}

abbrev types : MessageTypes
types = record {
  write_shard_request = 1;
  write_shard_response = 2;
  execute_statement_request = 3;
  create_iterator_request = 5;
  create_iterator_response = 6;
  field_dimensions_request = 7;
  field_dimensions_response = 8;
}

abbrev request : ℕ → List ℕ → WriteShardRequest ℕ
request id points = record {
  shard_id = id;
  database = b'a' ∷ [];
  policy = b'd' ∷ [];
  points = some points;
}

abbrev unmarshal : List ℕ → Option (WriteShardRequest ℕ)
unmarshal [] = none
unmarshal (id ∷ points) = some (request id points)

abbrev code : Reply (Unit {0}) → Option (List ℕ)
code (ok _) = some (0 ∷ [])
code (err e) = some (1 ∷ [])

abbrev rpc : Rpc (List ℕ) ℕ ℕ ℕ ℕ ℕ ℕ
rpc = record {
  unmarshal_write = unmarshal;
  marshal_response = code;
  execute_request = λ buf s. (err bad_request, s);
  unmarshal_iterator = λ buf. some (record { shard_ids = []; rest = 0 });
  marshal_iterator = λ u. some [];
  unmarshal_dimensions = λ buf. some (record { shard_ids = []; rest = 0 });
  marshal_dimensions = λ r. some [];
  creator = λ id s. some id;
  create_iterator = λ cs opt. ok 0;
  field_dimensions = λ cs sources. ok 0;
  encode_iterator = λ i w. w;
}

abbrev output : Writer
output = record { written = []; room = 100 }

abbrev two_writes : List (List ℕ)
two_writes = (10 ∷ 12 ∷ 15 ∷ []) ∷ (20 ∷ 21 ∷ []) ∷ []

handle_conn-serve_writes_example :
    handle_conn types tsdb rpc 3
      (record { input = requests types tsdb rpc two_writes; output = output })
      node
    ≡ serve_writes types tsdb rpc two_writes output node
handle_conn-serve_writes_example =
    handle_conn-serve_writes types tsdb rpc 3 two_writes output node (omega arith)
      (omega arith, (omega arith, tt))

handle_conn-ends_example :
    handle_conn types tsdb rpc 5 (record { input = 9 ∷ 1 ∷ 7 ∷ []; output = output }) node ≢ stuck
handle_conn-ends_example =
    handle_conn-ends types tsdb rpc 5 (record { input = 9 ∷ 1 ∷ 7 ∷ []; output = output }) node
      (omega arith)

process_write_shard_request-TookOrDropped_example :
    (r : Reply (Unit {0}) × Node (List ℕ) ℕ) × (process_write_shard_request types tsdb rpc
        (10 ∷ 12 ∷ [])
        node
      ≡ some r)
    × TookOrDropped tsdb node (request 10 (12 ∷ [])) (12 ∷ []) r
process_write_shard_request-TookOrDropped_example =
    process_write_shard_request-TookOrDropped types tsdb rpc (10 ∷ 12 ∷ []) (request 10 (12 ∷ []))
      (12 ∷ []) node refl refl

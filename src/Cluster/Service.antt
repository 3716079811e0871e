-- ===== src/Cluster/Service.antt =====
-- The service of cluster/service.go: a node takes requests from a connection, one after the other, and
-- answers them. The file does not compile as it stands: writeShardResponse lacks its parameters, which
-- are those of its calls, and the numbers of the messages and processExecuteStatementRequest, which
-- are not in the repository, are parameters here.
pub mod Serves
pub mod Ends
mod Tests
use influxdb_cluster.Prelude.{
  ℕ, zero, suc, Bool, true, false, ◌||◌, Option, none, some, List, [], ◌∷◌, ◌++◌, ◌==◌,
  if◌then◌else◌,
}
use influxdb_cluster.Cluster.Store.{
  Reply, ok, err, WriteError, shard_not_found, create_shard_error, write_shard_error, bad_request,
  not_across_cluster, Name, TsdbStore, Node,
}
use influxdb_cluster.Cluster.PointsWriter.{write_once}
use influxdb_cluster.Tlv.{
  Outcome, done, failed, panic, Writer, read_type_byte, read_lv, write_tlv, decode_lv, encode_tlv,
}

-- The numbers of the messages.
pub record MessageTypes : Type 0 where
  pub write_shard_request : ℕ
  pub write_shard_response : ℕ
  pub execute_statement_request : ℕ
  pub create_iterator_request : ℕ
  pub create_iterator_response : ℕ
  pub field_dimensions_request : ℕ
  pub field_dimensions_response : ℕ

-- A WriteShardRequest; `points` is `none` if one of them cannot be parsed, with which Points panics.
pub record WriteShardRequest (Point : Type 0) : Type 0 where
  pub shard_id : ℕ
  pub database : Name
  pub policy : Name
  pub points : Option (List Point)

-- The statements that executeStatement knows, with what it takes from them.
pub data Statement : Type 0 where
  drop_database : (name : Name) → Statement
  drop_measurement : (name : Name) → Statement
  drop_series : (sources condition : Name) → Statement
  drop_policy : (name : Name) → Statement
  other_statement : Statement

-- The methods of the store that delete.
pub record Deletes (S : Type 0) : Type 0 where
  pub delete_database : Name → S → Reply (Unit {0}) × S
  pub delete_measurement : Name → Name → S → Reply (Unit {0}) × S
  pub delete_series : Name → Name → Name → S → Reply (Unit {0}) × S
  pub delete_policy : Name → Name → S → Reply (Unit {0}) × S

-- A request for an iterator or for field dimensions: its shards, and the rest of it.
pub record ShardsRequest (Rest : Type 0) : Type 0 where
  pub shard_ids : List ℕ
  pub rest : Rest

-- The binary forms of the messages, and influxql: `creator` is ShardIteratorCreator, which may give
-- nil, `create_iterator` and `field_dimensions` are the methods of a list of creators, and
-- `encode_iterator` writes an iterator to the connection.
pub record Rpc (S Point Creator Iterator Opt Sources Fields : Type 0) : Type 0 where
  pub unmarshal_write : List ℕ → Option (WriteShardRequest Point)
  pub marshal_response : Reply (Unit {0}) → Option (List ℕ)
  pub execute_request : List ℕ → S → Reply (Unit {0}) × S
  pub unmarshal_iterator : List ℕ → Option (ShardsRequest Opt)
  pub marshal_iterator : Unit {0} → Option (List ℕ)
  pub unmarshal_dimensions : List ℕ → Option (ShardsRequest Sources)
  pub marshal_dimensions : Reply (Option Fields) → Option (List ℕ)
  pub creator : ℕ → S → Option Creator
  pub create_iterator : List Creator → Opt → Reply Iterator
  pub field_dimensions : List Creator → Sources → Reply Fields
  pub encode_iterator : Iterator → Writer → Writer

-- What the other end of a connection has sent, and what is written to it.
pub record Conn : Type 0 where
  pub input : List ℕ
  pub output : Writer

-- `stuck` is no end of the code: a loop of the model ran out of fuel.
pub data Run (A : Type 0) : Type 0 where
  returns : A → Run A
  panics stuck : Run A

abbrev pub is_empty : Name → Bool
is_empty [] = true
is_empty (c ∷ cs) = false

module _ {S : Type 0} (deletes : Deletes S) where
  unfoldable pub execute_statement : Statement → Name → S → Reply (Unit {0}) × S
  execute_statement (Statement.drop_database name) database s = deletes.delete_database name s
  execute_statement (Statement.drop_measurement name) database s =
      deletes.delete_measurement database name s
  execute_statement (Statement.drop_series sources condition) database s =
      deletes.delete_series database sources condition s
  execute_statement (Statement.drop_policy name) database s = deletes.delete_policy database name s
  execute_statement Statement.other_statement database s = (err not_across_cluster, s)

module _ {S Point : Type 0} (tsdb : TsdbStore S Point) where
  -- An error with the shard, as Errorf writes it.
  abbrev pub wrap_write : ℕ → Reply (Unit {0}) × Node S Point → Reply (Unit {0}) × Node S Point
  wrap_write id (ok _, n) = (ok tt, n)
  wrap_write id (err e, n) = (err (write_shard_error id e), n)

  abbrev pub write_created :
      Reply (Unit {0}) × S → ℕ → List Point → Node S Point → Reply (Unit {0}) × Node S Point
  write_created (err e, s) id points n = (err (create_shard_error id e), record n { store = s })
  write_created (ok _, s) id points n =
      wrap_write id (write_once tsdb id points (record n { store = s }))

  -- A shard that is missing is made, if the request has its database and its policy; if not, the
  -- write is dropped, which is no error.
  unfoldable pub write_missing :
      Reply (Unit {0})
      → Name
      → Name
      → ℕ
      → List Point
      → Node S Point
      → Reply (Unit {0}) × Node S Point
  write_missing (err shard_not_found) database policy id points n =
      if is_empty database || is_empty policy
      then (ok tt, n)
      else write_created (tsdb.create_shard database policy id n.store) id points n
  write_missing (err e) database policy id points n = (err (write_shard_error id e), n)
  write_missing (ok _) database policy id points n = (ok tt, n)

  abbrev pub write_request :
      WriteShardRequest Point
      → Option (List Point)
      → Node S Point
      → Option (Reply (Unit {0}) × Node S Point)
  write_request req none n = none
  write_request req (some points) n =
      let first = write_once tsdb req.shard_id points n in
      some (write_missing first.0 req.database req.policy req.shard_id points first.1)

  abbrev pub process_decoded :
      Option (WriteShardRequest Point) → Node S Point → Option (Reply (Unit {0}) × Node S Point)
  process_decoded none n = some (err bad_request, n)
  process_decoded (some req) n = write_request req req.points n

module _ {S Point Creator Iterator Opt Sources Fields : Type 0} (types : MessageTypes)
    (tsdb : TsdbStore S Point) (rpc : Rpc S Point Creator Iterator Opt Sources Fields) where
  -- `none` is a panic.
  unfoldable pub process_write_shard_request :
      List ℕ → Node S Point → Option (Reply (Unit {0}) × Node S Point)
  process_write_shard_request buf n = process_decoded tsdb (rpc.unmarshal_write buf) n

  -- The errors of the response are only logged.
  abbrev pub respond : Option (List ℕ) → Writer → Writer
  respond none w = w
  respond (some buf) w = (write_tlv types.write_shard_response buf w).1

  unfoldable pub write_shard_response : Reply (Unit {0}) → Writer → Writer
  write_shard_response e w = respond (rpc.marshal_response e) w

  -- The creators of the shards, or `none` if one is nil.
  unfoldable pub creators : List ℕ → S → Option (List Creator)
  creators [] s = some []
  creators (id ∷ ids) s = elim (rpc.creator id s) [
    | none ↦ none
    | some c ↦ elim (creators ids s) [ none ↦ none | some cs ↦ some (c ∷ cs) ]
  ]

  -- The iterator that is sent after the response, if there is one.
  abbrev pub send_iterator : Option Iterator → Writer → Writer
  send_iterator itr w =
      let sent = encode_tlv rpc.marshal_iterator types.create_iterator_response tt w in
      elim sent.0 [
        | failed e ↦ sent.1
        | done _ ↦ elim itr [ none ↦ sent.1 | some i ↦ rpc.encode_iterator i sent.1 ]
      ]

  abbrev pub made_iterator : Reply Iterator → Writer → Option Writer
  made_iterator (err e) w = none
  made_iterator (ok itr) w = some (send_iterator (some itr) w)

  abbrev pub iterator_of : Option (List Creator) → Opt → Writer → Option Writer
  iterator_of none opt w = some (send_iterator none w)
  iterator_of (some ics) opt w = made_iterator (rpc.create_iterator ics opt) w

  abbrev pub iterator_for : Outcome (ShardsRequest Opt) → S → Writer → Option Writer
  iterator_for (failed e) s w = none
  iterator_for (done req) s w = iterator_of (creators req.shard_ids s) req.rest w

  -- After an error Close is called on the iterator, which is nil: a panic, `none`.
  unfoldable pub process_create_iterator_request : S → Conn → Option Conn
  process_create_iterator_request s c =
      let req = decode_lv rpc.unmarshal_iterator c.input in
      elim (iterator_for req.0 s c.output) [
        | none ↦ none
        | some w ↦ some (record { input = req.1; output = w })
      ]

  abbrev pub dimensions_of : Option (List Creator) → Sources → Reply (Option Fields)
  dimensions_of none sources = ok none
  dimensions_of (some ics) sources = elim (rpc.field_dimensions ics sources) [
    | err e ↦ err e
    | ok f ↦ ok (some f)
  ]

  -- `none` is the panic of a negative size.
  abbrev pub dimensions_for : Outcome (ShardsRequest Sources) → S → Option (Reply (Option Fields))
  dimensions_for (failed panic) s = none
  dimensions_for (failed e) s = some (err bad_request)
  dimensions_for (done req) s = some (dimensions_of (creators req.shard_ids s) req.rest)

  abbrev pub send_dimensions : Option (Reply (Option Fields)) → List ℕ → Writer → Option Conn
  send_dimensions none input w = none
  send_dimensions (some r) input w = some (record {
    input = input;
    output = (encode_tlv rpc.marshal_dimensions types.field_dimensions_response r w).1;
  })

  unfoldable pub process_field_dimensions_request : S → Conn → Option Conn
  process_field_dimensions_request s c =
      let req = decode_lv rpc.unmarshal_dimensions c.input in
      send_dimensions (dimensions_for req.0 s) req.1 c.output

  -- A turn of the loop: the connection and the node after it, and whether the loop goes on; `none` is
  -- a panic, which ReadLV has for a negative size.
  abbrev pub answered :
      Option (Reply (Unit {0}) × Node S Point) → Conn → Option (Bool × Conn × Node S Point)
  answered none c = none
  answered (some r) c = some (true, record c { output = write_shard_response r.0 c.output }, r.1)

  abbrev pub with_write :
      Outcome (List ℕ) → Conn → Node S Point → Option (Bool × Conn × Node S Point)
  with_write (failed panic) c n = none
  with_write (failed e) c n = some (false, c, n)
  with_write (done buf) c n = answered (process_write_shard_request buf n) c

  abbrev pub with_statement :
      Outcome (List ℕ) → Conn → Node S Point → Option (Bool × Conn × Node S Point)
  with_statement (failed panic) c n = none
  with_statement (failed e) c n = some (false, c, n)
  with_statement (done buf) c n =
      let r = rpc.execute_request buf n.store in answered (some (r.0, record n { store = r.1 })) c

  -- The loop returns after such a message.
  abbrev pub last_message : Option Conn → Node S Point → Option (Bool × Conn × Node S Point)
  last_message none n = none
  last_message (some c) n = some (false, c, n)

  -- The value of a message of another type is not read, and is taken for the next messages.
  unfoldable pub dispatch : ℕ → Conn → Node S Point → Option (Bool × Conn × Node S Point)
  dispatch typ c n =
      if typ == types.write_shard_request
      then (let lv = read_lv c.input in with_write lv.0 (record c { input = lv.1 }) n)
      else if typ == types.execute_statement_request
      then (let lv = read_lv c.input in with_statement lv.0 (record c { input = lv.1 }) n)
      else if typ == types.create_iterator_request
      then last_message (process_create_iterator_request n.store c) n
      else if typ == types.field_dimensions_request
      then last_message (process_field_dimensions_request n.store c) n
      else some (true, c, n)

  abbrev pub typed : Outcome ℕ → Conn → Node S Point → Option (Bool × Conn × Node S Point)
  typed (failed e) c n = some (false, c, n)
  typed (done typ) c n = dispatch typ c n

  unfoldable pub turn : Conn → Node S Point → Option (Bool × Conn × Node S Point)
  turn c n = let t = read_type_byte c.input in typed t.0 (record c { input = t.1 }) n

  abbrev pub go_on :
      Option (Bool × Conn × Node S Point)
      → (Conn → Node S Point → Run (Conn × Node S Point))
      → Run (Conn × Node S Point)
  go_on none k = panics
  go_on (some (false, c, n)) k = returns (c, n)
  go_on (some (true, c, n)) k = k c n

  -- The loop of handleConn, with fuel for its turns.
  unfoldable pub handle_conn : ℕ → Conn → Node S Point → Run (Conn × Node S Point)
  handle_conn zero c n = stuck
  handle_conn (suc fuel) c n = go_on (turn c n) (handle_conn fuel)

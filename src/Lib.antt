-- ===== src/Lib.antt =====
-- A cluster of InfluxDB nodes. A node that takes a write for a shard is to send it to the nodes that own
-- the shard. What a node cannot take is kept as a hint in a queue on disk, and sent again later. The
-- metadata says which nodes there are and which own a shard.
--
-- - Hh/Os, Hh/Directory: files and directories as the queue uses them, with system calls that may
--   fail after a part of their work. Hh/Exec: Go methods with error results.
-- - Hh/Segment: the type `segment` of hh/queue.go, one file of blocks with a footer. Its children
--   relate the bytes to the blocks (Layout) and treat append, current, advance, opening (Reopen) and
--   failing system calls (Faults).
-- - Hh/Queue: the type `queue` of hh/queue.go over a heap of segments. `head`, `tail` and `segments`
--   hold references, since the code shares segments between them. Hh/Fifo is its abstract view, a
--   list of blocks in order; Hh/Lost is about errors that are not reported.
-- - Hh/Processor: the type `NodeProcessor` of hh/node_processor.go. Write: marshalWrite and
--   unmarshalWrite. Life: Open, Close, Purge, WriteShard (`hint_shard`) and LastModified. Send:
--   SendWrite and the turns of `run`. The metastore, `models.ParsePoints` and the shard writer are a
--   record of functions, `Peers`.
-- - Hh/Service: hh/service.go, the processors by node: WriteShard, Open, Close (`close_service`) and a
--   pass of the purge. Its child Closing has Close and the goroutine of the purge as threads that
--   take steps.
-- - Tlv: tlv/tlv.go, records of type, length and value on a stream.
-- - Meta: meta/data.go. Data: the nodes (CreateMetaNode, CreateDataNode, ...). Groups:
--   CreateShardGroup, with the methods of the influxdb library as a record `Influx`. Release:
--   DeleteMetaNode. Owners: ShardLocation and what uses it. Users: the users and Clone. Snapshot: the
--   binary form, and Persist and Restore of meta/store_fsm.go.
-- - Meta/Handlers, Meta/Fsm: Apply of meta/store_fsm.go with a handler for each command, on the data
--   of Meta with the embedded `meta.Data` of influxdb. The library's methods, protobuf, raft and the
--   clock are the records `Library`, `Proto`, `Raft` and the field `now`. The children of Fsm are
--   about errors, about replicas that apply one log, and about the ids of nodes.
-- - Meta/Store: the methods of meta/store.go that go through raft (meta/raft_state.go), on top of
--   Meta/Fsm: join, the commands that it sends, and look-ups of nodes. Raft is the record `Backend`.
-- - Meta/Client: the loop retryUntilExec of meta/client.go that sends a command to the meta servers.
--   HTTP is the record `Http`. Its fuel is the maximal number of retries and one, which is enough.
-- - Cluster/Pool: cluster/pool.go, the pool of connections to a node. The parts of Get that other
--   goroutines can come between are steps of their own.
-- - Cluster/PointsWriter: cluster/points_writer.go. MapPoint and MapShards map points to shards, and
--   WritePoints writes each shard in a goroutine. That order, and the one in which the map of time
--   ranges is gone over, are parameters. The metadata client and the tsdb store (Cluster/Store) are
--   functions on a state. Groups is about the shard groups that are made.
-- - Cluster/Service: cluster/service.go, the loop of handleConn over the records of Tlv, and the
--   requests for writes, iterators and field dimensions. influxql and protobuf are the record `Rpc`.
--
-- An `int64` is kept as its bit pattern below 2 ^ 64, and sums wrap around. A method that holds the
-- lock of its object is one step. The loops of PurgeOlderThan and of sending take fuel, and give
-- `stuck` without it; for sending, one more than the number of pending blocks is enough.
-- FormatUint takes the fuel of 20 digits, as many as a number of 64 bits has.
--
-- Not modelled: the file offsets that Position reports, the rate limiter of hh/limiter.go, counters
-- and logs, subscribers, the pools of clients by node, the statement executor, the rest of the
-- client of the metastore (its snapshot, caches and look-ups), the HTTP interface of the metastore,
-- the roles and privileges, whose bodies are empty, the opening of raft, the copying of shards,
-- which is not finished, generated code and the commands.
pub mod Prelude
pub mod Tlv
pub mod Hh
pub mod Meta
pub mod Cluster

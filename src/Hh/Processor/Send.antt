-- ===== src/Hh/Processor/Send.antt =====
-- SendWrite of a NodeProcessor, and the loop that calls it. What the metastore and the node answer
-- may depend on the number of calls of SendWrite before.
use influxdb_cluster.Prelude.{
  ℕ, zero, suc, Bool, true, false, Option, List, [], ◌∷◌, ◌++◌, length, if◌then◌else◌,
}
use influxdb_cluster.Prelude.Bytes.{add64, lt_int64}
use influxdb_cluster.Hh.Exec.{Result, ok, err, eof, panic, stuck, Exec}
use influxdb_cluster.Hh.Os.{FileName}
use influxdb_cluster.Hh.Queue.{queue_current, queue_advance, purge_older_than}
use influxdb_cluster.Hh.Processor.Write.{unmarshal_write}
use influxdb_cluster.Hh.Processor.Life.{NodeProcessor, on_queue}

-- `data_node` tells for a node whether the metastore knows it; `write_shard` sends points of a shard
-- to a node.
pub record Peers (Point : Type 0) : Type 0 where
  pub data_node : ℕ → ℕ → Result Bool
  pub parse_points : List ℕ → Result (List Point)
  pub write_shard : ℕ → ℕ → ℕ → List Point → Result (Unit {0})

abbrev pub cap : ℕ → ℕ → ℕ
cap interval max_interval = if lt_int64 max_interval interval then max_interval else interval

-- A turn of the outer loop of `run` with nothing to stop it: the time of a purge or of a retry.
pub data Tick : Type 0 where
  purge_tick : (FileName → Option ℕ) → ℕ → ℕ → Tick
  retry_tick : ℕ → Tick

-- The interval stays, whatever error a purge gives; a panic is none.
abbrev pub logged : Result (Unit {0}) → ℕ → Result ℕ
logged (err panic) interval = err panic
logged (err stuck) interval = err stuck
logged _ interval = ok interval

module _ {Point : Type 0} where
  abbrev pub written : ℕ → List Point → NodeProcessor Point → NodeProcessor Point
  written shard_id points n = record n {
    write_node_req = add64 n.write_node_req 1;
    write_node_req_points = add64 n.write_node_req_points (length points);
    sent = n.sent ++ (shard_id, points) ∷ [];
  }

  -- An error of `Advance` is only logged.
  abbrev pub skip_block : NodeProcessor Point → NodeProcessor Point
  skip_block n = (on_queue queue_advance n).1

  unfoldable pub finish_send :
      Result (Unit {0}) → List ℕ → ℕ × List Point → Exec (NodeProcessor Point) ℕ
  finish_send (ok _) buf (shard_id, points) n =
      (ok (length buf), skip_block (written shard_id points n))
  finish_send (err e) buf w n =
      (err e, record n { write_node_req_fail = add64 n.write_node_req_fail 1 })

  unfoldable pub send_parsed :
      Peers Point → ℕ → List ℕ → Result (ℕ × List Point) → Exec (NodeProcessor Point) ℕ
  send_parsed peers attempt buf (ok w) n =
      finish_send (peers.write_shard attempt w.0 n.node_id w.1) buf w n
  send_parsed peers attempt buf (err e) n = (err e, skip_block n)

  unfoldable pub send_block : Peers Point → ℕ → Result (List ℕ) → Exec (NodeProcessor Point) ℕ
  send_block peers attempt (ok buf) n =
      send_parsed peers attempt buf (unmarshal_write peers.parse_points buf) n
  send_block peers attempt (err e) n = (err e, n)

  unfoldable pub send_if : Peers Point → ℕ → Result Bool → Exec (NodeProcessor Point) ℕ
  send_if peers attempt (ok true) n =
      let current = on_queue queue_current n in send_block peers attempt current.0 current.1
  send_if peers attempt (ok false) n = (err eof, n)
  send_if peers attempt (err e) n = (err e, n)

  unfoldable pub send_write : Peers Point → Exec (NodeProcessor Point) ℕ
  send_write peers n =
      send_if peers n.attempts (peers.data_node n.attempts n.node_id)
        (record n { attempts = suc n.attempts })

  -- The interval after an error of `SendWrite`: an `int64`, which is doubled.
  unfoldable pub back_off : NodeProcessor Point → ℕ → Result ℕ → Result ℕ
  back_off n interval (err eof) = ok n.retry_interval
  back_off n interval (err panic) = err panic
  back_off n interval (err _) = ok (cap (add64 interval interval) n.retry_max_interval)
  back_off n interval (ok sent) = ok n.retry_interval

  -- An error ends the inner loop; `rest` is what the next turn gives.
  unfoldable pub next_turn :
      Result ℕ → Result ℕ × NodeProcessor Point → ℕ → Exec (NodeProcessor Point) ℕ
  next_turn (ok sent) rest interval n = rest
  next_turn (err e) rest interval n = (back_off n interval (err e), n)

  -- The inner loop of `run`, with fuel: it gives the new interval. `stuck` means that the fuel ran
  -- out.
  unfoldable pub send_all : Peers Point → ℕ → ℕ → Exec (NodeProcessor Point) ℕ
  send_all peers zero interval n = (err stuck, n)
  send_all peers (suc fuel) interval n =
      let step = send_write peers n in
      let rest = send_all peers fuel step.1.retry_interval step.1 in
      next_turn step.0 rest interval step.1

  unfoldable pub first_interval : NodeProcessor Point → ℕ
  first_interval n = cap n.retry_interval n.retry_max_interval

  -- The state is the interval and the processor. An error of the purge is only logged.
  unfoldable pub run_tick : Peers Point → Tick → ℕ → Exec (NodeProcessor Point) ℕ
  run_tick peers (purge_tick modified fuel when) interval n =
      let purged = on_queue (purge_older_than modified fuel when) n in
      (logged purged.0 interval, purged.1)
  run_tick peers (retry_tick fuel) interval n = send_all peers fuel interval n

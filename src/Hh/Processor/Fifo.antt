-- ===== src/Hh/Processor/Fifo.antt =====
-- SendWrite and the loop that calls it, over the abstract view of the queue.
use mathlib.Core.Path.{subst}
use influxdb_cluster.Prelude.Bytes.{add64}
use influxdb_cluster.Prelude.{
  ℕ, suc, ◌≡◌, refl, sym, ap, ◌∙◌, Bool, true, false, some, List, [], ◌∷◌, ◌++◌, append-nil, length,
}
use influxdb_cluster.Hh.Exec.{Result, ok, err, eof}
use influxdb_cluster.Hh.Queue.{Queue, queue_current, queue_advance}
use influxdb_cluster.Hh.Fifo.{IsFifo}
use influxdb_cluster.Hh.Fifo.Read.{queue_current-IsFifo, queue_current-IsFifo_eof}
use influxdb_cluster.Hh.Fifo.Advance.{queue_advance-IsFifo}
use influxdb_cluster.Hh.Processor.Write.{unmarshal_write}
use influxdb_cluster.Hh.Processor.Life.{NodeProcessor}
use influxdb_cluster.Hh.Processor.Send.{
  Peers, written, skip_block, finish_send, send_parsed, send_block, send_if, send_write,
}

-- What `SendWrite` promises: its result, the blocks that are still pending, and the writes that
-- the node took.
pub record Sending (Point : Type 0) : Type 0 where
  pub result : Result ℕ
  pub left : List (List ℕ)
  pub took : List (ℕ × List Point)

module _ {Point : Type 0} where
  -- A processor that has a queue with these blocks pending.
  pub record Pending (n : NodeProcessor Point) (view : List (List ℕ)) : Type 0 where
    pub queue : Queue
    pub queue_eq : n.queue ≡ some queue
    pub fifo : IsFifo queue view

  abbrev pub sending : Result ℕ → List (List ℕ) → List (ℕ × List Point) → Sending Point
  sending result left took = record { result = result; left = left; took = took }

  -- The node takes the block or refuses it.
  unfoldable pub offer : Result (Unit {0}) → List ℕ → List (List ℕ) → ℕ × List Point → Sending Point
  offer (ok _) buf rest w = sending (ok (length buf)) rest (w ∷ [])
  offer (err e) buf rest w = sending (err e) (buf ∷ rest) []

  -- A block that cannot be read is dropped.
  unfoldable pub parse_first :
      Peers Point → ℕ → ℕ → List ℕ → List (List ℕ) → Result (ℕ × List Point) → Sending Point
  parse_first peers attempt node buf rest (ok w) =
      offer (peers.write_shard attempt w.0 node w.1) buf rest w
  parse_first peers attempt node buf rest (err e) = sending (err e) rest []

  unfoldable pub send_first : Peers Point → ℕ → ℕ → List (List ℕ) → Sending Point
  send_first peers attempt node [] = sending (err eof) [] []
  send_first peers attempt node (buf ∷ rest) =
      parse_first peers attempt node buf rest (unmarshal_write peers.parse_points buf)

  unfoldable pub send_known : Peers Point → ℕ → ℕ → List (List ℕ) → Result Bool → Sending Point
  send_known peers attempt node view (ok true) = send_first peers attempt node view
  send_known peers attempt node view (ok false) = sending (err eof) view []
  send_known peers attempt node view (err e) = sending (err e) view []

  unfoldable pub send_view : Peers Point → ℕ → ℕ → List (List ℕ) → Sending Point
  send_view peers attempt node view =
      send_known peers attempt node view (peers.data_node attempt node)

  -- The processor after a call that is as promised.
  pub record Does (n : NodeProcessor Point) (r : Result ℕ × NodeProcessor Point) (s : Sending Point)
      : Type 0 where
    pub result : r.0 ≡ s.result
    pub pending : Pending r.1 s.left
    pub sent : r.1.sent ≡ n.sent ++ s.took
    pub node : r.1.node_id ≡ n.node_id
    pub retry : r.1.retry_interval ≡ n.retry_interval
    pub retry_max : r.1.retry_max_interval ≡ n.retry_max_interval

  abbrev pub with_queue : Queue → NodeProcessor Point → NodeProcessor Point
  with_queue q n = record n { queue = some q }

  skipped :
      (n m : NodeProcessor Point) (r : List ℕ) (rest : List (List ℕ)) (q : Queue)
      (result : Result ℕ) (took : List (ℕ × List Point))
      → IsFifo q (r ∷ rest)
      → m.sent ≡ n.sent ++ took
      → m.node_id ≡ n.node_id
      → m.retry_interval ≡ n.retry_interval
      → m.retry_max_interval ≡ n.retry_max_interval
      → Does n (result, skip_block (with_queue q m)) (sending result rest took)
  skipped n m r rest q result took f same_sent same_node same_retry same_max = record {
    result = refl;
    pending = record {
      queue = (queue_advance q).1;
      queue_eq = refl;
      fifo = (queue_advance-IsFifo q r rest f).1;
    };
    sent = same_sent;
    node = same_node;
    retry = same_retry;
    retry_max = same_max;
  }

  same_queue :
      (n m : NodeProcessor Point) (view : List (List ℕ)) (q : Queue) (result : Result ℕ)
      → IsFifo q view
      → m.sent ≡ n.sent
      → m.node_id ≡ n.node_id
      → m.retry_interval ≡ n.retry_interval
      → m.retry_max_interval ≡ n.retry_max_interval
      → Does n (result, with_queue q m) (sending result view [])
  same_queue n m view q result f same_sent same_node same_retry same_max = record {
    result = refl;
    pending = record { queue = q; queue_eq = refl; fifo = f };
    sent = same_sent ∙ sym (append-nil n.sent);
    node = same_node;
    retry = same_retry;
    retry_max = same_max;
  }

  module _ (peers : Peers Point) (n : NodeProcessor Point) where
    -- The processor counts the call.
    abbrev counted : NodeProcessor Point
    counted = record n { attempts = suc n.attempts }

    finish_send-Does :
        (o : Result (Unit {0})) (buf : List ℕ) (rest : List (List ℕ)) (w : ℕ × List Point)
        (q : Queue)
        → IsFifo q (buf ∷ rest)
        → Does n (finish_send o buf w (with_queue q counted)) (offer o buf rest w)
    unfolding finish_send offer
    finish_send-Does (ok _) buf rest w q f =
        skipped n (written w.0 w.1 counted) buf rest q (ok (length buf)) (w ∷ []) f refl refl refl
          refl
    finish_send-Does (err e) buf rest w q f =
        same_queue n (record counted { write_node_req_fail = add64 n.write_node_req_fail 1 })
          (buf ∷ rest) q (err e) f refl refl refl refl

    send_parsed-Does :
        (p : Result (ℕ × List Point)) (buf : List ℕ) (rest : List (List ℕ)) (q : Queue)
        → IsFifo q (buf ∷ rest)
        → Does n
            (send_parsed peers n.attempts buf p (with_queue q counted))
            (parse_first peers n.attempts n.node_id buf rest p)
    unfolding send_parsed parse_first
    send_parsed-Does (ok w) buf rest q f =
        finish_send-Does (peers.write_shard n.attempts w.0 n.node_id w.1) buf rest w q f
    send_parsed-Does (err e) buf rest q f =
        skipped n counted buf rest q (err e) [] f (sym (append-nil n.sent)) refl refl refl

    send_known-Does :
        (known : Result Bool) (view : List (List ℕ)) (q : Queue)
        → IsFifo q view
        → Does n
            (send_if peers n.attempts known (with_queue q counted))
            (send_known peers n.attempts n.node_id view known)
    unfolding send_if send_known send_block send_first
    send_known-Does (ok true) [] q f =
        let (done, f') = queue_current-IsFifo_eof q f in
        rw done (same_queue n counted [] (queue_current q).1 (err eof) f' refl refl refl refl)
    send_known-Does (ok true) (buf ∷ rest) q f =
        let (done, f') = queue_current-IsFifo q buf rest f in
        rw done (
          send_parsed-Does (unmarshal_write peers.parse_points buf) buf rest (queue_current q).1 f')
    send_known-Does (ok false) view q f =
        same_queue n counted view q (err eof) f refl refl refl refl
    send_known-Does (err e) view q f = same_queue n counted view q (err e) f refl refl refl refl

  -- `SendWrite` on a processor with blocks pending does on every branch what `send_view` says: the
  -- oldest block is passed if the node takes it or if it cannot be read, and stays otherwise.
  pub send_write-Does :
      (peers : Peers Point) (n : NodeProcessor Point) (view : List (List ℕ))
      → Pending n view
      → Does n (send_write peers n) (send_view peers n.attempts n.node_id view)
  unfolding send_write send_view
  send_write-Does peers n view h =
      subst (λ m. Does m (send_write peers m) (send_view peers m.attempts m.node_id view))
        (sym (ap (λ o. record n { queue = o }) h.queue_eq))
        (send_known-Does peers (with_queue h.queue n) (peers.data_node n.attempts n.node_id) view
          h.queue h.fifo)

-- ===== src/Hh/Processor/Loop.antt =====
-- The inner loop of run of a NodeProcessor: it ends, its interval stays within bounds, and it sends
-- every block to a node that takes them.
use influxdb_cluster.Prelude.{
  ℕ, zero, suc, ◌≤◌, ◌<◌, ◌^◌, ◌≡◌, refl, sym, ap, ◌∙◌, ◌⊎◌, inl, inr, Bool, true, false, List, [],
  ◌∷◌, ◌++◌, append_assoc, length, arith,
}
use influxdb_cluster.Prelude.Bytes.{add64}
use influxdb_cluster.Hh.Exec.{Error, Result, ok, err, eof, panic}
use influxdb_cluster.Hh.Processor.Write.{unmarshal_write}
use influxdb_cluster.Hh.Processor.Life.{NodeProcessor}
use influxdb_cluster.Hh.Processor.Send.{Peers, cap, send_write, send_all, next_turn, back_off}
use influxdb_cluster.Hh.Processor.Fifo.{
  Pending, offer, parse_first, send_first, send_known, send_view, send_write-Does,
}

pub Result-cases :
    {A : Type 0} (r : Result A) → ((a : A) × (r ≡ ok a)) ⊎ ((e : Error) × (r ≡ err e))
Result-cases (ok a) = inl (a, refl)
Result-cases (err e) = inr (e, refl)

-- The outcome of a loop that ended: an interval within the bound, or a panic.
abbrev pub Within : ℕ → Result ℕ → Type 0
Within bound (ok interval) = interval ≤ bound
Within bound (err panic) = Unit {0}
Within bound (err _) = ⊥

capped :
    (interval most bound : ℕ)
    → interval ≤ bound
    → most ≤ bound
    → bound < 2 ^ 62
    → cap (add64 interval interval) most ≤ bound
capped interval most bound h k small = ground arith

module _ {Point : Type 0} where
  back_off-Within :
      (n : NodeProcessor Point) (interval bound : ℕ) (e : Error)
      → n.retry_interval ≤ bound
      → n.retry_max_interval ≤ bound
      → interval ≤ bound
      → bound < 2 ^ 62
      → Within bound (back_off n interval (err e))
  unfolding back_off
  back_off-Within n interval bound eof a b c d = a
  back_off-Within n interval bound panic a b c d = tt
  back_off-Within n interval bound _ a b c d = capped interval n.retry_max_interval bound c b d

  -- A write that was sent has taken a block away.
  send_view-shrinks :
      (peers : Peers Point) (attempt node k : ℕ) (view : List (List ℕ))
      → (send_view peers attempt node view).result ≡ ok k
      → suc (length (send_view peers attempt node view).left) ≡ length view
  unfolding send_view send_known send_first parse_first offer
  send_view-shrinks peers attempt node k view e = known (peers.data_node attempt node) view e
    where
      offered :
          (o : Result (Unit {0})) (buf : List ℕ) (rest : List (List ℕ)) (w : ℕ × List Point)
          → (offer o buf rest w).result ≡ ok k
          → suc (length (offer o buf rest w).left) ≡ suc (length rest)
      offered (ok _) buf rest w e = refl
      offered (err x) buf rest w e = cc e

      parsed :
          (p : Result (ℕ × List Point)) (buf : List ℕ) (rest : List (List ℕ))
          → (parse_first peers attempt node buf rest p).result ≡ ok k
          → suc (length (parse_first peers attempt node buf rest p).left) ≡ suc (length rest)
      parsed (ok w) buf rest e = offered (peers.write_shard attempt w.0 node w.1) buf rest w e
      parsed (err x) buf rest e = cc e

      known :
          (a : Result Bool) (view : List (List ℕ))
          → (send_known peers attempt node view a).result ≡ ok k
          → suc (length (send_known peers attempt node view a).left) ≡ length view
      known (ok true) [] e = cc e
      known (ok true) (buf ∷ rest) e = parsed (unmarshal_write peers.parse_points buf) buf rest e
      known (ok false) view e = cc e
      known (err x) view e = cc e

  module _ (peers : Peers Point) (fuel interval : ℕ) (n : NodeProcessor Point) where
    turn_sent :
        (k : ℕ)
        → (send_write peers n).0 ≡ ok k
        → send_all peers (suc fuel) interval n
          ≡ send_all peers fuel (send_write peers n).1.retry_interval (send_write peers n).1
    unfolding send_all next_turn
    turn_sent k e =
        ap
          (λ r.
            next_turn r
              (send_all peers fuel (send_write peers n).1.retry_interval (send_write peers n).1)
              interval (send_write peers n).1)
          e

    turn_failed :
        (x : Error)
        → (send_write peers n).0 ≡ err x
        → send_all peers (suc fuel) interval n
          ≡ (back_off (send_write peers n).1 interval (err x), (send_write peers n).1)
    unfolding send_all next_turn
    turn_failed x e =
        ap
          (λ r.
            next_turn r
              (send_all peers fuel (send_write peers n).1.retry_interval (send_write peers n).1)
              interval (send_write peers n).1)
          e

  -- The loop ends once it has as many turns as there are blocks and one more, whatever the node and
  -- the metastore answer. The queue is in order after it, and the interval is within any bound
  -- on the configured ones that a doubled interval fits under.
  pub send_all-ends :
      (peers : Peers Point) (fuel interval bound : ℕ) (n : NodeProcessor Point)
      (view : List (List ℕ))
      → Pending n view
      → length view < fuel
      → n.retry_interval ≤ bound
      → n.retry_max_interval ≤ bound
      → interval ≤ bound
      → bound < 2 ^ 62
      → Within bound (send_all peers fuel interval n).0
        × ((left : List (List ℕ)) × Pending (send_all peers fuel interval n).1 left)
  send_all-ends peers zero interval bound n view h few a b c d = absurd (omega arith)
  send_all-ends peers (suc fuel) interval bound n view h few a b c d =
      let does = send_write-Does peers n view h in
      elim (Result-cases (send_write peers n).0) [
        | inl (k, e) ↦ rw (turn_sent peers fuel interval n k e) (
            send_all-ends peers fuel _ bound (send_write peers n).1
              (send_view peers n.attempts n.node_id view).left does.pending
              (omega
                (arith, send_view-shrinks peers n.attempts n.node_id k view (sym does.result ∙ e)))
              (rw does.retry a) (rw does.retry_max b) (rw does.retry a) d)
        | inr (x, e) ↦ rw (turn_failed peers fuel interval n x e) (
          back_off-Within (send_write peers n).1 interval bound x (rw does.retry a)
              (rw does.retry_max b) c d,
          (_, does.pending),
        )
      ]

  -- The writes that the blocks stand for.
  abbrev pub Decodes : Peers Point → List (List ℕ) → List (ℕ × List Point) → Type 0
  Decodes peers [] [] = Unit {0}
  Decodes peers [] (w ∷ ws) = ⊥
  Decodes peers (b ∷ bs) [] = ⊥
  Decodes peers (b ∷ bs) (w ∷ ws) =
      (unmarshal_write peers.parse_points b ≡ ok w) × Decodes peers bs ws

  -- The node is known and takes every write.
  pub record Healthy (peers : Peers Point) : Type 0 where
    pub known : (attempt node : ℕ) → peers.data_node attempt node ≡ ok true
    pub takes :
        (attempt shard_id node : ℕ) (points : List Point)
        → peers.write_shard attempt shard_id node points ≡ ok tt

  send_view-Healthy :
      (peers : Peers Point) (attempt node : ℕ) (b : List ℕ) (bs : List (List ℕ))
      (w : ℕ × List Point)
      → Healthy peers
      → unmarshal_write peers.parse_points b ≡ ok w
      → send_view peers attempt node (b ∷ bs)
        ≡ record { result = ok (length b); left = bs; took = w ∷ [] }
  unfolding send_view send_known send_first parse_first offer
  send_view-Healthy peers attempt node b bs w good e =
      rw (good.known attempt node, e, good.takes attempt w.0 node w.1)

  send_view-nil :
      (peers : Peers Point) (attempt node : ℕ)
      → Healthy peers
      → send_view peers attempt node [] ≡ record { result = err eof; left = []; took = [] }
  unfolding send_view send_known send_first
  send_view-nil peers attempt node good = rw (good.known attempt node)

  -- To a node that is known and takes every write, the loop sends all the writes that are pending,
  -- in order and each once, and leaves the queue empty and the interval as configured.
  pub send_all-delivers :
      (peers : Peers Point) (fuel interval : ℕ) (n : NodeProcessor Point) (view : List (List ℕ))
      (writes : List (ℕ × List Point))
      → Pending n view
      → length view < fuel
      → Healthy peers
      → Decodes peers view writes
      → ((send_all peers fuel interval n).0 ≡ ok n.retry_interval)
        × Pending (send_all peers fuel interval n).1 []
        × ((send_all peers fuel interval n).1.sent ≡ n.sent ++ writes)
  unfolding back_off
  send_all-delivers peers zero interval n view writes h few good d = absurd (omega arith)
  send_all-delivers peers (suc fuel) interval n [] [] h few good d =
      let does =
        rw (send_view-nil peers n.attempts n.node_id good) at (send_write-Does peers n [] h) in
      rw (turn_failed peers fuel interval n eof does.result)
        (ap ok does.retry, does.pending, does.sent)
  send_all-delivers peers (suc fuel) interval n [] (w ∷ ws) h few good d = absurd d
  send_all-delivers peers (suc fuel) interval n (b ∷ bs) [] h few good d = absurd d
  send_all-delivers peers (suc fuel) interval n (b ∷ bs) (w ∷ ws) h few good d =
      let does =
        rw (send_view-Healthy peers n.attempts n.node_id b bs w good d.0) at
          (send_write-Does peers n (b ∷ bs) h) in
      let rest =
        send_all-delivers peers fuel (send_write peers n).1.retry_interval (send_write peers n).1 bs
          ws does.pending (omega arith) good d.1 in
      rw (turn_sent peers fuel interval n (length b) does.result) (
        rest.0 ∙ ap ok does.retry,
        rest.1,
        rest.2 ∙ (ap (λ l. l ++ ws) does.sent ∙ append_assoc n.sent (w ∷ []) ws),
      )

-- ===== src/Cluster/Service/Serves.antt =====
-- What the service of cluster/service.go does with the requests of a connection.
use influxdb_cluster.Prelude.{
  ℕ, zero, suc, ◌<◌, ◌≡◌, refl, sym, ap, ◌∙◌, ◌⊎◌, inl, inr, true, false, Bool-cases, ◌||◌, Option,
  none, some, List, [], ◌∷◌, ◌++◌, append_assoc, All, length, ==_self, arith,
}
use influxdb_cluster.Prelude.Bytes.{put_uint64}
use influxdb_cluster.Tlv.{Writer, read_type, read_full, read_type_byte, read_lv, max_message_size}
use influxdb_cluster.Tlv.Laws.{record_bytes, read_full_exact, read_lv_exact}
use influxdb_cluster.Cluster.Store.{Reply, ok, err, shard_not_found, TsdbStore, Node}
use influxdb_cluster.Cluster.PointsWriter.{write_once, taken_if}
use influxdb_cluster.Cluster.PointsWriter.Written.{Took, write_once-Took, Took-after}
use influxdb_cluster.Cluster.Service.{
  MessageTypes, WriteShardRequest, Rpc, Conn, Run, returns, panics, is_empty, wrap_write,
  write_created, write_missing, write_request, process_decoded, process_write_shard_request,
  write_shard_response, answered, with_write, dispatch, turn, go_on, handle_conn,
}

module _ {S Point : Type 0} (tsdb : TsdbStore S Point) where
  -- The node took the points of the request, or took nothing: because of an error, or because the
  -- store does not have the shard and the request does not say where to make it.
  abbrev pub TookOrDropped :
      Node S Point → WriteShardRequest Point → List Point → Reply (Unit {0}) × Node S Point → Type 0
  TookOrDropped n req points (err e, n') = n'.taken ≡ n.taken
  TookOrDropped n req points (ok _, n') =
      (n'.taken ≡ n.taken ++ (req.shard_id, points) ∷ [])
      ⊎ ((n'.taken ≡ n.taken)
          × ((tsdb.write_to_shard req.shard_id points n.store).0 ≡ err shard_not_found)
          × ((is_empty req.database || is_empty req.policy) ≡ true))

  from_Took :
      (n : Node S Point) (req : WriteShardRequest Point) (points : List Point)
      (r : Reply (Unit {0}) × Node S Point)
      → Took tsdb n req.shard_id points r
      → TookOrDropped n req points r
  from_Took n req points (ok _, n') h = inl h
  from_Took n req points (err e, n') h = h

  wrap_write-Took :
      (n : Node S Point) (id : ℕ) (points : List Point) (r : Reply (Unit {0}) × Node S Point)
      → Took tsdb n id points r
      → Took tsdb n id points (wrap_write tsdb id r)
  wrap_write-Took n id points (ok _, n') h = h
  wrap_write-Took n id points (err e, n') h = h

  write_created-Took :
      (r : Reply (Unit {0}) × S) (id : ℕ) (points : List Point) (n : Node S Point)
      → Took tsdb n id points (write_created tsdb r id points n)
  write_created-Took (err e, s) id points n = refl
  write_created-Took (ok _, s) id points n =
      wrap_write-Took (record n { store = s }) id points
        (write_once tsdb id points (record n { store = s }))
        (write_once-Took tsdb id points (record n { store = s }))

  -- The answer of `write_once` is that of the store.
  write_once-answer :
      (id : ℕ) (points : List Point) (n : Node S Point)
      → (write_once tsdb id points n).0 ≡ (tsdb.write_to_shard id points n.store).0
  unfolding write_once
  write_once-answer id points n = answer (tsdb.write_to_shard id points n.store)
    where
      answer : (r : Reply (Unit {0}) × S) → (taken_if tsdb r id points n).0 ≡ r.0
      answer (ok _, s) = refl
      answer (err e, s) = refl

  write_missing-TookOrDropped :
      (first : Reply (Unit {0}) × Node S Point) (n : Node S Point) (req : WriteShardRequest Point)
      (points : List Point)
      → Took tsdb n req.shard_id points first
      → first.0 ≡ (tsdb.write_to_shard req.shard_id points n.store).0
      → TookOrDropped n req points
          (write_missing tsdb first.0 req.database req.policy req.shard_id points first.1)
  unfolding write_missing
  write_missing-TookOrDropped (ok _, m) n req points h answer = inl h
  write_missing-TookOrDropped (err shard_not_found, m) n req points h answer =
      elim (Bool-cases (is_empty req.database || is_empty req.policy)) [
        | inl dropped ↦ rw dropped (inr (h, sym answer, dropped))
        | inr known ↦
            let created = tsdb.create_shard req.database req.policy req.shard_id m.store in
            let r = write_created tsdb created req.shard_id points m in
            rw known (
              from_Took n req points r (
                Took-after tsdb n m req.shard_id points r h
                  (write_created-Took created req.shard_id points m)))
      ]
  write_missing-TookOrDropped (err _, m) n req points h answer = h

module _ {S Point Creator Iterator Opt Sources Fields : Type 0} (types : MessageTypes)
    (tsdb : TsdbStore S Point) (rpc : Rpc S Point Creator Iterator Opt Sources Fields) where
  -- A write request, with points that can be parsed, that reports success was taken, or it was
  -- dropped: the store answers that it does not have the shard, and the request has no database or no
  -- policy. With an error nothing is taken.
  pub process_write_shard_request-TookOrDropped :
      (buf : List ℕ) (req : WriteShardRequest Point) (points : List Point) (n : Node S Point)
      → rpc.unmarshal_write buf ≡ some req
      → req.points ≡ some points
      → (r : Reply (Unit {0}) × Node S Point) × (process_write_shard_request types tsdb rpc buf n
          ≡ some r)
        × TookOrDropped tsdb n req points r
  unfolding process_write_shard_request
  process_write_shard_request-TookOrDropped buf req points n decoded parsed =
      let first = write_once tsdb req.shard_id points n in
      (
        write_missing tsdb first.0 req.database req.policy req.shard_id points first.1,
        ap (λ o. process_decoded tsdb o n) decoded ∙ ap (λ o. write_request tsdb req o n) parsed,
        write_missing-TookOrDropped tsdb first n req points
            (write_once-Took tsdb req.shard_id points n)
            (write_once-answer tsdb req.shard_id points n),
      )

  -- The write requests of a connection, as they come.
  abbrev pub requests : List (List ℕ) → List ℕ
  requests [] = []
  requests (b ∷ bs) = record_bytes types.write_shard_request b ++ requests bs

  abbrev pub after_write :
      Option (Reply (Unit {0}) × Node S Point)
      → Writer
      → (Writer → Node S Point → Run (Conn × Node S Point))
      → Run (Conn × Node S Point)
  after_write none w k = panics
  after_write (some r) w k = k (write_shard_response types tsdb rpc r.0 w) r.1

  -- What is promised: the requests are processed in order, each is answered before the next, and
  -- the connection ends with its input.
  abbrev pub serve_writes : List (List ℕ) → Writer → Node S Point → Run (Conn × Node S Point)
  serve_writes [] w n = returns (record { input = []; output = w }, n)
  serve_writes (b ∷ bs) w n =
      after_write (process_write_shard_request types tsdb rpc b n) w (serve_writes bs)

  dispatch_write :
      (c : Conn) (n : Node S Point)
      → dispatch types tsdb rpc types.write_shard_request c n
        ≡ with_write types tsdb rpc (read_lv c.input).0 (record c { input = (read_lv c.input).1 }) n
  unfolding dispatch
  dispatch_write c n = rw (==_self types.write_shard_request) refl

  request_turn :
      (buf r : List ℕ) (w : Writer) (n : Node S Point)
      → length buf < max_message_size
      → turn types tsdb rpc
          (record { input = record_bytes types.write_shard_request buf ++ r; output = w })
          n
        ≡ answered types tsdb rpc
            (process_write_shard_request types tsdb rpc buf n)
            (record { input = r; output = w })
  unfolding turn read_type_byte
  request_turn buf r w n small =
      rw
        (read_full_exact (types.write_shard_request ∷ []) ((put_uint64 (length buf) ++ buf) ++ r) 1
          read_type refl)
        (dispatch_write (record { input = (put_uint64 (length buf) ++ buf) ++ r; output = w }) n
          ∙ ap (λ x. with_write types tsdb rpc x.0 (record { input = x.1; output = w }) n)
              (ap read_lv (append_assoc (put_uint64 (length buf)) buf r)
                ∙ read_lv_exact buf r small))

  last_turn :
      (w : Writer) (n : Node S Point)
      → turn types tsdb rpc (record { input = []; output = w }) n
        ≡ some (false, record { input = []; output = w }, n)
  unfolding turn read_type_byte read_full
  last_turn w n = refl

  served :
      (fuel : ℕ) (x : Option (Reply (Unit {0}) × Node S Point)) (bs : List (List ℕ)) (w : Writer)
      → ((v : Writer) (m : Node S Point)
          → handle_conn types tsdb rpc fuel (record { input = requests bs; output = v }) m
            ≡ serve_writes bs v m)
      → go_on types tsdb rpc
          (answered types tsdb rpc x (record { input = requests bs; output = w }))
          (handle_conn types tsdb rpc fuel)
        ≡ after_write x w (serve_writes bs)
  served fuel none bs w h = refl
  served fuel (some r) bs w h = h (write_shard_response types tsdb rpc r.0 w) r.1

  -- On a connection that sends write requests under 1 GB, and nothing else, handleConn processes
  -- them in order, answers each before the next, and returns at the end of the input, unless a
  -- point that cannot be parsed makes it panic. As many turns as there are requests and one more
  -- are enough.
  pub handle_conn-serve_writes :
      (fuel : ℕ) (bs : List (List ℕ)) (w : Writer) (n : Node S Point)
      → length bs < fuel
      → All (λ b. length b < max_message_size) bs
      → handle_conn types tsdb rpc fuel (record { input = requests bs; output = w }) n
        ≡ serve_writes bs w n
  unfolding handle_conn
  handle_conn-serve_writes zero bs w n enough h = absurd (omega arith)
  handle_conn-serve_writes (suc fuel) [] w n enough h =
      ap (λ o. go_on types tsdb rpc o (handle_conn types tsdb rpc fuel)) (last_turn w n)
  handle_conn-serve_writes (suc fuel) (b ∷ bs) w n enough h =
      ap (λ o. go_on types tsdb rpc o (handle_conn types tsdb rpc fuel))
        (request_turn b (requests bs) w n h.0)
      ∙ served fuel (process_write_shard_request types tsdb rpc b n) bs w
          (λ v m. handle_conn-serve_writes fuel bs v m (omega arith) h.1)

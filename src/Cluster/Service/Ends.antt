-- ===== src/Cluster/Service/Ends.antt =====
-- The loop of handleConn in cluster/service.go ends: each turn takes something from the input.
use influxdb_cluster.Prelude.{
  ℕ, zero, suc, ◌+◌, ◌≤◌, ◌<◌, ◌≡◌, ◌≢◌, refl, ap, ◌⊎◌, inl, inr, Bool, true, false, Bool-cases,
  Option, none, some, List, [], ◌∷◌, length, drop, ltb, leb, ◌==◌, if◌then◌else◌, arith,
}
use influxdb_cluster.Prelude.Bytes.{uint64, half_word}
use influxdb_cluster.Tlv.{
  Outcome, done, failed, panic, Writer, TlvError, read_type, read_size, read_value, read_full,
  read_type_byte, read_lv, read_sized, then_read, max_message_size,
}
use influxdb_cluster.Tlv.Laws.{read_full_exact}
use influxdb_cluster.Cluster.Store.{Reply, TsdbStore, Node}
use influxdb_cluster.Cluster.Service.{
  MessageTypes, Rpc, Conn, Run, stuck, process_write_shard_request, answered, with_write,
  with_statement, process_create_iterator_request, process_field_dimensions_request, last_message,
  dispatch, typed, turn, go_on, handle_conn,
}

length-drop : (n : ℕ) (xs : List ℕ) → length (drop n xs) + n ≤ length xs ⊎ (length (drop n xs) ≡ 0)
length-drop zero xs = inl (omega arith)
length-drop (suc n) [] = inr refl
length-drop (suc n) (x ∷ xs) = elim (length-drop n xs) [ inl h ↦ inl (omega arith) | inr h ↦ inr h ]

read_full-shorter : (n : ℕ) (e : TlvError) (r : List ℕ) → length (read_full n e r).1 ≤ length r
unfolding read_full
read_full-shorter n e r = elim (Bool-cases (ltb (length r) n)) [
  | inl short ↦ rw short (omega arith)
  | inr enough ↦ elim (length-drop n r) [
    | inl h ↦ rw enough (omega arith)
    | inr h ↦ rw enough (omega arith)
  ]
]

read_sized-shorter : (sz : ℕ) (r : List ℕ) → length (read_sized sz r).1 ≤ length r
unfolding read_sized
read_sized-shorter sz r = elim (Bool-cases (leb half_word sz)) [
  | inl negative ↦ rw negative (omega arith)
  | inr positive ↦ elim (Bool-cases (leb max_message_size sz)) [
    | inl large ↦ rw positive (rw large (omega arith))
    | inr small ↦ rw positive (rw small (read_full-shorter sz read_value r))
  ]
]

read_lv-shorter : (r : List ℕ) → length (read_lv r).1 ≤ length r
unfolding read_lv
read_lv-shorter r = sized (read_full 8 read_size r) (read_full-shorter 8 read_size r)
  where
    sized :
        (x : Outcome (List ℕ) × List ℕ)
        → length x.1 ≤ length r
        → length (then_read x.0 (λ b. read_sized (uint64 b)) x.1).1 ≤ length r
    sized (done b, rest) h = omega (arith, read_sized-shorter (uint64 b) rest)
    sized (failed e, rest) h = h

read_type_byte-cons : (b : ℕ) (bs : List ℕ) → read_type_byte (b ∷ bs) ≡ (done b, bs)
unfolding read_type_byte
read_type_byte-cons b bs = rw (read_full_exact (b ∷ []) bs 1 read_type refl) refl

module _ {S Point Creator Iterator Opt Sources Fields : Type 0} (types : MessageTypes)
    (tsdb : TsdbStore S Point) (rpc : Rpc S Point Creator Iterator Opt Sources Fields) where
  -- If the loop goes on, it does so with no more input than this.
  abbrev Leaves : ℕ → Option (Bool × Conn × Node S Point) → Type 0
  Leaves most none = Unit {0}
  Leaves most (some (false, c, n)) = Unit {0}
  Leaves most (some (true, c, n)) = length c.input ≤ most

  answered-Leaves :
      (most : ℕ) (x : Option (Reply (Unit {0}) × Node S Point)) (c : Conn)
      → length c.input ≤ most
      → Leaves most (answered types tsdb rpc x c)
  answered-Leaves most none c h = tt
  answered-Leaves most (some r) c h = h

  with_write-Leaves :
      (most : ℕ) (o : Outcome (List ℕ)) (c : Conn) (n : Node S Point)
      → length c.input ≤ most
      → Leaves most (with_write types tsdb rpc o c n)
  with_write-Leaves most (failed panic) c n h = tt
  with_write-Leaves most (failed _) c n h = tt
  with_write-Leaves most (done buf) c n h =
      answered-Leaves most (process_write_shard_request types tsdb rpc buf n) c h

  with_statement-Leaves :
      (most : ℕ) (o : Outcome (List ℕ)) (c : Conn) (n : Node S Point)
      → length c.input ≤ most
      → Leaves most (with_statement types tsdb rpc o c n)
  with_statement-Leaves most (failed panic) c n h = tt
  with_statement-Leaves most (failed _) c n h = tt
  with_statement-Leaves most (done buf) c n h = h

  last_message-Leaves :
      (most : ℕ) (o : Option Conn) (n : Node S Point)
      → Leaves most (last_message types tsdb rpc o n)
  last_message-Leaves most none n = tt
  last_message-Leaves most (some c) n = tt

  -- Each branch of a test.
  either-Leaves :
      (most : ℕ) (x y : Option (Bool × Conn × Node S Point)) (b : Bool)
      → Leaves most x
      → Leaves most y
      → Leaves most (if b then x else y)
  either-Leaves most x y true h k = h
  either-Leaves most x y false h k = k

  dispatch-Leaves :
      (typ : ℕ) (c : Conn) (n : Node S Point)
      → Leaves (length c.input) (dispatch types tsdb rpc typ c n)
  unfolding dispatch
  dispatch-Leaves typ c n =
      either-Leaves (length c.input) _ _ (typ == types.write_shard_request)
        (with_write-Leaves (length c.input) (read_lv c.input).0
          (record c { input = (read_lv c.input).1 }) n (read_lv-shorter c.input))
        (either-Leaves (length c.input) _ _ (typ == types.execute_statement_request)
          (with_statement-Leaves (length c.input) (read_lv c.input).0
            (record c { input = (read_lv c.input).1 }) n (read_lv-shorter c.input))
          (either-Leaves (length c.input) _ _ (typ == types.create_iterator_request)
            (last_message-Leaves (length c.input)
              (process_create_iterator_request types tsdb rpc n.store c) n)
            (either-Leaves (length c.input) _ _ (typ == types.field_dimensions_request)
              (last_message-Leaves (length c.input)
                (process_field_dimensions_request types tsdb rpc n.store c) n)
              (omega arith))))

  turn_cons :
      (b : ℕ) (bs : List ℕ) (w : Writer) (n : Node S Point)
      → turn types tsdb rpc (record { input = b ∷ bs; output = w }) n
        ≡ dispatch types tsdb rpc b (record { input = bs; output = w }) n
  unfolding turn
  turn_cons b bs w n =
      ap (λ t. typed types tsdb rpc t.0 (record { input = t.1; output = w }) n)
        (read_type_byte-cons b bs)

  turn_nil :
      (w : Writer) (n : Node S Point)
      → turn types tsdb rpc (record { input = []; output = w }) n
        ≡ some (false, record { input = []; output = w }, n)
  unfolding turn read_type_byte read_full
  turn_nil w n = refl

  go_on-ends :
      (most : ℕ) (x : Option (Bool × Conn × Node S Point))
      (k : Conn → Node S Point → Run (Conn × Node S Point))
      → Leaves most x
      → ((c : Conn) (n : Node S Point) → length c.input ≤ most → k c n ≢ stuck)
      → go_on types tsdb rpc x k ≢ stuck
  go_on-ends most none k h ends = λ e. cc e
  go_on-ends most (some (false, c, n)) k h ends = λ e. cc e
  go_on-ends most (some (true, c, n)) k h ends = ends c n h

  ends_on :
      (fuel : ℕ) (input : List ℕ) (w : Writer) (n : Node S Point)
      → length input < fuel
      → handle_conn types tsdb rpc fuel (record { input = input; output = w }) n ≢ stuck
  unfolding handle_conn
  ends_on zero input w n enough = absurd (omega arith)
  ends_on (suc fuel) [] w n enough = rw (turn_nil w n) (λ e. cc e)
  ends_on (suc fuel) (b ∷ bs) w n enough = rw (turn_cons b bs w n) (
      go_on-ends (length bs) (dispatch types tsdb rpc b (record { input = bs; output = w }) n)
        (handle_conn types tsdb rpc fuel) (dispatch-Leaves b (record { input = bs; output = w }) n)
        (λ c m h. ends_on fuel c.input c.output m (omega arith)))

  -- The loop of handleConn ends on every input, by a return or by a panic: each turn reads a byte or more, so that one more
  -- turn than there are bytes is enough.
  pub handle_conn-ends :
      (fuel : ℕ) (c : Conn) (n : Node S Point)
      → length c.input < fuel
      → handle_conn types tsdb rpc fuel c n ≢ stuck
  handle_conn-ends fuel c n enough = ends_on fuel c.input c.output n enough

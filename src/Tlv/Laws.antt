-- ===== src/Tlv/Laws.antt =====
-- Round trips of tlv/tlv.go.
use influxdb_cluster.Prelude.{
  ℕ, ◌+◌, ◌-◌, ◌≤◌, ◌<◌, ◌≡◌, refl, ap, ◌∙◌, true, false, Option, none, some, List, [], ◌∷◌, ◌++◌,
  append_assoc, length, length-append, take_exact, drop_exact, ltb, leb, arith,
}
use influxdb_cluster.Prelude.Bytes.{half_word, put_uint64, length-put_uint64, uint64-put_uint64}
use influxdb_cluster.Tlv.{
  TlvError, read_type, read_size, read_value, size_exceeded, write_type, write_size, write_value,
  done, failed, max_message_size, read_full, read_type_byte, read_sized, read_lv, read_tlv, Writer,
  write_to, write_type_byte, write_lv, write_tlv, encode_lv, encode_tlv, decode_lv, decode_tlv,
  then_write, marshal_failed,
}

-- The bytes of a record.
abbrev pub record_bytes : ℕ → List ℕ → List ℕ
record_bytes typ buf = typ ∷ (put_uint64 (length buf) ++ buf)

pub read_full_exact :
    (xs r : List ℕ) (n : ℕ) (e : TlvError) → length xs ≡ n → read_full n e (xs ++ r) ≡ (done xs, r)
unfolding read_full
read_full_exact xs r n e h = rw (← h, long_enough, take_exact xs r, drop_exact xs r)
  where
    long_enough : ltb (length (xs ++ r)) (length xs) ≡ false
    long_enough = ground (arith, length-append xs r)

pub read_lv_exact :
    (buf r : List ℕ)
    → length buf < max_message_size
    → read_lv (put_uint64 (length buf) ++ (buf ++ r)) ≡ (done buf, r)
unfolding read_lv read_sized
read_lv_exact buf r small = rw (
  read_full_exact (put_uint64 (length buf)) (buf ++ r) 8 read_size (length-put_uint64 (length buf)),
  uint64-put_uint64 (length buf) (omega arith),
  not_negative,
  not_large,
  read_full_exact buf r (length buf) read_value refl,
)
  where
    not_negative : leb half_word (length buf) ≡ false
    not_negative = ground arith

    not_large : leb max_message_size (length buf) ≡ false
    not_large = ground arith

-- A record under 1 GB is read back from the front of a stream, and what follows it is left.
pub read_tlv-record_bytes :
    (typ : ℕ) (buf r : List ℕ)
    → length buf < max_message_size
    → read_tlv (record_bytes typ buf ++ r) ≡ (done (typ, buf), r)
unfolding read_tlv read_type_byte
read_tlv-record_bytes typ buf r small = rw (
  read_full_exact (typ ∷ []) ((put_uint64 (length buf) ++ buf) ++ r) 1 read_type refl,
  append_assoc (put_uint64 (length buf)) buf r,
  read_lv_exact buf r small,
)

write_to_room :
    (b : List ℕ) (e : TlvError) (w : Writer)
    → length b ≤ w.room
    → write_to b e w ≡ (done tt, record { written = w.written ++ b; room = w.room - length b })
unfolding write_to
write_to_room b e w h = rw (fits)
  where
    fits : leb (length b) w.room ≡ true
    fits = ground arith

-- A writer with room for the record takes exactly its bytes.
pub write_tlv-record_bytes :
    (typ : ℕ) (buf : List ℕ) (w : Writer)
    → length buf + 9 ≤ w.room
    → (room : ℕ) × (write_tlv typ buf w
        ≡ (done tt, record { written = w.written ++ record_bytes typ buf; room = room }))
unfolding write_tlv write_type_byte write_lv
write_tlv-record_bytes typ buf w h = (
  ((w.room - 1) - length (put_uint64 (length buf))) - length buf,
  rw (
    write_to_room (typ ∷ []) write_type w (omega arith),
    write_to_room (put_uint64 (length buf)) write_size
        (record { written = w.written ++ typ ∷ []; room = w.room - 1 })
        (omega (arith, length-put_uint64 (length buf))),
    write_to_room buf write_value
        (record {
          written = (w.written ++ typ ∷ []) ++ put_uint64 (length buf);
          room = (w.room - 1) - length (put_uint64 (length buf));
        })
        (omega (arith, length-put_uint64 (length buf))),
    append_assoc (w.written ++ typ ∷ []) (put_uint64 (length buf)) buf,
    append_assoc w.written (typ ∷ []) (put_uint64 (length buf) ++ buf),
  ),
)

encode_tlv-eq :
    {V : Type 0} (marshal : V → Option (List ℕ)) (typ : ℕ) (v : V) (buf : List ℕ) (w : Writer)
    → marshal v ≡ some buf
    → encode_tlv marshal typ v w ≡ write_tlv typ buf w
unfolding encode_tlv encode_lv write_tlv
encode_tlv-eq marshal typ v buf w m =
    ap
      (λ o.
        then_write (write_type_byte typ w).0
          (λ x. elim o [ none ↦ (failed marshal_failed, x) | some b ↦ write_lv b x ])
          (write_type_byte typ w).1)
      m

decode_tlv-record_bytes :
    {V : Type 0} (unmarshal : List ℕ → Option V) (typ : ℕ) (v : V) (buf r : List ℕ)
    → unmarshal buf ≡ some v
    → length buf < max_message_size
    → decode_tlv unmarshal (record_bytes typ buf ++ r) ≡ (done (typ, v), r)
unfolding decode_tlv decode_lv read_type_byte
decode_tlv-record_bytes unmarshal typ v buf r u small = rw (
  read_full_exact (typ ∷ []) ((put_uint64 (length buf) ++ buf) ++ r) 1 read_type refl,
  append_assoc (put_uint64 (length buf)) buf r,
  read_lv_exact buf r small,
  u,
)

-- What a client encodes to a new stream is decoded again, and what follows it is left, if its two
-- functions are inverse on the value and its bytes are under 1 GB.
pub decode_tlv-encode_tlv :
    {V : Type 0} (marshal : V → Option (List ℕ)) (unmarshal : List ℕ → Option V) (typ : ℕ) (v : V)
    (buf r : List ℕ) (w : Writer)
    → marshal v ≡ some buf
    → unmarshal buf ≡ some v
    → length buf < max_message_size
    → length buf + 9 ≤ w.room
    → w.written ≡ []
    → ((encode_tlv marshal typ v w).0 ≡ done tt)
      × (decode_tlv unmarshal ((encode_tlv marshal typ v w).1.written ++ r) ≡ (done (typ, v), r))
decode_tlv-encode_tlv marshal unmarshal typ v buf r w m u small room empty =
    let (left, e) = write_tlv-record_bytes typ buf w room in
    let same = encode_tlv-eq marshal typ v buf w m ∙ e in
    rw (same, empty) (refl, decode_tlv-record_bytes unmarshal typ v buf r u small)

-- A record of 1 GB or more is written, but not read: the reader fails after its size.
pub read_tlv_too_large :
    (typ : ℕ) (buf r : List ℕ)
    → max_message_size ≤ length buf
    → length buf < half_word
    → read_tlv (record_bytes typ buf ++ r) ≡ (failed size_exceeded, buf ++ r)
unfolding read_tlv read_type_byte read_lv read_sized
read_tlv_too_large typ buf r large small = rw (
  read_full_exact (typ ∷ []) ((put_uint64 (length buf) ++ buf) ++ r) 1 read_type refl,
  append_assoc (put_uint64 (length buf)) buf r,
  read_full_exact (put_uint64 (length buf)) (buf ++ r) 8 read_size (length-put_uint64 (length buf)),
  uint64-put_uint64 (length buf) (omega arith),
  not_negative,
  too_large,
)
  where
    not_negative : leb half_word (length buf) ≡ false
    not_negative = ground arith

    too_large : leb max_message_size (length buf) ≡ true
    too_large = ground arith

-- ===== src/Tlv.antt =====
-- Records of type, length and value on a stream: tlv/tlv.go. A reader is the bytes that it will give
-- before it ends. A writer keeps what was written, and may take only so many bytes before it fails.
-- A message is a byte, and a value that a client encodes goes through its two functions, which are
-- parameters here.
pub mod Laws
mod Tests
use influxdb_cluster.Prelude.{
  ℕ, zero, suc, ◌+◌, ◌-◌, ◌*◌, Bool, true, false, Option, none, some, List, [], ◌∷◌, ◌++◌, length,
  take, drop, ltb, leb, ◌==◌, if◌then◌else◌,
}
use influxdb_cluster.Prelude.Bytes.{half_word, put_uint64, uint64}

-- `panic` is that of `make` with a negative length.
pub data TlvError : Type 0 where
  read_type read_size read_value size_exceeded write_type write_size write_value : TlvError
  marshal_failed unmarshal_failed panic : TlvError

pub data Outcome (A : Type 0) : Type 0 where
  done : A → Outcome A
  failed : TlvError → Outcome A

-- `MaxMessageSize`, 1 GB.
abbrev pub max_message_size : ℕ
max_message_size = 1024 * 1024 * 1024

-- `io.ReadFull` of `n` bytes: what is there is taken even if it is too short.
unfoldable pub read_full : ℕ → TlvError → List ℕ → Outcome (List ℕ) × List ℕ
read_full n e r = if ltb (length r) n then (failed e, []) else (done (take n r), drop n r)

module _ {A B : Type 0} where
  abbrev pub then_read : Outcome A → (A → List ℕ → Outcome B × List ℕ) → List ℕ → Outcome B × List ℕ
  then_read (done a) f r = f a r
  then_read (failed e) f r = (failed e, r)

  infixl 5 ◌>>=◌
  abbrev pub ◌>>=◌ :
      (List ℕ → Outcome A × List ℕ)
      → (A → List ℕ → Outcome B × List ℕ)
      → List ℕ
      → Outcome B × List ℕ
  ◌>>=◌ m f r = then_read (m r).0 f (m r).1

abbrev pub give : {A : Type 0} → A → List ℕ → Outcome A × List ℕ
give a r = (done a, r)

abbrev first_byte : List ℕ → ℕ
first_byte [] = 0
first_byte (b ∷ bs) = b

unfoldable pub read_type_byte : List ℕ → Outcome ℕ × List ℕ
read_type_byte = do b ← read_full 1 read_type; give (first_byte b)

-- The size is an `int64`: the bound holds for a negative one too, which `make` then refuses.
unfoldable pub read_sized : ℕ → List ℕ → Outcome (List ℕ) × List ℕ
read_sized sz r =
    if leb half_word sz
    then (failed panic, r)
    else if leb max_message_size sz
    then (failed size_exceeded, r)
    else read_full sz read_value r

unfoldable pub read_lv : List ℕ → Outcome (List ℕ) × List ℕ
read_lv = do b ← read_full 8 read_size; read_sized (uint64 b)

unfoldable pub read_tlv : List ℕ → Outcome (ℕ × List ℕ) × List ℕ
read_tlv = do typ ← read_type_byte; buf ← read_lv; give (typ, buf)

-- `room` is how many bytes the writer still takes.
pub record Writer : Type 0 where
  pub written : List ℕ
  pub room : ℕ

unfoldable pub write_to : List ℕ → TlvError → Writer → Outcome (Unit {0}) × Writer
write_to b e w =
    if leb (length b) w.room
    then (done tt, record { written = w.written ++ b; room = w.room - length b })
    else (failed e, record { written = w.written ++ take w.room b; room = 0 })

abbrev pub then_write :
    Outcome (Unit {0})
    → (Writer → Outcome (Unit {0}) × Writer)
    → Writer
    → Outcome (Unit {0}) × Writer
then_write (done _) f w = f w
then_write (failed e) f w = (failed e, w)

unfoldable pub write_type_byte : ℕ → Writer → Outcome (Unit {0}) × Writer
write_type_byte typ = write_to (typ ∷ []) write_type

unfoldable pub write_lv : List ℕ → Writer → Outcome (Unit {0}) × Writer
write_lv buf w =
    let size = write_to (put_uint64 (length buf)) write_size w in
    then_write size.0 (write_to buf write_value) size.1

unfoldable pub write_tlv : ℕ → List ℕ → Writer → Outcome (Unit {0}) × Writer
write_tlv typ buf w = let t = write_type_byte typ w in then_write t.0 (write_lv buf) t.1

module _ {V : Type 0} where
  -- `v.MarshalBinary()` gives bytes or an error.
  unfoldable pub encode_lv : (V → Option (List ℕ)) → V → Writer → Outcome (Unit {0}) × Writer
  encode_lv marshal v w = elim (marshal v) [
    | none ↦ (failed marshal_failed, w)
    | some buf ↦ write_lv buf w
  ]

  unfoldable pub encode_tlv : (V → Option (List ℕ)) → ℕ → V → Writer → Outcome (Unit {0}) × Writer
  encode_tlv marshal typ v w =
      let t = write_type_byte typ w in then_write t.0 (encode_lv marshal v) t.1

  abbrev pub unmarshalled : Option V → List ℕ → Outcome V × List ℕ
  unmarshalled none r = (failed unmarshal_failed, r)
  unmarshalled (some v) r = (done v, r)

  unfoldable pub decode_lv : (List ℕ → Option V) → List ℕ → Outcome V × List ℕ
  decode_lv unmarshal = read_lv >>= λ buf. unmarshalled (unmarshal buf)

  unfoldable pub decode_tlv : (List ℕ → Option V) → List ℕ → Outcome (ℕ × V) × List ℕ
  decode_tlv unmarshal = do typ ← read_type_byte; v ← decode_lv unmarshal; give (typ, v)

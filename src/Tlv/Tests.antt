-- ===== src/Tlv/Tests.antt =====
-- The theorems on tlv/tlv.go at concrete data.
use influxdb_cluster.Prelude.{
  ℕ, zero, suc, ◌≡◌, refl, Option, none, some, List, [], ◌∷◌, ◌++◌, length, replicate, arith,
}
use influxdb_cluster.Tlv.{done, Writer, write_tlv, encode_tlv, decode_tlv}
use influxdb_cluster.Tlv.Laws.{record_bytes, write_tlv-record_bytes, decode_tlv-encode_tlv}

abbrev writer : Writer
writer = record { written = []; room = 50 }

write_tlv-record_bytes_example :
    (room : ℕ) × (write_tlv 3 (7 ∷ 8 ∷ []) writer
      ≡ (done tt, record { written = record_bytes 3 (7 ∷ 8 ∷ []); room = room }))
write_tlv-record_bytes_example = write_tlv-record_bytes 3 (7 ∷ 8 ∷ []) writer (omega arith)

-- A value that is a list of bytes, which is marshalled behind a mark.
abbrev marshal : List ℕ → Option (List ℕ)
marshal v = some (1 ∷ v)

abbrev unmarshal : List ℕ → Option (List ℕ)
unmarshal [] = none
unmarshal (b ∷ bs) = some bs

decode_tlv-encode_tlv_example :
    ((encode_tlv marshal 3 (7 ∷ []) writer).0 ≡ done tt)
    × (decode_tlv unmarshal ((encode_tlv marshal 3 (7 ∷ []) writer).1.written ++ 9 ∷ [])
        ≡ (done (3, 7 ∷ []), 9 ∷ []))
decode_tlv-encode_tlv_example =
    decode_tlv-encode_tlv marshal unmarshal 3 (7 ∷ []) (1 ∷ 7 ∷ []) (9 ∷ []) writer refl refl
      (omega arith) (omega arith) refl

length-replicate : {A : Type 0} (n : ℕ) (a : A) → length (replicate n a) ≡ n
length-replicate zero a = refl
length-replicate (suc n) a = omega (arith, length-replicate n a)

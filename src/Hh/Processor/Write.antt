-- ===== src/Hh/Processor/Write.antt =====
-- marshalWrite and unmarshalWrite of hh/node_processor.go. `to_string` is the method String of a
-- point, and `parse_points` is `models.ParsePoints`.
use influxdb_cluster.Prelude.{
  ℕ, ◌<◌, ◌≡◌, sym, ap, ◌∙◌, false, List, [], ◌∷◌, ◌++◌, length, take, drop, take_exact, drop_exact,
  length-append, ltb, if◌then◌else◌, arith,
}
use influxdb_cluster.Prelude.Bytes.{word, put_uint64, uint64, length-put_uint64, uint64-put_uint64}
use influxdb_cluster.Hh.Exec.{Result, ok, err, too_short}

long_enough : (v : ℕ) (bs : List ℕ) → ltb (length (put_uint64 v ++ bs)) 8 ≡ false
long_enough v bs = ground (arith, length-append (put_uint64 v) bs, length-put_uint64 v)

take_word : (v : ℕ) (bs : List ℕ) → take 8 (put_uint64 v ++ bs) ≡ put_uint64 v
take_word v bs =
    ap (λ n. take n (put_uint64 v ++ bs)) (sym (length-put_uint64 v)) ∙ take_exact (put_uint64 v) bs

drop_word : (v : ℕ) (bs : List ℕ) → drop 8 (put_uint64 v ++ bs) ≡ bs
drop_word v bs =
    ap (λ n. drop n (put_uint64 v ++ bs)) (sym (length-put_uint64 v)) ∙ drop_exact (put_uint64 v) bs

module _ {Point : Type 0} where
  -- The points as lines.
  unfoldable pub lines : (Point → List ℕ) → List Point → List ℕ
  lines to_string [] = []
  lines to_string (p ∷ ps) = to_string p ++ b'\n' ∷ lines to_string ps

  unfoldable pub marshal_write : (Point → List ℕ) → ℕ → List Point → List ℕ
  marshal_write to_string shard_id points = put_uint64 shard_id ++ lines to_string points

  abbrev pub with_owner : ℕ → Result (List Point) → Result (ℕ × List Point)
  with_owner owner (ok points) = ok (owner, points)
  with_owner owner (err e) = err e

  unfoldable pub unmarshal_write : (List ℕ → Result (List Point)) → List ℕ → Result (ℕ × List Point)
  unmarshal_write parse_points b =
      if ltb (length b) 8
      then err too_short
      else with_owner (uint64 (take 8 b)) (parse_points (drop 8 b))

  -- What was marshalled is unmarshalled again, for points whose lines `ParsePoints` reads back.
  pub unmarshal_write-marshal_write :
      (to_string : Point → List ℕ) (parse_points : List ℕ → Result (List Point)) (shard_id : ℕ)
      (points : List Point)
      → parse_points (lines to_string points) ≡ ok points
      → shard_id < word
      → unmarshal_write parse_points (marshal_write to_string shard_id points)
        ≡ ok (shard_id, points)
  unfolding marshal_write unmarshal_write
  unmarshal_write-marshal_write to_string parse_points shard_id points parsed small = rw (
    long_enough shard_id (lines to_string points),
    take_word shard_id (lines to_string points),
    drop_word shard_id (lines to_string points),
    uint64-put_uint64 shard_id small,
    parsed,
  )

-- ===== src/Prelude/Bytes.antt =====
-- Bytes and 64-bit words. A byte slice is a list of numbers, a word of 64 bits is a number that is
-- reduced modulo 2 ^ 64, and an `int64` is kept as its two's complement bit pattern.
use Prim.Native.Nat.{ℕ, zero, suc, ◌+◌, ◌-◌, ◌*◌, ◌/◌, ◌%◌, ◌^◌, ◌<◌}
use mathlib.Core.Path.{◌≡◌, refl}
use mathlib.Core.Bool.{Bool}
use mathlib.Core.List.{List, [], ◌∷◌, ◌++◌}
use native.Mathlib.Omega.{arith}
use native.Mathlib.Nat.{pow-suc}
use influxdb_cluster.Prelude.Tests.{ltb}
use influxdb_cluster.Prelude.Lists.{length, length-append}

abbrev pub word : ℕ
word = 2 ^ 64

abbrev pub half_word : ℕ
half_word = 2 ^ 63

-- Sums and differences wrap around.
abbrev pub add64 : ℕ → ℕ → ℕ
add64 a b = (a + b) % word

abbrev pub sub64 : ℕ → ℕ → ℕ
sub64 a b = (a + word - b) % word

-- `a < b` of two `int64` given by their bit patterns.
abbrev pub lt_int64 : ℕ → ℕ → Bool
lt_int64 a b = ltb ((a + half_word) % word) ((b + half_word) % word)

-- `k` bytes of `v`, the most significant first.
pub big_endian : ℕ → ℕ → List ℕ
big_endian zero v = []
big_endian (suc k) v = big_endian k (v / 256) ++ v % 256 ∷ []

pub value_from : ℕ → List ℕ → ℕ
value_from acc [] = acc
value_from acc (b ∷ bs) = value_from (acc * 256 + b) bs

-- `binary.BigEndian.PutUint64` and `binary.BigEndian.Uint64`.
unfoldable pub put_uint64 : ℕ → List ℕ
unfolding big_endian
put_uint64 v = big_endian 8 v

unfoldable pub uint64 : List ℕ → ℕ
unfolding value_from
uint64 bs = value_from 0 bs

length-big_endian : (k v : ℕ) → length (big_endian k v) ≡ k
unfolding big_endian
length-big_endian zero v = refl
length-big_endian (suc k) v =
    omega
      (arith, length-append (big_endian k (v / 256)) (v % 256 ∷ []), length-big_endian k (v / 256))

value_from-append :
    (acc : ℕ) (xs ys : List ℕ) → value_from acc (xs ++ ys) ≡ value_from (value_from acc xs) ys
unfolding value_from
value_from-append acc [] ys = refl
value_from-append acc (x ∷ xs) ys = value_from-append (acc * 256 + x) xs ys

value_from-big_endian : (k v : ℕ) → v < 256 ^ k → value_from 0 (big_endian k v) ≡ v
unfolding big_endian value_from
value_from-big_endian zero v h = omega arith
value_from-big_endian (suc k) v h =
    rw (value_from-append 0 (big_endian k (v / 256)) (v % 256 ∷ []))
      (omega (arith, value_from-big_endian k (v / 256) (omega (arith, pow-suc 256 k))))

pub length-put_uint64 : (v : ℕ) → length (put_uint64 v) ≡ 8
unfolding put_uint64
length-put_uint64 v = length-big_endian 8 v

-- A word is read back as it was written.
pub uint64-put_uint64 : (v : ℕ) → v < word → uint64 (put_uint64 v) ≡ v
unfolding put_uint64 uint64
uint64-put_uint64 v h = value_from-big_endian 8 v h

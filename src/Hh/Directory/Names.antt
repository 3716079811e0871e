-- ===== src/Hh/Directory/Names.antt =====
-- Numbers as names of files: strconv.FormatUint and strconv.ParseUint, in base 10 and 64 bits.
use influxdb_cluster.Prelude.{
  ℕ, zero, suc, ◌+◌, ◌-◌, ◌*◌, ◌/◌, ◌%◌, ◌^◌, ◌<◌, ◌≡◌, refl, ap, ◌∙◌, inl, inr, Bool-cases, ltb→lt,
  Option, none, some, [], ◌∷◌, ◌++◌, ltb, leb, ◌&&◌, if◌then◌else◌, arith,
}
use native.Mathlib.Nat.{pow-suc}
use influxdb_cluster.Prelude.Bytes.{word}
use influxdb_cluster.Hh.Os.{FileName}

-- The fuel is the number of digits at most.
unfoldable pub digits : ℕ → ℕ → FileName
digits zero n = []
digits (suc fuel) n =
    let rest = digits fuel (n / 10) ++ (b'0' + n % 10) ∷ [] in
    if ltb n 10 then (b'0' + n) ∷ [] else rest

-- A number of 64 bits has 20 digits at most.
unfoldable pub format_uint : ℕ → FileName
format_uint n = digits 20 n

unfoldable pub parse_digits : ℕ → FileName → Option ℕ
parse_digits acc [] = some acc
parse_digits acc (c ∷ cs) =
    let next = acc * 10 + (c - b'0') in
    let rest = parse_digits next cs in
    if leb b'0' c && (leb c b'9' && ltb next word) then rest else none

unfoldable pub parse_uint : FileName → Option ℕ
unfolding parse_digits
parse_uint [] = none
parse_uint (c ∷ cs) = parse_digits 0 (c ∷ cs)

parse_digits-append :
    (acc v d : ℕ) (cs : FileName)
    → parse_digits acc cs ≡ some v
    → d < 10
    → v * 10 + d < word
    → parse_digits acc (cs ++ (b'0' + d) ∷ []) ≡ some (v * 10 + d)
unfolding parse_digits
parse_digits-append acc v d [] e h k = ground arith
parse_digits-append acc v d (c ∷ cs) e h k =
    ground (arith, parse_digits-append (acc * 10 + (c - b'0')) v d cs)

parse_digits_one : (n : ℕ) → n < 10 → parse_digits 0 ((b'0' + n) ∷ []) ≡ some n
unfolding parse_digits
parse_digits_one n h = ground arith

parse_digits-digits :
    (fuel n : ℕ) → n < 10 ^ suc fuel → n < word → parse_digits 0 (digits (suc fuel) n) ≡ some n
unfolding digits
parse_digits-digits zero n h w = ground (arith, parse_digits_one n)
parse_digits-digits (suc fuel) n h w = elim (Bool-cases (ltb n 10)) [
  | inl small ↦ rw small (parse_digits_one n (ltb→lt n 10 small))
  | inr large ↦ rw large (
      parse_digits-append 0 (n / 10) (n % 10) (digits (suc fuel) (n / 10))
        (parse_digits-digits fuel (n / 10) (omega (arith, pow-suc 10 (suc fuel))) (omega arith))
        (omega arith) (omega arith)
      ∙ ap some (omega arith))
]

parse_uint_cons :
    (cs : FileName) (c : ℕ) → parse_uint (cs ++ c ∷ []) ≡ parse_digits 0 (cs ++ c ∷ [])
unfolding parse_uint
parse_uint_cons [] c = refl
parse_uint_cons (x ∷ cs) c = refl

parse_uint-digits :
    (fuel n : ℕ) → parse_uint (digits (suc fuel) n) ≡ parse_digits 0 (digits (suc fuel) n)
unfolding digits
parse_uint-digits fuel n = elim (Bool-cases (ltb n 10)) [
  | inl small ↦ rw small (parse_uint_cons [] (b'0' + n))
  | inr large ↦ rw large (parse_uint_cons (digits fuel (n / 10)) (b'0' + n % 10))
]

-- A name that is made of a number is read back as that number.
pub parse_uint-format_uint : (n : ℕ) → n < word → parse_uint (format_uint n) ≡ some n
unfolding format_uint
parse_uint-format_uint n h = parse_uint-digits 19 n ∙ parse_digits-digits 19 n (omega arith) h

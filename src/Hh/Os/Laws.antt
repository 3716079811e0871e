-- ===== src/Hh/Os/Laws.antt =====
-- What the file calls do when they succeed.
use influxdb_cluster.Prelude.{
  ℕ, ◌+◌, ◌-◌, ◌≤◌, ◌<◌, ◌≡◌, ap, List, [], ◌++◌, append-nil, length, replicate, take_exact,
  drop_exact, drop_all, length-append, arith,
}
use influxdb_cluster.Prelude.Bytes.{sub64, half_word}
use influxdb_cluster.Hh.Exec.{ok}
use influxdb_cluster.Hh.Os.{File, overwrite, write, read, seek_start, seek_end}

-- A file on which every call succeeds.
abbrev pub healthy : List ℕ → ℕ → File
healthy bytes cursor = record { bytes = bytes; cursor = cursor; outcomes = [] }

overwrite_suffix :
    (xs ys b : List ℕ) → length ys ≤ length b → overwrite (length xs) b (xs ++ ys) ≡ xs ++ b
unfolding overwrite
overwrite_suffix xs ys b h =
    rw (take_exact xs ys, no_gap, drop_all (length xs + length b) (xs ++ ys) short, append-nil b)
  where
    short : length (xs ++ ys) ≤ length xs + length b
    short = omega (arith, length-append xs ys)

    no_gap : replicate {A = ℕ} (length xs - length (xs ++ ys)) 0 ≡ []
    no_gap = ap (λ n. replicate {A = ℕ} n 0) {y = 0} (omega (arith, length-append xs ys))

-- A write that reaches the end of the file.
pub write_suffix :
    (xs ys b : List ℕ)
    → length ys ≤ length b
    → write b (healthy (xs ++ ys) (length xs))
      ≡ (ok (length b), healthy (xs ++ b) (length (xs ++ b)))
unfolding write
write_suffix xs ys b h = rw (overwrite_suffix xs ys b h, length-append xs b)

pub write_end :
    (xs b : List ℕ)
    → write b (healthy xs (length xs)) ≡ (ok (length b), healthy (xs ++ b) (length (xs ++ b)))
write_end xs b = rw (append-nil xs) at (write_suffix xs [] b (omega arith))

pub seek_end_footer :
    (xs ys : List ℕ) (c : ℕ)
    → length ys ≡ 8
    → length xs + 8 < half_word
    → seek_end (sub64 0 8) (healthy (xs ++ ys) c) ≡ (ok (length xs), healthy (xs ++ ys) (length xs))
unfolding seek_end
seek_end_footer xs ys c e h = ground (arith, length-append xs ys)

pub seek_start_lem :
    (bytes : List ℕ) (c pos : ℕ)
    → pos < half_word
    → seek_start pos (healthy bytes c) ≡ (ok pos, healthy bytes pos)
unfolding seek_start
seek_start_lem bytes c pos h = ground arith

-- A read in the middle of a file.
pub read_middle :
    (xs b ys : List ℕ) (c n : ℕ)
    → c ≡ length xs
    → n ≡ length b
    → 0 < n
    → read n (healthy (xs ++ (b ++ ys)) c) ≡ (ok b, healthy (xs ++ (b ++ ys)) (c + n))
unfolding read
read_middle xs b ys c n e l h = rw (e, drop_exact xs (b ++ ys), l, take_exact b ys) (ground arith)

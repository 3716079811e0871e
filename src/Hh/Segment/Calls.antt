-- ===== src/Hh/Segment/Calls.antt =====
-- The small methods of a segment, on a file on which every call succeeds.
use influxdb_cluster.Prelude.{ℕ, ◌+◌, ◌≤◌, ◌<◌, ◌≡◌, refl, List, ◌++◌, length, arith, ==_self}
use influxdb_cluster.Prelude.Bytes.{
  half_word, word, put_uint64, length-put_uint64, uint64-put_uint64,
}
use influxdb_cluster.Hh.Exec.{ok}
use influxdb_cluster.Hh.Os.{FileName, sync}
use influxdb_cluster.Hh.Os.Laws.{
  write_suffix, write_end, seek_end_footer, seek_start_lem, read_middle,
}
use influxdb_cluster.Hh.Segment.{
  seek, seek_to_current, seek_footer, write_bytes, read_bytes, read_uint64, sync_file,
}
use influxdb_cluster.Hh.Segment.Layout.{segment_over}

module _ (size : ℕ) (path : FileName) (pos current_size max_size : ℕ) where
  pub seek_footer_lem :
      (xs ys : List ℕ) (c : ℕ)
      → length ys ≡ 8
      → length xs + 8 < half_word
      → seek_footer (segment_over (xs ++ ys) c size path pos current_size max_size)
        ≡ (ok tt, segment_over (xs ++ ys) (length xs) size path pos current_size max_size)
  unfolding seek_footer
  seek_footer_lem xs ys c e h = rw (seek_end_footer xs ys c e h)

  pub write_bytes_suffix :
      (xs ys b : List ℕ)
      → length ys ≤ length b
      → write_bytes b (segment_over (xs ++ ys) (length xs) size path pos current_size max_size)
        ≡ (ok tt, segment_over (xs ++ b) (length (xs ++ b)) size path pos current_size max_size)
  unfolding write_bytes
  write_bytes_suffix xs ys b h = rw (write_suffix xs ys b h, ==_self (length b))

  pub write_bytes_end :
      (xs b : List ℕ)
      → write_bytes b (segment_over xs (length xs) size path pos current_size max_size)
        ≡ (ok tt, segment_over (xs ++ b) (length (xs ++ b)) size path pos current_size max_size)
  unfolding write_bytes
  write_bytes_end xs b = rw (write_end xs b, ==_self (length b))

  pub sync_file_lem :
      (bytes : List ℕ) (c : ℕ)
      → sync_file (segment_over bytes c size path pos current_size max_size)
        ≡ (ok tt, segment_over bytes c size path pos current_size max_size)
  unfolding sync_file sync
  sync_file_lem bytes c = refl

  pub seek_to_current_lem :
      (bytes : List ℕ) (c : ℕ)
      → pos < half_word
      → seek_to_current (segment_over bytes c size path pos current_size max_size)
        ≡ (ok tt, segment_over bytes pos size path pos current_size max_size)
  unfolding seek_to_current seek
  seek_to_current_lem bytes c h = rw (seek_start_lem bytes c pos h, ==_self pos)

  pub read_bytes_lem :
      (bytes xs b ys : List ℕ) (c n : ℕ)
      → bytes ≡ xs ++ (b ++ ys)
      → c ≡ length xs
      → n ≡ length b
      → 0 < n
      → read_bytes n (segment_over bytes c size path pos current_size max_size)
        ≡ (ok b, segment_over bytes (c + n) size path pos current_size max_size)
  unfolding read_bytes
  read_bytes_lem bytes xs b ys c n whole e l h =
      rw (whole, read_middle xs b ys c n e l h, l, ==_self (length b))

  pub read_uint64_lem :
      (bytes xs ys : List ℕ) (c v : ℕ)
      → bytes ≡ xs ++ (put_uint64 v ++ ys)
      → c ≡ length xs
      → v < word
      → read_uint64 (segment_over bytes c size path pos current_size max_size)
        ≡ (ok v, segment_over bytes (c + 8) size path pos current_size max_size)
  unfolding read_uint64
  read_uint64_lem bytes xs ys c v whole e h = rw (
    read_bytes_lem bytes xs (put_uint64 v) ys c 8 whole e (omega (arith, length-put_uint64 v))
        (omega arith),
    uint64-put_uint64 v h,
  )

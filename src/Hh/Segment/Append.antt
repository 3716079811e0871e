-- ===== src/Hh/Segment/Append.antt =====
-- What append does to the blocks of a segment.
use influxdb_cluster.Prelude.{
  ℕ, ◌+◌, ◌≤◌, ◌<◌, ◌≡◌, refl, ◌∙◌, true, false, List, [], ◌∷◌, ◌++◌, length, length-append, ◌==◌,
  arith, if◌then◌else◌, All,
}
use influxdb_cluster.Prelude.Bytes.{add64, lt_int64, half_word, put_uint64, length-put_uint64}
use influxdb_cluster.Hh.Exec.{ok, err, segment_full}
use influxdb_cluster.Hh.Os.{FileName}
use influxdb_cluster.Hh.Segment.{append, is_nil, write_uint64}
use influxdb_cluster.Hh.Segment.Calls.{
  seek_footer_lem, write_bytes_suffix, write_bytes_end, sync_file_lem,
}
use influxdb_cluster.Hh.Segment.Layout.{
  frames, head_size, blocks, segment_over, segment_of, blocks-append, length-blocks-append,
}

-- An append in terms of the bytes: the footer moves behind the new block.
append_bytes :
    (xs ys b : List ℕ) (c size : ℕ) (path : FileName) (pos current_size max_size : ℕ)
    → length ys ≡ 8
    → length xs + 8 < half_word
    → lt_int64 max_size (add64 size (length b)) ≡ false
    → append b (segment_over (xs ++ ys) c size path pos current_size max_size) ≡ (
      ok tt,
      segment_over
          (((xs ++ put_uint64 (length b)) ++ b) ++ put_uint64 pos)
          (length (((xs ++ put_uint64 (length b)) ++ b) ++ put_uint64 pos))
          (add64 size (add64 (length b) 8))
          path
          pos
          (if current_size == 0 then length b else current_size)
          max_size,
    )
unfolding append is_nil write_uint64
append_bytes xs ys b c size path pos cur max e h fits = rw (
  fits,
  seek_footer_lem size path pos cur max xs ys c e h,
  write_bytes_suffix size path pos cur max xs ys (put_uint64 (length b))
      (omega (arith, length-put_uint64 (length b))),
  write_bytes_end size path pos cur max (xs ++ put_uint64 (length b)) b,
  write_bytes_end size path pos cur max ((xs ++ put_uint64 (length b)) ++ b) (put_uint64 pos),
  sync_file_lem,
)

head_size-append :
    (held : List (List ℕ)) (b : List ℕ)
    → All (λ r. 0 < length r) held
    → (if head_size held == 0 then length b else head_size held) ≡ head_size (held ++ b ∷ [])
unfolding head_size
head_size-append [] b h = refl
head_size-append (r ∷ rs) b h = ground arith

-- The test of the size does not wrap around.
not_full :
    (max_size n b : ℕ)
    → n + 8 + b ≤ max_size
    → max_size + 16 ≤ half_word
    → lt_int64 max_size (add64 (n + 8) b) ≡ false
not_full max_size n b fits bound = ground arith

size_after : (n b : ℕ) → n + 8 + b + 16 ≤ half_word → add64 (n + 8) (add64 b 8) ≡ n + 8 + b + 8
size_after n b small = omega arith

-- An append that fits puts its block behind those that the segment holds, wherever the cursor was.
pub append_lem :
    (path : FileName) (max_size : ℕ) (passed held : List (List ℕ)) (cursor : ℕ) (b : List ℕ)
    → All (λ r. 0 < length r) held
    → length (blocks passed held) + 8 + length b ≤ max_size
    → max_size + 16 ≤ half_word
    → append b (segment_of path max_size passed held cursor) ≡ (
      ok tt,
      segment_of path max_size passed
          (held ++ b ∷ [])
          (length (blocks passed (held ++ b ∷ [])) + 8),
    )
unfolding segment_of
append_lem path max passed held cursor b full fits bound =
    append_bytes (blocks passed held) (put_uint64 (length (frames passed))) b cursor
      (length (blocks passed held) + 8) path (length (frames passed)) (head_size held) max
      (length-put_uint64 _) (omega arith)
      (not_full max (length (blocks passed held)) (length b) fits bound)
    ∙ rw (
      ← blocks-append passed held b,
      head_size-append held b full,
      length-append (blocks passed (held ++ b ∷ [])) (put_uint64 (length (frames passed))),
      length-put_uint64 (length (frames passed)),
      size_after (length (blocks passed held)) (length b) (omega arith),
      length-blocks-append passed held b,
    )

-- One that does not fit is refused, and nothing changes.
pub append_full :
    (path : FileName) (max_size : ℕ) (passed held : List (List ℕ)) (cursor : ℕ) (b : List ℕ)
    → max_size < length (blocks passed held) + 8 + length b
    → length (blocks passed held) + 8 + length b < half_word
    → append b (segment_of path max_size passed held cursor)
      ≡ (err segment_full, segment_of path max_size passed held cursor)
unfolding segment_of append is_nil
append_full path max passed held cursor b over small = rw (too_full)
  where
    too_full : lt_int64 max (add64 (length (blocks passed held) + 8) (length b)) ≡ true
    too_full = ground arith

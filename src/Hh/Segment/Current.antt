-- ===== src/Hh/Segment/Current.antt =====
-- What current reads from a segment.
use influxdb_cluster.Prelude.{
  ℕ, ◌+◌, ◌≤◌, ◌<◌, ◌≡◌, refl, ◌∙◌, true, false, List, [], ◌∷◌, ◌++◌, append_assoc, length,
  length-append, ◌==◌, leb, arith,
}
use influxdb_cluster.Prelude.Bytes.{sub64, lt_int64, half_word, put_uint64, length-put_uint64}
use influxdb_cluster.Hh.Exec.{ok, err, eof}
use influxdb_cluster.Hh.Os.{FileName}
use influxdb_cluster.Hh.Segment.{current}
use influxdb_cluster.Hh.Segment.Calls.{seek_to_current_lem, read_uint64_lem, read_bytes_lem}
use influxdb_cluster.Hh.Segment.Layout.{frames, head_size, blocks, segment_of}

-- The bytes of a segment that holds a block, split at that block.
pub bytes_at_head :
    (passed held : List (List ℕ)) (r : List ℕ)
    → blocks passed (r ∷ held) ++ put_uint64 (length (frames passed))
      ≡ frames passed
        ++ (put_uint64 (length r) ++ (r ++ (frames held ++ put_uint64 (length (frames passed)))))
unfolding frames
bytes_at_head passed held r = simp append_assoc

-- The position is the end of the file only if no block is held.
pub not_at_end :
    (passed held : List (List ℕ)) (r : List ℕ)
    → length (blocks passed (r ∷ held)) + 8 < half_word
    → (length (frames passed) == sub64 (length (blocks passed (r ∷ held)) + 8) 8) ≡ false
unfolding frames
not_at_end passed held r small = ground (
  arith,
  length-append (frames passed) (frames (r ∷ held)),
  length-append (put_uint64 (length r)) (r ++ frames held),
  length-put_uint64 (length r),
)

pub at_end :
    (passed : List (List ℕ))
    → length (blocks passed []) + 8 < half_word
    → (length (frames passed) == sub64 (length (blocks passed []) + 8) 8) ≡ true
unfolding frames
at_end passed small = ground (arith, length-append (frames passed) [])

-- `current` gives the first block that the segment holds, which stays there.
pub current_lem :
    (path : FileName) (max_size : ℕ) (passed held : List (List ℕ)) (cursor : ℕ) (r : List ℕ)
    → 0 < length r
    → length r ≤ max_size
    → max_size < half_word
    → length (blocks passed (r ∷ held)) + 8 < half_word
    → current (segment_of path max_size passed (r ∷ held) cursor)
      ≡ (ok r, segment_of path max_size passed (r ∷ held) (length (frames passed) + 8 + length r))
unfolding segment_of current head_size
current_lem path max passed held cursor r some_bytes fits bound small = rw (
  not_at_end passed held r small,
  seek_to_current_lem size path pos (length r) max bytes cursor
      (omega (arith, length-append (frames passed) (frames (r ∷ held)))),
  read_uint64_lem size path pos (length r) max bytes (frames passed) (r ++ rest) pos (length r)
      (bytes_at_head passed held r) refl (omega arith),
  in_range,
  not_negative,
  read_bytes_lem size path pos (length r) max bytes (frames passed ++ put_uint64 (length r)) r rest
      (pos + 8) (length r) split
      (omega (
        arith,
        length-append (frames passed) (put_uint64 (length r)),
        length-put_uint64 (length r),
      ))
      refl some_bytes,
)
  where
    size : ℕ
    size = length (blocks passed (r ∷ held)) + 8

    pos : ℕ
    pos = length (frames passed)

    bytes : List ℕ
    bytes = blocks passed (r ∷ held) ++ put_uint64 pos

    rest : List ℕ
    rest = frames held ++ put_uint64 pos

    in_range : lt_int64 max (length r) ≡ false
    in_range = ground arith

    split : bytes ≡ (frames passed ++ put_uint64 (length r)) ++ (r ++ rest)
    split = bytes_at_head passed held r ∙ simp append_assoc

    not_negative : leb half_word (length r) ≡ false
    not_negative = ground arith

-- With no block held it is `io.EOF`.
pub current_eof :
    (path : FileName) (max_size : ℕ) (passed : List (List ℕ)) (cursor : ℕ)
    → length (blocks passed []) + 8 < half_word
    → current (segment_of path max_size passed [] cursor)
      ≡ (err eof, segment_of path max_size passed [] cursor)
unfolding segment_of current
current_eof path max passed cursor small = rw (at_end passed small)

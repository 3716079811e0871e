-- ===== src/Hh/Segment/Advance.antt =====
-- What advance does to the blocks of a segment.
use influxdb_cluster.Prelude.{
  ℕ, ◌+◌, ◌<◌, ◌≡◌, refl, sym, ap, ◌∙◌, true, false, List, [], ◌∷◌, ◌++◌, append_assoc, append-nil,
  length, length-append, ◌==◌, arith,
}
use influxdb_cluster.Prelude.Bytes.{add64, sub64, half_word, word, put_uint64, length-put_uint64}
use influxdb_cluster.Hh.Exec.{ok, err, eof}
use influxdb_cluster.Hh.Os.{FileName}
use influxdb_cluster.Hh.Segment.{advance, is_nil, write_uint64}
use influxdb_cluster.Hh.Segment.Calls.{
  seek_footer_lem, write_bytes_suffix, sync_file_lem, seek_to_current_lem, read_uint64_lem,
}
use influxdb_cluster.Hh.Segment.Layout.{
  frames, head_size, blocks, segment_of, frames-append, length-frames-append, length-frames-cons,
}
use influxdb_cluster.Hh.Segment.Current.{bytes_at_head, not_at_end, at_end}

-- A block that is passed stays where it stands in the file.
pub blocks_shift :
    (passed held : List (List ℕ)) (r : List ℕ)
    → blocks (passed ++ r ∷ []) held ≡ blocks passed (r ∷ held)
blocks_shift passed held r = rw (frames-append passed r) (unfold frames in simp append_assoc)

-- The new position is that of the next block.
next_position :
    (passed held : List (List ℕ)) (r : List ℕ)
    → length (blocks passed (r ∷ held)) + 8 < half_word
    → add64 (add64 (length (frames passed)) (length r)) 8 ≡ length (frames (passed ++ r ∷ []))
next_position passed held r small = omega (
  arith,
  length-frames-append passed r,
  ap length (blocks_shift passed held r),
  length-append (frames (passed ++ r ∷ [])) (frames held),
)

position_fits :
    (passed held : List (List ℕ)) (r : List ℕ)
    → length (blocks passed (r ∷ held)) + 8 < half_word
    → length (frames (passed ++ r ∷ [])) < half_word
position_fits passed held r small = omega (
  arith,
  ap length (blocks_shift passed held r),
  length-append (frames (passed ++ r ∷ [])) (frames held),
)

-- `advance` passes the first block; with another one behind it, it succeeds.
pub advance_next :
    (path : FileName) (max_size : ℕ) (passed held : List (List ℕ)) (cursor : ℕ) (r q : List ℕ)
    → length (blocks passed (r ∷ q ∷ held)) + 8 < half_word
    → advance (segment_of path max_size passed (r ∷ q ∷ held) cursor) ≡ (
      ok tt,
      segment_of path max_size
          (passed ++ r ∷ [])
          (q ∷ held)
          (length (frames (passed ++ r ∷ [])) + 8),
    )
unfolding segment_of advance is_nil write_uint64 head_size
advance_next path max passed held cursor r q small = rw (
  not_at_end passed (q ∷ held) r small,
  next_position passed (q ∷ held) r small,
  seek_footer_lem size path pos (length r) max old (put_uint64 pos) cursor (length-put_uint64 pos)
      (omega arith),
  write_bytes_suffix size path pos (length r) max old (put_uint64 pos) (put_uint64 pos')
      (omega (arith, length-put_uint64 pos, length-put_uint64 pos')),
  sync_file_lem size path pos (length r) max,
  seek_to_current_lem size path pos' (length r) max (old ++ put_uint64 pos')
      (length (old ++ put_uint64 pos')) (position_fits passed (q ∷ held) r small),
  read_uint64_lem size path pos' (length r) max (old ++ put_uint64 pos') (frames (passed ++ r ∷ []))
      (q ++ (frames held ++ put_uint64 pos')) pos' (length q) whole refl word_fits,
  not_last,
  ← blocks_shift passed (q ∷ held) r,
)
  where
    old : List ℕ
    old = blocks passed (r ∷ q ∷ held)

    size : ℕ
    size = length old + 8

    pos : ℕ
    pos = length (frames passed)

    pos' : ℕ
    pos' = length (frames (passed ++ r ∷ []))

    word_fits : length q < word
    word_fits = omega (
      arith,
      length-append (frames passed) (frames (r ∷ q ∷ held)),
      length-frames-cons r (q ∷ held),
      length-frames-cons q held,
    )

    not_last : (pos' == sub64 size 8) ≡ false
    not_last =
        rw (blocks_shift passed (q ∷ held) r) at
          (not_at_end (passed ++ r ∷ []) held q (rw (blocks_shift passed (q ∷ held) r) small))

    whole :
        old ++ put_uint64 pos'
        ≡ frames (passed ++ r ∷ [])
          ++ (put_uint64 (length q) ++ (q ++ (frames held ++ put_uint64 pos')))
    whole =
        ap (λ bs. bs ++ put_uint64 pos') (sym (blocks_shift passed (q ∷ held) r))
        ∙ bytes_at_head (passed ++ r ∷ []) held q

-- Passing the last block gives `io.EOF`, and still passes it.
pub advance_last :
    (path : FileName) (max_size : ℕ) (passed : List (List ℕ)) (cursor : ℕ) (r : List ℕ)
    → length (blocks passed (r ∷ [])) + 8 < half_word
    → advance (segment_of path max_size passed (r ∷ []) cursor) ≡ (
      err eof,
      segment_of path max_size (passed ++ r ∷ []) [] (length (frames (passed ++ r ∷ [])) + 8),
    )
unfolding segment_of advance is_nil write_uint64 head_size
advance_last path max passed cursor r small = rw (
  not_at_end passed [] r small,
  next_position passed [] r small,
  seek_footer_lem size path pos (length r) max old (put_uint64 pos) cursor (length-put_uint64 pos)
      (omega arith),
  write_bytes_suffix size path pos (length r) max old (put_uint64 pos) (put_uint64 pos')
      (omega (arith, length-put_uint64 pos, length-put_uint64 pos')),
  sync_file_lem size path pos (length r) max,
  seek_to_current_lem size path pos' (length r) max (old ++ put_uint64 pos')
      (length (old ++ put_uint64 pos')) (position_fits passed [] r small),
  read_uint64_lem size path pos' (length r) max (old ++ put_uint64 pos') (frames (passed ++ r ∷ []))
      [] pos' pos' whole refl word_fits,
  last,
  ← blocks_shift passed [] r,
)
  where
    old : List ℕ
    old = blocks passed (r ∷ [])

    size : ℕ
    size = length old + 8

    pos : ℕ
    pos = length (frames passed)

    pos' : ℕ
    pos' = length (frames (passed ++ r ∷ []))

    word_fits : pos' < word
    word_fits = omega (arith, position_fits passed [] r small)

    last : (pos' == sub64 size 8) ≡ true
    last =
        rw (blocks_shift passed [] r) at
          (at_end (passed ++ r ∷ []) (rw (blocks_shift passed [] r) small))

    whole : old ++ put_uint64 pos' ≡ frames (passed ++ r ∷ []) ++ (put_uint64 pos' ++ [])
    whole =
        ap (λ bs. bs ++ put_uint64 pos') (sym (blocks_shift passed [] r))
        ∙ unfold frames in simp (append-nil)

-- With no block left there is nothing to pass.
pub advance_eof :
    (path : FileName) (max_size : ℕ) (passed : List (List ℕ)) (cursor : ℕ)
    → length (blocks passed []) + 8 < half_word
    → advance (segment_of path max_size passed [] cursor)
      ≡ (err eof, segment_of path max_size passed [] cursor)
unfolding segment_of advance is_nil head_size
advance_eof path max passed cursor small = rw (at_end passed small)

-- ===== src/Hh/Segment/Reopen.antt =====
-- What newSegment makes of a new file, and of the file that a segment left.
use influxdb_cluster.Prelude.{
  ℕ, ◌+◌, ◌<◌, ◌≡◌, refl, ◌∙◌, true, false, List, [], ◌∷◌, ◌++◌, append-nil, length, length-append,
  ◌==◌, arith,
}
use influxdb_cluster.Prelude.Bytes.{sub64, lt_int64, half_word, put_uint64, length-put_uint64}
use influxdb_cluster.Hh.Exec.{ok}
use influxdb_cluster.Hh.Os.{FileName, stat, write, sync}
use influxdb_cluster.Hh.Os.Laws.{healthy}
use influxdb_cluster.Hh.Segment.{
  new_segment, open_segment, open_new, open_existing, write_uint64, write_bytes, sync_file,
}
use influxdb_cluster.Hh.Segment.Calls.{seek_footer_lem, seek_to_current_lem, read_uint64_lem}
use influxdb_cluster.Hh.Segment.Layout.{
  frames, head_size, blocks, segment_over, segment_of, length-frames-cons,
}
use influxdb_cluster.Hh.Segment.Current.{bytes_at_head}

-- A new file gets an empty segment.
pub new_segment_empty :
    (path : FileName) (max_size cursor : ℕ)
    → new_segment path max_size (healthy [] cursor) ≡ (ok tt, segment_of path max_size [] [] 8)
unfolding new_segment stat open_segment open_new write_uint64 write_bytes sync_file sync write
    segment_of frames head_size put_uint64 influxdb_cluster.Hh.Os.overwrite
new_segment_empty path max cursor = refl

before_end :
    (passed held : List (List ℕ)) (r : List ℕ)
    → length (blocks passed (r ∷ held)) + 8 < half_word
    → lt_int64 (length (frames passed)) (sub64 (length (blocks passed (r ∷ held)) + 8) 8) ≡ true
before_end passed held r small =
    ground (arith, length-append (frames passed) (frames (r ∷ held)), length-frames-cons r held)

not_before_end :
    (passed : List (List ℕ))
    → length (blocks passed []) + 8 < half_word
    → lt_int64 (length (frames passed)) (sub64 (length (blocks passed []) + 8) 8) ≡ false
unfolding frames
not_before_end passed small = ground (arith, length-append (frames passed) [])

abbrev pub file_bytes : List (List ℕ) → List (List ℕ) → List ℕ
file_bytes passed held = blocks passed held ++ put_uint64 (length (frames passed))

length-file_bytes :
    (passed held : List (List ℕ))
    → length (file_bytes passed held) ≡ length (blocks passed held) + 8
length-file_bytes passed held = omega (
  arith,
  length-append (blocks passed held) (put_uint64 (length (frames passed))),
  length-put_uint64 (length (frames passed)),
)

open_existing_lem :
    (path : FileName) (max_size size : ℕ) (passed held : List (List ℕ)) (cursor : ℕ)
    → size ≡ length (blocks passed held) + 8
    → length (blocks passed held) + 8 < half_word
    → (c : ℕ) × (open_existing (segment_over (file_bytes passed held) cursor size path 0 0 max_size)
        ≡ (
          ok tt,
          segment_over
              (file_bytes passed held)
              c
              size
              path
              (length (frames passed))
              (head_size held)
              max_size,
        ))
unfolding open_existing head_size
open_existing_lem path max size passed [] cursor e small = (
  length (frames passed),
  rw (
    seek_footer_lem size path 0 0 max (blocks passed []) (put_uint64 (length (frames passed)))
        cursor (length-put_uint64 _) (omega arith),
    read_uint64_lem size path 0 0 max (file_bytes passed []) (blocks passed []) []
        (length (blocks passed [])) (length (frames passed)) (simp append-nil) refl
        (omega (arith, length-append (frames passed) (frames []))),
    seek_to_current_lem size path (length (frames passed)) 0 max (file_bytes passed [])
        (length (blocks passed []) + 8) (omega (arith, length-append (frames passed) (frames []))),
    e,
    not_before_end passed small,
  ),
)
open_existing_lem path max size passed (r ∷ held) cursor e small = (
  length (frames passed) + 8,
  rw (
    seek_footer_lem size path 0 0 max (blocks passed (r ∷ held))
        (put_uint64 (length (frames passed))) cursor (length-put_uint64 _) (omega arith),
    read_uint64_lem size path 0 0 max (file_bytes passed (r ∷ held)) (blocks passed (r ∷ held)) []
        (length (blocks passed (r ∷ held))) (length (frames passed)) (simp append-nil) refl
        (omega (arith, length-append (frames passed) (frames (r ∷ held)))),
    seek_to_current_lem size path (length (frames passed)) 0 max (file_bytes passed (r ∷ held))
        (length (blocks passed (r ∷ held)) + 8)
        (omega (arith, length-append (frames passed) (frames (r ∷ held)))),
    e,
    before_end passed held r small,
    read_uint64_lem (length (blocks passed (r ∷ held)) + 8) path (length (frames passed)) 0 max
        (file_bytes passed (r ∷ held)) (frames passed)
        (r ++ (frames held ++ put_uint64 (length (frames passed)))) (length (frames passed))
        (length r) (bytes_at_head passed held r) refl
        (omega
          (arith, length-append (frames passed) (frames (r ∷ held)), length-frames-cons r held)),
  ),
)

-- The file of a segment, opened again, is a segment that has passed and holds the same blocks.
pub new_segment_reopen :
    (path : FileName) (max_size : ℕ) (passed held : List (List ℕ)) (cursor : ℕ)
    → length (blocks passed held) + 8 < half_word
    → (c : ℕ) × (new_segment path max_size (healthy (file_bytes passed held) cursor)
        ≡ (ok tt, segment_of path max_size passed held c))
unfolding new_segment stat open_segment segment_of
new_segment_reopen path max passed held cursor small =
    let found =
      open_existing_lem path max (length (file_bytes passed held)) passed held 0
        (length-file_bytes passed held) small in
    (found.0, rw (not_new) (found.1 ∙ rw (length-file_bytes passed held)))
  where
    not_new : (length (file_bytes passed held) == 0) ≡ false
    not_new = ground (arith, length-file_bytes passed held)

-- ===== src/Hh/Segment/Tests.antt =====
-- The theorems on a segment of hh/queue.go at concrete data.
use influxdb_cluster.Prelude.{ℕ, ◌+◌, ◌≡◌, refl, List, [], ◌∷◌, ◌++◌, length, arith}
use influxdb_cluster.Prelude.Bytes.{put_uint64}
use influxdb_cluster.Hh.Exec.{ok}
use influxdb_cluster.Hh.Os.{FileName}
use influxdb_cluster.Hh.Os.Laws.{healthy}
use influxdb_cluster.Hh.Segment.{append, new_segment}
use influxdb_cluster.Hh.Segment.Layout.{frames, blocks, segment_of}
use influxdb_cluster.Hh.Segment.Append.{append_lem}
use influxdb_cluster.Hh.Segment.Reopen.{file_bytes, new_segment_reopen}

abbrev name : FileName
name = b'7' ∷ []

abbrev read : List (List ℕ)
read = (9 ∷ []) ∷ []

abbrev kept : List (List ℕ)
kept = (1 ∷ 2 ∷ []) ∷ (3 ∷ []) ∷ []

sizes : length (blocks read kept) ≡ 28
unfolding frames put_uint64
sizes = refl

append_lem_example : append (4 ∷ []) (segment_of name 40 read kept 0) ≡ (
  ok tt,
  segment_of name 40 read
      (kept ++ (4 ∷ []) ∷ [])
      (length (blocks read (kept ++ (4 ∷ []) ∷ [])) + 8),
)
append_lem_example =
    append_lem name 40 read kept 0 (4 ∷ []) (omega arith, (omega arith, tt)) (omega (arith, sizes))
      (omega arith)

new_segment_reopen_example :
    (c : ℕ) × (new_segment name 40 (healthy (file_bytes read kept) 3)
      ≡ (ok tt, segment_of name 40 read kept c))
new_segment_reopen_example = new_segment_reopen name 40 read kept 3 (omega (arith, sizes))

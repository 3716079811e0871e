-- ===== src/Hh/Segment/Layout.antt =====
-- A segment as the queue of its blocks: the blocks that it has passed, then those that it still
-- holds, in a file on which every call succeeds.
use influxdb_cluster.Prelude.{
  ℕ, ◌+◌, ◌≡◌, ap, some, List, [], ◌∷◌, ◌++◌, append-nil, append_assoc, length, length-append,
  arith,
}
use influxdb_cluster.Prelude.Bytes.{put_uint64, length-put_uint64}
use influxdb_cluster.Hh.Os.Laws.{healthy}
use influxdb_cluster.Hh.Os.{FileName}
use influxdb_cluster.Hh.Segment.{Segment}

-- The blocks as they stand in the file, each after its length.
unfoldable pub frames : List (List ℕ) → List ℕ
frames [] = []
frames (r ∷ rs) = put_uint64 (length r) ++ (r ++ frames rs)

unfoldable pub head_size : List (List ℕ) → ℕ
head_size [] = 0
head_size (r ∷ rs) = length r

abbrev pub blocks : List (List ℕ) → List (List ℕ) → List ℕ
blocks passed held = frames passed ++ frames held

-- A segment over any bytes.
abbrev pub segment_over : List ℕ → ℕ → ℕ → FileName → ℕ → ℕ → ℕ → Segment
segment_over bytes cursor size path pos current_size max_size = record {
  size = size;
  file = some (healthy bytes cursor);
  path = path;
  pos = pos;
  current_size = current_size;
  max_size = max_size;
}

-- The segment that has passed some blocks and holds others.
unfoldable pub segment_of : FileName → ℕ → List (List ℕ) → List (List ℕ) → ℕ → Segment
segment_of path max_size passed held cursor =
    segment_over (blocks passed held ++ put_uint64 (length (frames passed))) cursor
      (length (blocks passed held) + 8) path (length (frames passed)) (head_size held) max_size

pub frames-append :
    (rs : List (List ℕ)) (r : List ℕ)
    → frames (rs ++ r ∷ []) ≡ frames rs ++ (put_uint64 (length r) ++ r)
unfolding frames
frames-append [] r = simp (append-nil)
frames-append (q ∷ rs) r = simp (frames-append rs r, append_assoc)

pub length-frames-append :
    (rs : List (List ℕ)) (r : List ℕ)
    → length (frames (rs ++ r ∷ [])) ≡ length (frames rs) + 8 + length r
length-frames-append rs r = omega (
  arith,
  ap length (frames-append rs r),
  length-append (frames rs) (put_uint64 (length r) ++ r),
  length-append (put_uint64 (length r)) r,
  length-put_uint64 (length r),
)

pub blocks-append :
    (passed held : List (List ℕ)) (b : List ℕ)
    → blocks passed (held ++ b ∷ []) ≡ (blocks passed held ++ put_uint64 (length b)) ++ b
blocks-append passed held b = rw (frames-append held b) (simp append_assoc)

-- The size of a segment stays within an `int64` while its blocks fit.
pub length-blocks-append :
    (passed held : List (List ℕ)) (b : List ℕ)
    → length (blocks passed (held ++ b ∷ [])) ≡ length (blocks passed held) + 8 + length b
length-blocks-append passed held b = omega (
  arith,
  length-append (frames passed) (frames (held ++ b ∷ [])),
  length-append (frames passed) (frames held),
  length-frames-append held b,
)

pub length-frames-cons :
    (r : List ℕ) (rs : List (List ℕ)) → length (frames (r ∷ rs)) ≡ 8 + length r + length (frames rs)
unfolding frames
length-frames-cons r rs = omega (
  arith,
  length-append (put_uint64 (length r)) (r ++ frames rs),
  length-append r (frames rs),
  length-put_uint64 (length r),
)

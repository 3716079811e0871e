-- ===== src/Hh/Fifo.antt =====
-- A queue of hh/queue.go as a list of blocks in order: its segments, seen as the parts of the list.
pub mod Heap
pub mod Listing
pub mod Calls
pub mod Read
pub mod Trim
mod Ids
pub mod Grow
pub mod Append
pub mod Advance
pub mod Stall
pub mod Open
use influxdb_cluster.Prelude.{
  ℕ, suc, ◌+◌, ◌≤◌, ◌<◌, ◌≡◌, ◌≢◌, false, some, List, [], ◌∷◌, ◌++◌, map, length, All,
}
use influxdb_cluster.Prelude.Bytes.{half_word}
use influxdb_cluster.Hh.Os.{FileName}
use influxdb_cluster.Hh.Directory.{Entry, lookup, same_name}
use influxdb_cluster.Hh.Segment.{Segment}
use influxdb_cluster.Hh.Segment.Layout.{blocks, segment_of}
use influxdb_cluster.Hh.Queue.{Queue, first, last}

-- A segment of the queue: the reference to it, its file, the blocks that it passed and those that
-- it holds.
pub record Part : Type 0 where
  pub ref : ℕ
  pub path : FileName
  pub passed : List (List ℕ)
  pub held : List (List ℕ)
  pub cursor : ℕ

abbrev pub part : ℕ → FileName → List (List ℕ) → List (List ℕ) → ℕ → Part
part ref path passed held cursor = record {
  ref = ref;
  path = path;
  passed = passed;
  held = held;
  cursor = cursor;
}

abbrev pub ref_of : Part → ℕ
ref_of p = p.ref

abbrev pub segment : ℕ → Part → Segment
segment max_size p = segment_of p.path max_size p.passed p.held p.cursor

-- The blocks that are not yet passed, oldest first.
unfoldable pub pending : List Part → List (List ℕ)
pending [] = []
pending (p ∷ ps) = p.held ++ pending ps

-- The blocks of a part fit, and those that it holds are not empty.
pub record Fits (max_size : ℕ) (p : Part) : Type 0 where
  pub within : length (blocks p.passed p.held) ≤ max_size
  pub full : All (λ r. 0 < length r) p.held

-- The objects of the parts, at references that rise from `lo` to below `hi`.
abbrev pub Holds : (ℕ → Segment) → ℕ → ℕ → List Part → ℕ → Type 0
Holds objects max_size lo [] hi = lo ≤ hi
Holds objects max_size lo (p ∷ ps) hi =
    (lo ≤ p.ref)
    × (objects p.ref ≡ segment max_size p)
    × Fits max_size p
    × Holds objects max_size (suc p.ref) ps hi

abbrev pub Avoids : FileName → List Part → Type 0
Avoids name = All (λ p. same_name name p.path ≡ false)

-- Every part has its file in the directory, and no two parts have one file.
abbrev pub Listed : List Entry → List Part → Type 0
Listed es [] = Unit {0}
Listed es (p ∷ ps) = ((e : Entry) × (lookup p.path es ≡ some e)) × Avoids p.path ps × Listed es ps

abbrev pub FilesOnly : List Entry → Type 0
FilesOnly = All (λ e. e.is_dir ≡ false)

-- An open queue whose parts are as listed, in a directory with no directory in it, where every call
-- succeeds.
pub record IsQueue (q : Queue) (parts : List Part) : Type 0 where
  pub refs : q.segments ≡ map ref_of parts
  pub holds : Holds q.objects q.max_segment_size 0 parts q.next_ref
  pub bound : q.max_segment_size + q.max_segment_size + 16 ≤ half_word
  pub head : q.head ≡ first (map ref_of parts)
  pub tail : q.tail ≡ last (map ref_of parts)
  pub listed : Listed q.dir.entries parts
  pub files : FilesOnly q.dir.entries
  pub calls : q.dir.outcomes ≡ []
  pub fresh : q.dir.fresh ≡ []

-- Every segment but the last holds a block, so that the head is never one that is read to its end
-- while other segments hold blocks.
abbrev pub Live : List Part → Type 0
Live [] = ⊥
Live (p ∷ []) = Unit {0}
Live (p ∷ s ∷ ps) = (p.held ≢ []) × Live (s ∷ ps)

-- The abstract view of an open queue: the blocks that `Current` and `Advance` will give, in order.
pub record IsFifo (q : Queue) (view : List (List ℕ)) : Type 0 where
  pub parts : List Part
  pub inv : IsQueue q parts
  pub view_eq : pending parts ≡ view
  pub live : Live parts

-- ===== src/Hh/Queue/State.antt =====
-- The state of a queue of hh/queue.go, and how it makes segments. `objects` is the heap of the
-- segments that were ever made: the list `segments`, `head` and `tail` hold references, which may be
-- to the same segment.
use influxdb_cluster.Prelude.{
  ◌*◌, ℕ, suc, Bool, false, Option, none, some, List, [], ◌∷◌, ◌++◌, ltb, ◌==◌, if◌then◌else◌,
}
use influxdb_cluster.Prelude.Bytes.{add64}
use influxdb_cluster.Hh.Exec.{Result, ok, err, Exec, ◌>>=◌, ◌>>◌, pure, get, modify}
use influxdb_cluster.Hh.Os.{FileName}
use influxdb_cluster.Hh.Directory.{Entry, Directory, read_dir, open_file, store_content}
use influxdb_cluster.Hh.Directory.Names.{format_uint, parse_uint}
use influxdb_cluster.Hh.Segment.{Segment, new_segment, disk_usage}

abbrev pub default_segment_size : ℕ
default_segment_size = 10 * 1024 * 1024

-- `none` is a nil pointer. `is_nil` says that the slice `segments` is nil, which is not the same as
-- empty.
pub record Queue : Type 0 where
  pub dir : Directory
  pub head : Option ℕ
  pub tail : Option ℕ
  pub max_segment_size : ℕ
  pub max_size : ℕ
  pub segments : List ℕ
  pub is_nil : Bool
  pub objects : ℕ → Segment
  pub next_ref : ℕ

abbrev pub no_segment : Segment
no_segment = record { size = 0; file = none; path = []; pos = 0; current_size = 0; max_size = 0 }

unfoldable pub new_queue : Directory → ℕ → Queue
new_queue dir max_size = record {
  dir = dir;
  head = none;
  tail = none;
  max_segment_size = default_segment_size;
  max_size = max_size;
  segments = [];
  is_nil = false;
  objects = λ r. no_segment;
  next_ref = 0;
}

abbrev pub update : (ℕ → Segment) → ℕ → Segment → ℕ → Segment
update objects r s x = if r == x then s else objects x

abbrev pub on_dir : {A : Type 0} → Exec Directory A → Exec Queue A
on_dir m q = ((m q.dir).0, record q { dir = (m q.dir).1 })

-- A call on a segment. What it writes to an open file is on the disk.
abbrev pub put_back : ℕ → Segment → Queue → Queue
put_back r s q = record q {
  objects = update q.objects r s;
  dir = record q.dir { entries = store_content s.path s.file q.dir.entries };
}

unfoldable pub on_segment : {A : Type 0} → ℕ → Exec Segment A → Exec Queue A
on_segment r m q = ((m (q.objects r)).0, put_back r (m (q.objects r)).1 q)

unfoldable pub usage : (ℕ → Segment) → List ℕ → ℕ
usage objects [] = 0
usage objects (r ∷ rs) = add64 (disk_usage (objects r)) (usage objects rs)

-- The method diskUsage of a queue.
unfoldable pub queue_usage : Queue → ℕ
queue_usage q = usage q.objects q.segments

-- The loop of `nextSegmentID`: directories and names that are no numbers are skipped.
unfoldable pub raise_id : ℕ → Entry → ℕ
raise_id m e =
    if e.is_dir
    then m
    else elim (parse_uint e.name) [ none ↦ m | some id ↦ if ltb m id then id else m ]

unfoldable pub max_id : ℕ → List Entry → ℕ
max_id m [] = m
max_id m (e ∷ es) = max_id (raise_id m e) es

unfoldable pub next_segment_id : Exec Queue ℕ
next_segment_id = do files ← on_dir read_dir; pure (add64 (max_id 0 files) 1)

-- `newSegment` on a name in the directory: a reference to a new object, or an error.
unfoldable pub adopt : Result (Unit {0}) → Segment → Exec Queue ℕ
adopt (ok _) s q = (ok q.next_ref, record (put_back q.next_ref s q) { next_ref = suc q.next_ref })
adopt (err e) s q =
    (err e, record q { dir = record q.dir { entries = store_content s.path s.file q.dir.entries } })

unfoldable pub make_segment : FileName → Exec Queue ℕ
make_segment path = do
  f ← on_dir (open_file path)
  q ← get
  let made = new_segment path q.max_segment_size f
  adopt made.0 made.1

unfoldable pub add_segment : Exec Queue ℕ
add_segment = do
  id ← next_segment_id
  r ← make_segment (format_uint id)
  modify (λ q. record q { segments = q.segments ++ r ∷ []; is_nil = false })
  pure r

unfoldable pub load_each : List Entry → List ℕ → Exec Queue (List ℕ)
load_each [] loaded = pure loaded
load_each (e ∷ es) loaded =
    let load = make_segment e.name >>= λ r. load_each es (loaded ++ r ∷ []) in
    let skip = load_each es loaded in
    if e.is_dir then skip else elim (parse_uint e.name) [ none ↦ skip | some id ↦ load ]

unfoldable pub load_segments : Exec Queue (List ℕ)
load_segments = do files ← on_dir read_dir; load_each files []

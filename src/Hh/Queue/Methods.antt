-- ===== src/Hh/Queue/Methods.antt =====
-- The methods of a queue of hh/queue.go. A method runs under the lock of the queue, so it is one
-- step.
use influxdb_cluster.Prelude.{
  ℕ, zero, suc, ◌-◌, ◌%◌, Bool, true, false, not, ◌||◌, Option, none, some, List, [], ◌∷◌, length,
  leb, ◌==◌, if◌then◌else◌,
}
use influxdb_cluster.Prelude.Bytes.{add64, lt_int64}
use influxdb_cluster.Hh.Exec.{
  Error, Result, ok, err, not_open, queue_full, segment_full, eof, queue_is_open, panic, Exec,
  ◌>>=◌, ◌>>◌, pure, raise, get, modify, fail_if, stuck, os_error,
}
use influxdb_cluster.Hh.Os.{FileName}
use influxdb_cluster.Hh.Directory.{remove, remove_all}
use influxdb_cluster.Hh.Segment.{
  Segment, append, current, advance, close_segment, disk_usage, set_max_segment_size,
}
use influxdb_cluster.Hh.Queue.State.{
  Queue, update, on_dir, on_segment, queue_usage, add_segment, load_segments,
}

abbrev pub first : List ℕ → Option ℕ
first [] = none
first (r ∷ rs) = some r

abbrev pub last : List ℕ → Option ℕ
last [] = none
last (r ∷ []) = some r
last (r ∷ s ∷ rs) = last (s ∷ rs)

unfoldable pub close_object : ℕ → Exec Queue (Unit {0})
close_object r = on_segment r close_segment

-- The head is never nil where `trimHead` is called.
abbrev pub path_of : ℕ → Queue → FileName
path_of r q = (q.objects r).path

unfoldable pub trim : Option ℕ → List ℕ → Exec Queue (Unit {0})
trim none rs = raise panic
trim (some h) [] = pure tt
trim (some h) (r ∷ []) = pure tt
trim (some h) (r ∷ s ∷ rest) = do
  modify (λ q. record q { segments = s ∷ rest })
  close_object h
  q ← get
  on_dir (remove (path_of h q))
  modify (λ t. record t { head = some s })

unfoldable pub trim_head : Exec Queue (Unit {0})
trim_head q = trim q.head q.segments q

abbrev pub on_ref : {A : Type 0} → Option ℕ → Exec Segment A → Error → Exec Queue A
on_ref none m e q = (err e, q)
on_ref (some r) m e q = on_segment r m q

abbrev pub on_head : {A : Type 0} → Exec Segment A → Error → Exec Queue A
on_head m e q = on_ref q.head m e q

-- `Open` ignores every error of the first block but the end of the segment.
unfoldable pub trim_at_end : {A : Type 0} → Result A → Exec Queue (Unit {0})
trim_at_end (err eof) = trim_head
trim_at_end _ = pure tt

unfoldable pub open_queue : Exec Queue (Unit {0})
open_queue = do
  loaded ← load_segments
  modify (λ q. record q { segments = loaded; is_nil = false })
  if length loaded == 0 then (do add_segment; pure tt) else pure tt
  modify (λ q. record q { head = first q.segments; tail = last q.segments })
  λ q. let r = on_head current panic q in trim_at_end r.0 r.1

unfoldable pub close_each : List ℕ → Exec Queue (Unit {0})
close_each [] = pure tt
close_each (r ∷ rs) = do close_object r; close_each rs

unfoldable pub close_queue : Exec Queue (Unit {0})
close_queue = do
  q ← get
  close_each q.segments
  modify (λ t. record t { head = none; tail = none; segments = []; is_nil = true })

unfoldable pub is_some : Option ℕ → Bool
is_some none = false
is_some (some r) = true

unfoldable pub remove_queue : Exec Queue (Unit {0})
remove_queue = do
  q ← get
  fail_if (is_some q.head || (is_some q.tail || not q.is_nil)) queue_is_open
  on_dir remove_all

unfoldable pub resize_each : ℕ → List ℕ → (ℕ → Segment) → ℕ → Segment
resize_each size [] objects = objects
resize_each size (r ∷ rs) objects =
    resize_each size rs (update objects r (set_max_segment_size size (objects r)))

unfoldable pub grow_tail : Option ℕ → Exec Queue (Unit {0})
grow_tail none = raise panic
grow_tail (some t) = do
  q ← get
  if lt_int64 (disk_usage (q.objects t)) q.max_segment_size
      then pure tt
      else do r ← add_segment; modify (λ u. record u { tail = some r })

unfoldable pub queue_set_max_segment_size : ℕ → Exec Queue (Unit {0})
queue_set_max_segment_size size = do
  modify
      (λ q. record q { max_segment_size = size; objects = resize_each size q.segments q.objects })
  q ← get
  grow_tail q.tail

-- `Append` tries again in a new segment when the tail is full, and ignores every other error.
unfoldable pub retry : Result (Unit {0}) → List ℕ → Exec Queue (Unit {0})
retry (err segment_full) b = do
  r ← add_segment
  modify (λ q. record q { tail = some r })
  on_segment r (append b)
retry _ b = pure tt

unfoldable pub append_tail : Option ℕ → List ℕ → Exec Queue (Unit {0})
append_tail none b q = (err not_open, q)
append_tail (some t) b q =
    if lt_int64 q.max_size (add64 (queue_usage q) (length b))
    then (err queue_full, q)
    else (let r = on_segment t (append b) q in retry r.0 b r.1)

unfoldable pub queue_append : List ℕ → Exec Queue (Unit {0})
queue_append b q = append_tail q.tail b q

unfoldable pub queue_current : Exec Queue (List ℕ)
queue_current = on_head current not_open

-- `Advance` ignores every error of the head but the end of the segment.
unfoldable pub advance_head : Option ℕ → Exec Queue (Unit {0})
advance_head none q = (err not_open, q)
advance_head (some h) q = let r = on_segment h advance q in trim_at_end r.0 r.1

unfoldable pub queue_advance : Exec Queue (Unit {0})
queue_advance q = advance_head q.head q

-- `os.Stat` for the time of the last change, by name; `none` is its error. The method lastModified
-- of a closed segment panics.
unfoldable pub last_modified : (FileName → Option ℕ) → ℕ → Exec Queue ℕ
last_modified modified r q = elim (q.objects r).file [
  | none ↦ (err panic, q)
  | some f ↦ elim (modified (path_of r q)) [ none ↦ (err os_error, q) | some t ↦ (ok t, q) ]
]

-- The method LastModified of a queue: the zero time with no tail.
unfoldable pub queue_last_modified : (FileName → Option ℕ) → Exec Queue ℕ
queue_last_modified modified q = elim q.tail [
  | none ↦ (ok 0, q)
  | some t ↦ last_modified modified t q
]

unfoldable pub make_room : List ℕ → Exec Queue (Unit {0})
make_room (r ∷ []) = do add_segment; pure tt
make_room _ = pure tt

unfoldable pub head_modified : (FileName → Option ℕ) → Option ℕ → Exec Queue ℕ
head_modified modified none q = (err panic, q)
head_modified modified (some h) q = last_modified modified h q

-- The loop of `PurgeOlderThan`, with fuel: `stuck` means that the fuel ran out.
unfoldable pub purge : (FileName → Option ℕ) → ℕ → ℕ → Exec Queue (Unit {0})
purge modified cutoff zero = raise stuck
purge modified cutoff (suc fuel) = do
  q ← get
  changed ← head_modified modified q.head
  let more = purge modified cutoff fuel
  if leb cutoff changed then pure tt else do make_room q.segments; trim_head; more

-- Times are in nanoseconds; `Truncate(time.Second)` takes the part of a second away.
unfoldable pub purge_older_than : (FileName → Option ℕ) → ℕ → ℕ → Exec Queue (Unit {0})
purge_older_than modified fuel when q =
    if length q.segments == 0 then (ok tt, q) else purge modified (when - when % 1000000000) fuel q

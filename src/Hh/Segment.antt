-- ===== src/Hh/Segment.antt =====
-- The type segment of hh/queue.go: one file of blocks, each with its length before it, and a footer
-- with the position of the current block. An `int64` is kept as its bit pattern. A method runs
-- under the lock of its segment, so it is one step.
pub mod Layout
mod Calls
pub mod Append
pub mod Current
pub mod Advance
pub mod Reopen
pub mod Faults
mod Tests
use influxdb_cluster.Prelude.{
  ℕ, ◌+◌, Bool, true, false, not, ◌||◌, Option, none, some, List, [], ◌∷◌, length, ltb, leb, ◌==◌,
  if◌then◌else◌,
}
use influxdb_cluster.Prelude.Bytes.{add64, sub64, half_word, lt_int64, put_uint64, uint64}
use influxdb_cluster.Hh.Exec.{
  Result, ok, err, not_open, segment_full, eof, os_error, bad_seek, bad_read, short_write,
  record_out_of_range, panic, Exec, ◌>>=◌, ◌>>◌, continue, pure, raise, get, modify, fail_if,
}
use influxdb_cluster.Hh.Os.{File, FileName, seek_start, seek_end, write, read, sync, close, stat}

abbrev pub footer_size : ℕ
footer_size = 8

-- `file` is `none` after `close`. `path` is the name of the
-- file in the directory of the queue.
pub record Segment : Type 0 where
  pub size : ℕ
  pub file : Option File
  pub path : FileName
  pub pos : ℕ
  pub current_size : ℕ
  pub max_size : ℕ

-- A call on a nil `*os.File` gives `os.ErrInvalid`.
abbrev pub on_file : {A : Type 0} → Exec File A → Exec Segment A
on_file m s = elim s.file [
  | none ↦ (err os_error, s)
  | some f ↦ ((m f).0, record s { file = some (m f).1 })
]

unfoldable pub is_nil : Option File → Bool
is_nil none = true
is_nil (some f) = false

unfoldable pub seek : ℕ → Exec Segment (Unit {0})
seek pos = do n ← on_file (seek_start pos); fail_if (not (n == pos)) bad_seek

unfoldable pub seek_to_current : Exec Segment (Unit {0})
seek_to_current s = seek s.pos s

unfoldable pub seek_footer : Exec Segment (Unit {0})
seek_footer = do on_file (seek_end (sub64 0 footer_size)); pure tt

unfoldable pub write_bytes : List ℕ → Exec Segment (Unit {0})
write_bytes b = do n ← on_file (write b); fail_if (not (n == length b)) short_write

unfoldable pub write_uint64 : ℕ → Exec Segment (Unit {0})
write_uint64 sz = write_bytes (put_uint64 sz)

unfoldable pub read_bytes : ℕ → Exec Segment (List ℕ)
read_bytes n = do b ← on_file (read n); fail_if (not (length b == n)) bad_read; pure b

unfoldable pub read_uint64 : Exec Segment ℕ
read_uint64 = do b ← read_bytes 8; pure (uint64 b)

unfoldable pub sync_file : Exec Segment (Unit {0})
sync_file = on_file sync

-- An empty file is a new segment: write its footer.
unfoldable pub open_new : Exec Segment (Unit {0})
open_new = do
  modify (λ s. record s { pos = 0; current_size = 0 })
  write_uint64 0
  sync_file
  modify (λ s. record s { size = footer_size })

unfoldable pub open_existing : Exec Segment (Unit {0})
open_existing = do
  seek_footer
  pos ← read_uint64
  modify (λ s. record s { pos = pos })
  seek_to_current
  s ← get
  if lt_int64 s.pos (sub64 s.size footer_size)
      then (do current_size ← read_uint64; modify (λ t. record t { current_size = current_size }))
      else pure tt

unfoldable pub open_segment : Exec Segment (Unit {0})
open_segment s = (if s.size == 0 then open_new else open_existing) s

-- `newSegment` on the file of this path, which `OpenFile` has made if it was not there. On an error
-- the code returns no segment: the one here only holds the file that stays on the disk.
unfoldable pub new_segment : FileName → ℕ → File → Result (Unit {0}) × Segment
new_segment path max_size f =
    let opened = stat (record f { cursor = 0 }) in
    let s : Segment = record {
      size = length opened.1.bytes;
      file = some opened.1;
      path = path;
      pos = 0;
      current_size = 0;
      max_size = max_size;
    } in
    continue opened.0 (λ _. open_segment) s

unfoldable pub append : List ℕ → Exec Segment (Unit {0})
append b = do
  s ← get
  fail_if (is_nil s.file) not_open
  fail_if (lt_int64 s.max_size (add64 s.size (length b))) segment_full
  seek_footer
  write_uint64 (length b)
  write_bytes b
  write_uint64 s.pos
  sync_file
  modify (λ t. record t {
    current_size = if t.current_size == 0 then length b else t.current_size;
    size = add64 t.size (add64 (length b) 8);
  })

-- A negative length word passes the test of the size, and `make` panics on it.
unfoldable pub current : Exec Segment (List ℕ)
current = do
  s ← get
  fail_if (s.pos == sub64 s.size 8) eof
  seek_to_current
  sz ← read_uint64
  modify (λ t. record t { current_size = sz })
  fail_if (lt_int64 s.max_size sz) record_out_of_range
  fail_if (leb half_word sz) panic
  read_bytes sz

unfoldable pub advance : Exec Segment (Unit {0})
advance = do
  s ← get
  fail_if (is_nil s.file) not_open
  if s.pos == sub64 s.size footer_size
      then (do modify (λ t. record t { current_size = 0 }); raise eof)
      else (do
        seek_footer
        let pos = add64 (add64 s.pos s.current_size) 8
        write_uint64 pos
        sync_file
        modify (λ t. record t { pos = pos })
        seek_to_current
        sz ← read_uint64
        modify (λ t. record t { current_size = sz })
        if pos == sub64 s.size footer_size
            then (do modify (λ t. record t { current_size = 0 }); raise eof)
            else pure tt)

unfoldable pub close_segment : Exec Segment (Unit {0})
close_segment = do on_file close; modify (λ s. record s { file = none })

unfoldable pub disk_usage : Segment → ℕ
disk_usage s = s.size

unfoldable pub set_max_segment_size : ℕ → Segment → Segment
set_max_segment_size size s = record s { max_size = size }

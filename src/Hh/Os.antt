-- ===== src/Hh/Os.antt =====
-- An open `os.File` as the package hh uses it: its bytes, its cursor, and what the next system
-- calls do. A failed write may have written a part of its bytes; any other failed call changes
-- nothing. With no outcome listed all calls succeed.
pub mod Laws
use influxdb_cluster.Prelude.{
  ℕ, ◌+◌, ◌-◌, Bool, true, false, List, [], ◌∷◌, ◌++◌, length, take, drop, replicate, leb,
  if◌then◌else◌,
}
use influxdb_cluster.Prelude.Bytes.{add64, half_word}
use influxdb_cluster.Hh.Exec.{Result, ok, err, eof, os_error, bad_read, short_write, Exec}

-- A name of a file in a directory, as its bytes.
abbrev pub FileName : Type 0
FileName = List ℕ

pub data Outcome : Type 0 where
  succeeds : Outcome
  fails_after : ℕ → Outcome

pub record File : Type 0 where
  pub bytes : List ℕ
  pub cursor : ℕ
  pub outcomes : List Outcome

-- A system call: `act` if it succeeds, and what `failed n` leaves behind if it does not.
abbrev pub syscall : {A : Type 0} → (ℕ → File → File) → Exec File A → List Outcome → Exec File A
syscall failed act [] f = act f
syscall failed act (succeeds ∷ rest) f = act (record f { outcomes = rest })
syscall failed act (fails_after n ∷ rest) f =
    (err os_error, failed n (record f { outcomes = rest }))

abbrev pub unchanged : ℕ → File → File
unchanged n f = f

-- The bytes after a write of `b` at `position`; a gap before it reads as zeros.
unfoldable pub overwrite : ℕ → List ℕ → List ℕ → List ℕ
overwrite position b bytes =
    take position bytes
    ++ (replicate (position - length bytes) 0 ++ (b ++ drop (position + length b) bytes))

-- `lseek` refuses a negative position. An offset is an `int64`.
abbrev pub seek_from : ℕ → ℕ → Exec File ℕ
seek_from base offset f =
    let position = add64 base offset in
    if leb half_word position
    then (err os_error, f)
    else (ok position, record f { cursor = position })

unfoldable pub seek_start : ℕ → Exec File ℕ
seek_start offset f = syscall unchanged (seek_from 0 offset) f.outcomes f

unfoldable pub seek_end : ℕ → Exec File ℕ
seek_end offset f = syscall unchanged (seek_from (length f.bytes) offset) f.outcomes f

abbrev put : List ℕ → File → File
put b f = record f { bytes = overwrite f.cursor b f.bytes; cursor = f.cursor + length b }

-- `Write` gives the number of bytes written.
unfoldable pub write : List ℕ → Exec File ℕ
write b f = syscall (λ n. put (take n b)) (λ g. (ok (length b), put b g)) f.outcomes f

abbrev read_now : ℕ → Exec File (List ℕ)
read_now n f =
    let b = take n (drop f.cursor f.bytes) in
    if leb 1 n
    then (if leb 1 (length b)
        then (ok b, record f { cursor = f.cursor + length b })
        else (err eof, f))
    else (ok [], f)

-- `Read` of at most `n` bytes; at the end of the file `io.EOF`, unless nothing was asked for.
unfoldable pub read : ℕ → Exec File (List ℕ)
read n f = syscall unchanged (read_now n) f.outcomes f

unfoldable pub sync : Exec File (Unit {0})
sync f = syscall unchanged (λ g. (ok tt, g)) f.outcomes f

unfoldable pub close : Exec File (Unit {0})
close f = syscall unchanged (λ g. (ok tt, g)) f.outcomes f

-- `os.Stat`, of which the package reads the size.
unfoldable pub stat : Exec File ℕ
stat f = syscall unchanged (λ g. (ok (length g.bytes), g)) f.outcomes f

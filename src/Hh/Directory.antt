-- ===== src/Hh/Directory.antt =====
-- The directory of a queue, through the calls of os, ioutil and strconv that hh/queue.go makes. An
-- entry holds the bytes that are on the disk under its name.
pub mod Names
use influxdb_cluster.Prelude.{
  ℕ, ◌+◌, Bool, true, false, Option, none, some, List, [], ◌∷◌, ltb, ◌==◌, if◌then◌else◌, ◌&&◌,
  ◌||◌,
}
use influxdb_cluster.Hh.Exec.{ok, err, os_error, Exec}
use influxdb_cluster.Hh.Os.{FileName, File, Outcome, succeeds, fails_after}

pub record Entry : Type 0 where
  pub name : FileName
  pub is_dir : Bool
  pub content : File

-- `outcomes` are those of the next calls on the directory, `fresh` those of the calls on a file that
-- is made in it.
pub record Directory : Type 0 where
  pub entries : List Entry
  pub outcomes : List Outcome
  pub fresh : List Outcome

abbrev pub dir_call : {A : Type 0} → Exec Directory A → List Outcome → Exec Directory A
dir_call act [] d = act d
dir_call act (succeeds ∷ rest) d = act (record d { outcomes = rest })
dir_call act (fails_after n ∷ rest) d = (err os_error, record d { outcomes = rest })

unfoldable pub same_name : FileName → FileName → Bool
same_name [] [] = true
same_name [] (b ∷ bs) = false
same_name (a ∷ as') [] = false
same_name (a ∷ as') (b ∷ bs) = a == b && same_name as' bs

-- Go's `<` on strings.
unfoldable pub name_before : FileName → FileName → Bool
name_before xs [] = false
name_before [] (b ∷ bs) = true
name_before (a ∷ as') (b ∷ bs) = ltb a b || (a == b && name_before as' bs)

unfoldable pub insert_by_name : Entry → List Entry → List Entry
insert_by_name e [] = e ∷ []
insert_by_name e (x ∷ xs) =
    if name_before x.name e.name then x ∷ insert_by_name e xs else e ∷ x ∷ xs

-- `ioutil.ReadDir` lists a directory by name.
unfoldable pub sort_by_name : List Entry → List Entry
sort_by_name [] = []
sort_by_name (e ∷ es) = insert_by_name e (sort_by_name es)

unfoldable pub read_dir : Exec Directory (List Entry)
read_dir d = dir_call (λ e. (ok (sort_by_name e.entries), e)) d.outcomes d

unfoldable pub lookup : FileName → List Entry → Option Entry
lookup name [] = none
lookup name (e ∷ es) = if same_name e.name name then some e else lookup name es

-- `os.OpenFile` with `O_CREATE|O_RDWR`.
unfoldable pub open_entry : FileName → Option Entry → Exec Directory File
open_entry name none d =
    let f : File = record { bytes = []; cursor = 0; outcomes = d.fresh } in
    (ok f, record d { entries = record { name = name; is_dir = false; content = f } ∷ d.entries })
open_entry name (some e) d = if e.is_dir then (err os_error, d) else (ok e.content, d)

unfoldable pub open_file : FileName → Exec Directory File
open_file name d = dir_call (λ e. open_entry name (lookup name e.entries) e) d.outcomes d

unfoldable pub without : FileName → List Entry → List Entry
without name [] = []
without name (e ∷ es) = if same_name e.name name then es else e ∷ without name es

unfoldable pub remove_entry : FileName → Option Entry → Exec Directory (Unit {0})
remove_entry name none d = (err os_error, d)
remove_entry name (some e) d = (ok tt, record d { entries = without name d.entries })

-- `os.Remove`.
unfoldable pub remove : FileName → Exec Directory (Unit {0})
remove name d = dir_call (λ e. remove_entry name (lookup name e.entries) e) d.outcomes d

-- `os.RemoveAll`.
unfoldable pub remove_all : Exec Directory (Unit {0})
remove_all d = dir_call (λ e. (ok tt, record e { entries = [] })) d.outcomes d

-- What is written to an open file is on the disk, as long as the file has its name there.
unfoldable pub store_content : FileName → Option File → List Entry → List Entry
store_content name none es = es
store_content name (some f) [] = []
store_content name (some f) (e ∷ es) =
    (if same_name e.name name then record e { content = f } else e) ∷ store_content name (some f) es

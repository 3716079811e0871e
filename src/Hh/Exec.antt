-- ===== src/Hh/Exec.antt =====
-- Go methods of the package hh: a method changes its object and returns a value or an error. What
-- was written before an error stays written, so the object comes back beside the error too.
use influxdb_cluster.Prelude.{Bool, true, false}

-- `eof` is `io.EOF`, `os_error` an error of a system call, `panic` a run-time panic. `stuck` is no
-- error of the code: a loop of the model ran out of fuel. `unreachable` is an error of a node.
pub data Error : Type 0 where
  not_open queue_full segment_full eof os_error bad_seek bad_read : Error
  short_write record_out_of_range queue_is_open panic stuck : Error
  processor_open processor_closed too_short unreachable handoff_disabled : Error

pub data Result {ℓ} (A : Type ℓ) : Type ℓ where
  ok : A → Result A
  err : Error → Result A

abbrev pub Exec : Type 0 → Type 0 → Type 0
Exec S A = S → Result A × S

module _ {S A B : Type 0} where
  abbrev pub continue : Result A → (A → Exec S B) → Exec S B
  continue (ok a) f s = f a s
  continue (err e) f s = (err e, s)

  infixl 5 ◌>>=◌ ◌>>◌
  abbrev pub ◌>>=◌ : Exec S A → (A → Exec S B) → Exec S B
  ◌>>=◌ m f s = continue (m s).0 f (m s).1

  abbrev pub ◌>>◌ : Exec S A → Exec S B → Exec S B
  ◌>>◌ m n s = continue (m s).0 (λ _. n) (m s).1

module _ {S A : Type 0} where
  abbrev pub pure : A → Exec S A
  pure a s = (ok a, s)

  abbrev pub raise : Error → Exec S A
  raise e s = (err e, s)

module _ {S : Type 0} where
  abbrev pub get : Exec S S
  get s = (ok s, s)

  abbrev pub modify : (S → S) → Exec S (Unit {0})
  modify f s = (ok tt, f s)

  -- `if test { return e }`
  abbrev pub fail_if : Bool → Error → Exec S (Unit {0})
  fail_if true e s = (err e, s)
  fail_if false e s = (ok tt, s)

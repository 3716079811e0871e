-- ===== src/Hh/Segment/Faults.antt =====
-- The methods of a segment when system calls fail.
use influxdb_cluster.Prelude.{ℕ, ◌≡◌, refl, ◌∙◌, Bool, true, false, List, arith}
use influxdb_cluster.Hh.Exec.{
  Error, Result, ok, err, Exec, continue, ◌>>=◌, ◌>>◌, get, modify, fail_if, pure,
}
use influxdb_cluster.Hh.Os.{File}
use influxdb_cluster.Hh.Segment.{
  Segment, on_file, append, seek_footer, write_uint64, write_bytes, sync_file,
}

-- What a segment keeps in memory.
pub record SameMemory (s t : Segment) : Type 0 where
  pub same_size : t.size ≡ s.size
  pub same_pos : t.pos ≡ s.pos
  pub same_current : t.current_size ≡ s.current_size
  pub same_max : t.max_size ≡ s.max_size
  pub same_path : t.path ≡ s.path

SameMemory-trans : {s t u : Segment} → SameMemory s t → SameMemory t u → SameMemory s u
SameMemory-trans p q = record {
  same_size = q.same_size ∙ p.same_size;
  same_pos = q.same_pos ∙ p.same_pos;
  same_current = q.same_current ∙ p.same_current;
  same_max = q.same_max ∙ p.same_max;
  same_path = q.same_path ∙ p.same_path;
}

SameMemory-refl : (s : Segment) → SameMemory s s
SameMemory-refl s = record {
  same_size = refl;
  same_pos = refl;
  same_current = refl;
  same_max = refl;
  same_path = refl;
}

-- A method that never changes what is in memory, and one that does not if it fails.
record Keeps {A : Type 0} (m : Exec Segment A) : Type 0 where
  at : (s : Segment) → SameMemory s (m s).1

record FailsClean {A : Type 0} (m : Exec Segment A) : Type 0 where
  at : (s : Segment) (e : Error) → (m s).0 ≡ err e → SameMemory s (m s).1

Keeps-get : Keeps get
Keeps-get = record { at = SameMemory-refl }

Keeps-fail_if : (b : Bool) (e : Error) → Keeps (fail_if b e)
Keeps-fail_if true e = record { at = SameMemory-refl }
Keeps-fail_if false e = record { at = SameMemory-refl }

Keeps-on_file : {A : Type 0} (m : Exec File A) → Keeps (on_file m)
Keeps-on_file m = record { at = λ s. ground arith }

module _ {A B : Type 0} where
  Keeps-continue :
      (r : Result A) (f : A → Exec Segment B) → ((a : A) → Keeps (f a)) → Keeps (continue r f)
  Keeps-continue (ok a) f k = k a
  Keeps-continue (err e) f k = record { at = SameMemory-refl }

  Keeps-bind :
      (m : Exec Segment A) (f : A → Exec Segment B)
      → Keeps m
      → ((a : A) → Keeps (f a))
      → Keeps (m >>= f)
  Keeps-bind m f km kf = record {
    at = λ s. SameMemory-trans (km.at s) ((Keeps-continue (m s).0 f kf).at (m s).1);
  }

  FailsClean-continue :
      (r : Result A) (f : A → Exec Segment B)
      → ((a : A) → FailsClean (f a))
      → FailsClean (continue r f)
  FailsClean-continue (ok a) f k = k a
  FailsClean-continue (err e) f k = record { at = λ s e' h. SameMemory-refl s }

  FailsClean-bind :
      (m : Exec Segment A) (f : A → Exec Segment B)
      → Keeps m
      → ((a : A) → FailsClean (f a))
      → FailsClean (m >>= f)
  FailsClean-bind m f km kf = record {
    at = λ s e h. SameMemory-trans (km.at s) ((FailsClean-continue (m s).0 f kf).at (m s).1 e h);
  }

  FailsClean-then :
      (m : Exec Segment A) (n : Exec Segment B) → Keeps m → FailsClean n → FailsClean (m >> n)
  FailsClean-then m n km kn = FailsClean-bind m (λ _. n) km (λ _. kn)

FailsClean-modify : (f : Segment → Segment) → FailsClean (modify f)
FailsClean-modify f = record { at = λ s e h. cc h }

Keeps-pure : Keeps (pure tt)
Keeps-pure = record { at = SameMemory-refl }

Keeps-seek_footer : Keeps seek_footer
unfolding seek_footer
Keeps-seek_footer = Keeps-bind _ _ (Keeps-on_file _) (λ _. Keeps-pure)

Keeps-write_bytes : (b : List ℕ) → Keeps (write_bytes b)
unfolding write_bytes
Keeps-write_bytes b = Keeps-bind _ _ (Keeps-on_file _) (λ n. Keeps-fail_if _ _)

Keeps-write_uint64 : (n : ℕ) → Keeps (write_uint64 n)
unfolding write_uint64
Keeps-write_uint64 n = Keeps-write_bytes _

Keeps-sync_file : Keeps sync_file
unfolding sync_file
Keeps-sync_file = Keeps-on_file _

ruleset clean_rules = (
  Keeps-get, Keeps-fail_if, Keeps-seek_footer, Keeps-write_bytes, Keeps-write_uint64,
  Keeps-sync_file, FailsClean-bind, FailsClean-then, FailsClean-modify,
)

append-FailsClean : (b : List ℕ) → FailsClean (append b)
unfolding append
append-FailsClean b = search clean_rules depth 12

-- Whichever system call fails, an append that gives an error leaves what is in memory as it was.
pub append_failed :
    (b : List ℕ) (s : Segment) (e : Error) → (append b s).0 ≡ err e → SameMemory s (append b s).1
append_failed b s e h = (append-FailsClean b).at s e h

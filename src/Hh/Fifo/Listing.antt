-- ===== src/Hh/Fifo/Listing.antt =====
-- The files of the parts in the directory.
use influxdb_cluster.Prelude.{
  ◌≡◌, refl, ap, ◌∙◌, inl, inr, Bool-cases, true, false, Option, none, some, List, [], ◌∷◌, ◌++◌,
  arith, if◌then◌else◌,
}
use influxdb_cluster.Hh.Os.{FileName, File}
use influxdb_cluster.Hh.Directory.{
  Entry, lookup, same_name, store_content, without, insert_by_name, sort_by_name, name_before,
}
use influxdb_cluster.Hh.Fifo.{Part, Avoids, Listed, FilesOnly}

same_name_self : (n : FileName) → same_name n n ≡ true
unfolding same_name
same_name_self [] = refl
same_name_self (a ∷ n) = ground (arith, same_name_self n)

pub same_name_sound : (m n : FileName) → same_name m n ≡ true → m ≡ n
unfolding same_name
same_name_sound [] [] h = refl
same_name_sound [] (b ∷ n) h = cc
same_name_sound (a ∷ m) [] h = cc
same_name_sound (a ∷ m) (b ∷ n) h = ground (arith, same_name_sound m n)

-- A name has a file.
abbrev pub Found : FileName → List Entry → Type 0
Found n es = (e : Entry) × (lookup n es ≡ some e)

pub Found-here : (e : Entry) (es : List Entry) → Found e.name (e ∷ es)
unfolding lookup
Found-here e es = (e, rw (same_name_self e.name))

pub Found-cons : (n : FileName) (e : Entry) (es : List Entry) → Found n es → Found n (e ∷ es)
unfolding lookup
Found-cons n e es (x, h) = elim (Bool-cases (same_name e.name n)) [
  | inl hit ↦ (e, rw hit)
  | inr miss ↦ (x, rw miss h)
]

pub Found-store :
    (n m : FileName) (f : Option File) (es : List Entry)
    → Found n es
    → Found n (store_content m f es)
unfolding store_content lookup
Found-store n m none es h = h
Found-store n m (some f) [] h = h
Found-store n m (some f) (e ∷ es) (x, h) = elim (Bool-cases (same_name e.name n)) [
  | inl hit ↦ (if same_name e.name m then record e { content = f } else e, ground arith)
  | inr miss ↦ let (y, k) = Found-store n m (some f) es (x, rw miss at h) in (y, ground arith)
]

Found-without :
    (n m : FileName) (es : List Entry) → same_name m n ≡ false → Found n es → Found n (without m es)
unfolding without lookup
Found-without n m [] d h = h
Found-without n m (e ∷ es) d (x, h) = elim (Bool-cases (same_name e.name m)) [
  | inl gone ↦
      let skipped : same_name e.name n ≡ false =
        ap (λ k. same_name k n) (same_name_sound e.name m gone) ∙ d in
      (x, rw gone (rw skipped at h))
  | inr stays ↦ rw stays (elim (Bool-cases (same_name e.name n)) [
    | inl hit ↦ (e, rw hit)
    | inr miss ↦ let (y, k) = Found-without n m es d (x, rw miss at h) in (y, rw miss k)
  ])
]

pub Listed-cons : (e : Entry) (es : List Entry) (ps : List Part) → Listed es ps → Listed (e ∷ es) ps
Listed-cons e es [] h = tt
Listed-cons e es (p ∷ ps) h = (Found-cons p.path e es h.0, h.1, Listed-cons e es ps h.2)

pub Listed-store :
    (m : FileName) (f : Option File) (es : List Entry) (ps : List Part)
    → Listed es ps
    → Listed (store_content m f es) ps
Listed-store m f es [] h = tt
Listed-store m f es (p ∷ ps) h = (Found-store p.path m f es h.0, h.1, Listed-store m f es ps h.2)

pub Listed-without :
    (m : FileName) (es : List Entry) (ps : List Part)
    → Avoids m ps
    → Listed es ps
    → Listed (without m es) ps
Listed-without m es [] d h = tt
Listed-without m es (p ∷ ps) d h =
    (Found-without p.path m es d.0 h.0, h.1, Listed-without m es ps d.1 h.2)

-- The parts are the same files when a part keeps its path.
Avoids-replace :
    (n : FileName) (before after : List Part) (p p' : Part)
    → p'.path ≡ p.path
    → Avoids n (before ++ p ∷ after)
    → Avoids n (before ++ p' ∷ after)
Avoids-replace n [] after p p' e h = (rw e h.0, h.1)
Avoids-replace n (b ∷ before) after p p' e h = (h.0, Avoids-replace n before after p p' e h.1)

pub Listed-replace :
    (es : List Entry) (before after : List Part) (p p' : Part)
    → p'.path ≡ p.path
    → Listed es (before ++ p ∷ after)
    → Listed es (before ++ p' ∷ after)
Listed-replace es [] after p p' e h = (rw e h.0, rw e h.1, h.2)
Listed-replace es (b ∷ before) after p p' e h =
    (h.0, Avoids-replace b.path before after p p' e h.1, Listed-replace es before after p p' e h.2)

-- A name with no file is none of the parts'.
not-Found :
    (n m : FileName) (es : List Entry) → lookup n es ≡ none → Found m es → same_name m n ≡ false
not-Found n m es e (x, h) = elim (Bool-cases (same_name m n)) [
  | inl same ↦ cc (ap (λ k. lookup k es) (same_name_sound m n same))
  | inr other ↦ other
]

Avoids-append :
    (n : FileName) (ps : List Part) (p : Part)
    → Avoids n ps
    → same_name n p.path ≡ false
    → Avoids n (ps ++ p ∷ [])
Avoids-append n [] p h k = (k, tt)
Avoids-append n (q ∷ ps) p h k = (h.0, Avoids-append n ps p h.1 k)

-- A part with a new file behind the others.
pub Listed-append :
    (es es' : List Entry) (ps : List Part) (p : Part)
    → lookup p.path es ≡ none
    → Found p.path es'
    → Listed es ps
    → Listed es' ps
    → Listed es' (ps ++ p ∷ [])
Listed-append es es' [] p e f h k = (f, tt, tt)
Listed-append es es' (q ∷ ps) p e f h k = (
  k.0,
  Avoids-append q.path ps p h.1 (not-Found p.path q.path es e h.0),
  Listed-append es es' ps p e f h.2 k.2,
)

pub FilesOnly-store :
    (m : FileName) (f : Option File) (es : List Entry)
    → FilesOnly es
    → FilesOnly (store_content m f es)
unfolding store_content
FilesOnly-store m none es h = h
FilesOnly-store m (some f) [] h = tt
FilesOnly-store m (some f) (e ∷ es) h = (ground arith, FilesOnly-store m (some f) es h.1)

pub FilesOnly-without : (m : FileName) (es : List Entry) → FilesOnly es → FilesOnly (without m es)
unfolding without
FilesOnly-without m [] h = tt
FilesOnly-without m (e ∷ es) h = elim (Bool-cases (same_name e.name m)) [
  | inl gone ↦ rw gone h.1
  | inr stays ↦ rw stays (h.0, FilesOnly-without m es h.1)
]

-- Sorting keeps the files.
Found-insert :
    (n : FileName) (e : Entry) (es : List Entry) → Found n (e ∷ es) → Found n (insert_by_name e es)
unfolding insert_by_name lookup
Found-insert n e [] h = h
Found-insert n e (y ∷ es) (x, h) = elim (Bool-cases (name_before y.name e.name)) [
  | inr before ↦ rw before (x, h)
  | inl after ↦ rw after (elim (Bool-cases (same_name y.name n)) [
    | inl hit ↦ (y, rw hit)
    | inr miss ↦ let (z, k) = Found-insert n e es (x, rw miss at h) in (z, rw miss k)
  ])
]

pub Found-sort : (n : FileName) (es : List Entry) → Found n es → Found n (sort_by_name es)
unfolding sort_by_name lookup
Found-sort n [] h = h
Found-sort n (e ∷ es) (x, h) =
    Found-insert n e (sort_by_name es) (elim (Bool-cases (same_name e.name n)) [
      | inl hit ↦ (e, rw hit)
      | inr miss ↦ let (y, k) = Found-sort n es (x, rw miss at h) in (y, rw miss k)
    ])

FilesOnly-insert :
    (e : Entry) (es : List Entry)
    → e.is_dir ≡ false
    → FilesOnly es
    → FilesOnly (insert_by_name e es)
unfolding insert_by_name
FilesOnly-insert e [] f h = (f, tt)
FilesOnly-insert e (y ∷ es) f h = elim (Bool-cases (name_before y.name e.name)) [
  | inr before ↦ rw before (f, h)
  | inl after ↦ rw after (h.0, FilesOnly-insert e es f h.1)
]

pub FilesOnly-sort : (es : List Entry) → FilesOnly es → FilesOnly (sort_by_name es)
unfolding sort_by_name
FilesOnly-sort [] h = tt
FilesOnly-sort (e ∷ es) h = FilesOnly-insert e (sort_by_name es) h.0 (FilesOnly-sort es h.1)

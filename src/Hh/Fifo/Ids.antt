-- ===== src/Hh/Fifo/Ids.antt =====
-- The number of a new segment is not the name of a file.
use influxdb_cluster.Prelude.{
  ℕ, ◌+◌, ◌≤◌, ◌<◌, ◌≡◌, refl, ap, ◌∙◌, inl, inr, Bool-cases, false, none, some, List, [], ◌∷◌,
  arith, Option-cases, if◌then◌else◌,
}
use influxdb_cluster.Prelude.Bytes.{word}
use influxdb_cluster.Hh.Os.{FileName, File}
use influxdb_cluster.Hh.Directory.{
  Entry, lookup, same_name, sort_by_name, insert_by_name, store_content,
}
use influxdb_cluster.Hh.Directory.Names.{parse_uint, format_uint, parse_uint-format_uint}
use influxdb_cluster.Hh.Queue.{raise_id, max_id}
use influxdb_cluster.Hh.Fifo.{FilesOnly}
use influxdb_cluster.Hh.Fifo.Listing.{Found, Found-sort, FilesOnly-sort, same_name_sound}

le-raise_id : (m : ℕ) (e : Entry) → m ≤ raise_id m e
unfolding raise_id
le-raise_id m e = ground arith

id-le-raise_id :
    (m id : ℕ) (e : Entry) → e.is_dir ≡ false → parse_uint e.name ≡ some id → id ≤ raise_id m e
unfolding raise_id
id-le-raise_id m id e f h = rw (f, h) (ground arith)

le-max_id : (m : ℕ) (es : List Entry) → m ≤ max_id m es
unfolding max_id
le-max_id m [] = omega arith
le-max_id m (e ∷ es) = omega (arith, le-raise_id m e, le-max_id (raise_id m e) es)

id-le-max_id :
    (n : FileName) (id m : ℕ) (es : List Entry)
    → parse_uint n ≡ some id
    → FilesOnly es
    → Found n es
    → id ≤ max_id m es
unfolding max_id lookup
id-le-max_id n id m [] e f h = cc (h.1)
id-le-max_id n id m (x ∷ es) e f (y, h) = elim (Bool-cases (same_name x.name n)) [
  | inl hit ↦ omega (
    arith,
    id-le-raise_id m id x f.0 (ap parse_uint (same_name_sound x.name n hit) ∙ e),
    le-max_id (raise_id m x) es,
  )
  | inr miss ↦ id-le-max_id n id (raise_id m x) es e f.1 (y, rw miss at h)
]

-- The name of the next segment has no file.
pub fresh_name :
    (es : List Entry)
    → FilesOnly es
    → max_id 0 (sort_by_name es) + 1 < word
    → lookup (format_uint (max_id 0 (sort_by_name es) + 1)) es ≡ none
fresh_name es f small = elim (Option-cases (lookup (format_uint next) es)) [
  | inl missing ↦ missing
  | inr (e, h) ↦ absurd (
      omega (
        arith,
        id-le-max_id (format_uint next) next 0 (sort_by_name es) (parse_uint-format_uint next small)
            (FilesOnly-sort es f) (Found-sort (format_uint next) es (e, h)),
      ))
]
  where
    next : ℕ
    next = max_id 0 (sort_by_name es) + 1

-- Writing to a file changes no name.
module _ (n : FileName) (f : File) where
  insert-store :
      (e : Entry) (es : List Entry)
      → insert_by_name
          (if same_name e.name n then record e { content = f } else e)
          (store_content n (some f) es)
        ≡ store_content n (some f) (insert_by_name e es)
  unfolding insert_by_name store_content
  insert-store e [] = refl
  insert-store e (y ∷ es) = ground (arith, insert-store e es)

  sort-store :
      (es : List Entry)
      → sort_by_name (store_content n (some f) es) ≡ store_content n (some f) (sort_by_name es)
  unfolding sort_by_name store_content
  sort-store [] = refl
  sort-store (e ∷ es) = rw (sort-store es) (insert-store e (sort_by_name es))

  max_id-store : (m : ℕ) (es : List Entry) → max_id m (store_content n (some f) es) ≡ max_id m es
  unfolding max_id raise_id store_content
  max_id-store m [] = refl
  max_id-store m (e ∷ es) = elim (Bool-cases (same_name e.name n)) [
    | inl hit ↦ rw hit (max_id-store (raise_id m e) es)
    | inr miss ↦ rw miss (max_id-store (raise_id m e) es)
  ]

  pub next-store :
      (es : List Entry)
      → max_id 0 (sort_by_name (store_content n (some f) es)) ≡ max_id 0 (sort_by_name es)
  next-store es = rw (sort-store es) (max_id-store 0 (sort_by_name es))

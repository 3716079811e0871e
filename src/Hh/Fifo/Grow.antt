-- ===== src/Hh/Fifo/Grow.antt =====
-- A new segment behind the others: addSegment.
use influxdb_cluster.Prelude.{
  ℕ, suc, ◌+◌, ◌<◌, ◌≡◌, refl, sym, ap, ◌∙◌, false, none, some, List, [], ◌∷◌, ◌++◌, map, arith,
}
use influxdb_cluster.Prelude.Bytes.{add64, word}
use influxdb_cluster.Hh.Exec.{ok}
use influxdb_cluster.Hh.Os.{FileName, File}
use influxdb_cluster.Hh.Os.Laws.{healthy}
use influxdb_cluster.Hh.Directory.{
  Entry, Directory, lookup, dir_call, read_dir, sort_by_name, open_file, open_entry,
}
use influxdb_cluster.Hh.Directory.Names.{format_uint}
use influxdb_cluster.Hh.Segment.Reopen.{new_segment_empty}
use influxdb_cluster.Hh.Queue.{
  Queue, put_back, max_id, next_segment_id, adopt, make_segment, add_segment, last,
}
use influxdb_cluster.Hh.Fifo.{Part, part, ref_of, segment, Fits, IsQueue}
use influxdb_cluster.Hh.Fifo.Heap.{Holds-append}
use influxdb_cluster.Hh.Fifo.Listing.{
  Found-store, Found-here, Listed-cons, Listed-store, Listed-append, FilesOnly-store,
}
use influxdb_cluster.Hh.Fifo.Ids.{fresh_name}

read_dir_lem : (d : Directory) → d.outcomes ≡ [] → read_dir d ≡ (ok (sort_by_name d.entries), d)
unfolding read_dir
read_dir_lem d healthy = ap (λ o. dir_call (λ e. (ok (sort_by_name e.entries), e)) o d) healthy

abbrev new_entry : FileName → Entry
new_entry n = record { name = n; is_dir = false; content = healthy [] 0 }

open_file_new :
    (n : FileName) (d : Directory)
    → d.outcomes ≡ []
    → d.fresh ≡ []
    → lookup n d.entries ≡ none
    → open_file n d ≡ (ok (healthy [] 0), record d { entries = new_entry n ∷ d.entries })
unfolding open_file open_entry
open_file_new n d calls fresh missing =
    ap (λ o. dir_call (λ e. open_entry n (lookup n e.entries) e) o d) calls
    ∙ (ap (λ x. open_entry n x d) missing
        ∙ ap
            (λ o.
              let f : File = record { bytes = []; cursor = 0; outcomes = o } in
              (
                ok f,
                record d { entries = record { name = n; is_dir = false; content = f } ∷ d.entries },
              ))
            fresh)

-- The number of the next segment.
abbrev pub next_id : Queue → ℕ
next_id q = max_id 0 (sort_by_name q.dir.entries) + 1

-- The new part, which holds no block.
abbrev pub new_part : Queue → Part
new_part q = part q.next_ref (format_uint (next_id q)) [] [] 8

-- The queue with its new segment, which is not yet the tail.
abbrev pub grown : Queue → Queue
grown q =
    let made = put_back q.next_ref (segment q.max_segment_size (new_part q)) (record q {
      dir = record q.dir { entries = new_entry (format_uint (next_id q)) ∷ q.dir.entries };
    }) in
    record made {
      next_ref = suc q.next_ref;
      segments = q.segments ++ q.next_ref ∷ [];
      is_nil = false;
    }

next_segment_id_lem :
    (q : Queue) → q.dir.outcomes ≡ [] → next_id q < word → next_segment_id q ≡ (ok (next_id q), q)
unfolding next_segment_id
next_segment_id_lem q calls small = rw (read_dir_lem q.dir calls, wraps)
  where
    wraps : add64 (max_id 0 (sort_by_name q.dir.entries)) 1 ≡ next_id q
    wraps = omega arith

pub add_segment_lem :
    (q : Queue) (ps : List Part)
    → IsQueue q ps
    → next_id q < word
    → add_segment q ≡ (ok q.next_ref, grown q)
unfolding add_segment make_segment adopt
add_segment_lem q ps inv small = rw (
  next_segment_id_lem q inv.calls small,
  open_file_new (format_uint (next_id q)) q.dir inv.calls inv.fresh
      (fresh_name q.dir.entries inv.files small),
  new_segment_empty (format_uint (next_id q)) q.max_segment_size 0,
)

pub map_snoc : (ps : List Part) (p : Part) → map ref_of (ps ++ p ∷ []) ≡ map ref_of ps ++ p.ref ∷ []
map_snoc [] p = refl
map_snoc (q ∷ ps) p = ap (◌∷◌ q.ref) (map_snoc ps p)

pub last_snoc : (rs : List ℕ) (r : ℕ) → last (rs ++ r ∷ []) ≡ some r
last_snoc [] r = refl
last_snoc (a ∷ []) r = refl
last_snoc (a ∷ b ∷ rs) r = last_snoc (b ∷ rs) r

-- With the new segment as its tail the queue has one more part.
pub grown-IsQueue :
    (q : Queue) (p : Part) (ps : List Part)
    → IsQueue q (p ∷ ps)
    → next_id q < word
    → Fits q.max_segment_size (new_part q)
    → IsQueue (record (grown q) { tail = some q.next_ref }) (p ∷ ps ++ new_part q ∷ [])
grown-IsQueue q p ps inv small fits = record {
  refs = ap (λ rs. rs ++ q.next_ref ∷ []) inv.refs ∙ sym (map_snoc (p ∷ ps) (new_part q));
  holds =
      Holds-append q.objects q.max_segment_size 0 q.next_ref (p ∷ ps) (new_part q) refl fits
        inv.holds;
  bound = inv.bound;
  head = inv.head;
  tail =
      sym (ap last (map_snoc (p ∷ ps) (new_part q)) ∙ last_snoc (map ref_of (p ∷ ps)) q.next_ref);
  listed =
      Listed-append q.dir.entries _ (p ∷ ps) (new_part q) (fresh_name q.dir.entries inv.files small)
        (Found-store _ _ _ _ (Found-here (new_entry (format_uint (next_id q))) q.dir.entries))
        inv.listed
        (Listed-store _ _ _ (p ∷ ps)
          (Listed-cons (new_entry (format_uint (next_id q))) q.dir.entries (p ∷ ps) inv.listed));
  files =
      FilesOnly-store _ _ (new_entry (format_uint (next_id q)) ∷ q.dir.entries) (refl, inv.files);
  calls = inv.calls;
  fresh = inv.fresh;
}

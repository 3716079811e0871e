-- ===== src/Hh/Fifo/Trim.antt =====
-- Dropping the head segment: trimHead.
use influxdb_cluster.Prelude.{
  ℕ, suc, ◌≡◌, refl, ap, ◌∙◌, none, some, List, [], ◌∷◌, map, ==_self, arith,
}
use influxdb_cluster.Hh.Exec.{Result, ok, modify, ◌>>◌}
use influxdb_cluster.Hh.Os.{FileName, close}
use influxdb_cluster.Hh.Directory.{
  Entry, Directory, lookup, without, remove, remove_entry, dir_call, store_content,
}
use influxdb_cluster.Hh.Segment.{Segment, close_segment}
use influxdb_cluster.Hh.Segment.Layout.{segment_of}
use influxdb_cluster.Hh.Queue.{Queue, update, on_segment, trim, trim_head, close_object, on_dir}
use influxdb_cluster.Hh.Fifo.{Part, ref_of, segment, Holds, IsQueue}
use influxdb_cluster.Hh.Fifo.Heap.{Holds-at, Holds-update_below}
use influxdb_cluster.Hh.Fifo.Listing.{Listed-without, FilesOnly-without}

remove_lem :
    (n : FileName) (d : Directory) (e : Entry)
    → d.outcomes ≡ []
    → lookup n d.entries ≡ some e
    → remove n d ≡ (ok tt, record d { entries = without n d.entries })
unfolding remove remove_entry
remove_lem n d e healthy found =
    ap (λ o. dir_call (λ x. remove_entry n (lookup n x.entries) x) o d) healthy
    ∙ ap (λ x. remove_entry n x d) found

-- A closed segment.
closed : ℕ → Part → Segment
unfolding segment_of
closed max_size p = record (segment max_size p) { file = none }

close_part :
    (q : Queue) (p : Part)
    → q.objects p.ref ≡ segment q.max_segment_size p
    → close_object p.ref q
      ≡ (ok tt, record q { objects = update q.objects p.ref (closed q.max_segment_size p) })
unfolding close_object on_segment close_segment close closed store_content
close_part q p at = rw at

-- The queue after its head is dropped.
trimmed : Queue → Part → Part → List Part → Queue
trimmed q p s rest = record q {
  dir = record q.dir { entries = without p.path q.dir.entries };
  head = some s.ref;
  segments = s.ref ∷ map ref_of rest;
  objects = update q.objects p.ref (closed q.max_segment_size p);
}

trim_head-eq :
    (q : Queue) (p s : Part) (rest : List Part)
    → IsQueue q (p ∷ s ∷ rest)
    → trim_head q ≡ (ok tt, trimmed q p s rest)
unfolding trim_head trim trimmed closed
trim_head-eq q p s rest inv =
    ap (λ h. trim h q.segments q) inv.head
    ∙ (ap (λ rs. trim (some p.ref) rs q) inv.refs
        ∙ rw
            (close_part (record q { segments = s.ref ∷ map ref_of rest }) p
              (Holds-at q.objects q.max_segment_size 0 q.next_ref [] (s ∷ rest) p inv.holds).0)
            (ap finish path_eq
              ∙ rw (remove_lem p.path q.dir inv.listed.0.0 inv.calls inv.listed.0.1)))
  where
    open_files : Queue
    open_files = record q {
      segments = s.ref ∷ map ref_of rest;
      objects = update q.objects p.ref (closed q.max_segment_size p);
    }

    finish : FileName → Result (Unit {0}) × Queue
    finish n = (on_dir (remove n) >> modify (λ t. record t { head = some s.ref })) open_files

    path_eq : (open_files.objects p.ref).path ≡ p.path
    path_eq = rw (==_self p.ref)

Holds-weaken :
    (objects : ℕ → Segment) (max_size lo hi : ℕ) (s : Part) (rest : List Part)
    → Holds objects max_size lo (s ∷ rest) hi
    → Holds objects max_size 0 (s ∷ rest) hi
Holds-weaken objects max lo hi s rest h = (omega arith, h.1, h.2, h.3)

-- In a well-formed queue with another segment behind it, the head is closed, the entry of its file
-- is taken out of the directory, and the next segment is the head of what is left of the queue.
pub trim_head-IsQueue :
    (q : Queue) (p s : Part) (rest : List Part)
    → IsQueue q (p ∷ s ∷ rest)
    → ((trim_head q).0 ≡ ok tt)
      × IsQueue (trim_head q).1 (s ∷ rest)
      × (((trim_head q).1.objects p.ref).file ≡ none)
      × ((trim_head q).1.dir.entries ≡ without p.path q.dir.entries)
unfolding trimmed closed
trim_head-IsQueue q p s rest inv =
    let e = trim_head-eq q p s rest inv in
    (
      ap (λ t. t.0) e,
      rw e (record {
        refs = refl;
        holds =
            Holds-weaken (update q.objects p.ref (closed q.max_segment_size p)) q.max_segment_size
              (suc p.ref) q.next_ref s rest
              (Holds-update_below q.objects q.max_segment_size p.ref (closed q.max_segment_size p)
                (suc p.ref) q.next_ref (s ∷ rest) (omega arith) inv.holds.3);
        bound = inv.bound;
        head = refl;
        tail = inv.tail;
        listed = Listed-without p.path q.dir.entries (s ∷ rest) inv.listed.1 inv.listed.2;
        files = FilesOnly-without p.path q.dir.entries inv.files;
        calls = inv.calls;
        fresh = inv.fresh;
      }),
      rw e (rw (==_self p.ref) refl),
      ap (λ t. t.1.dir.entries) e,
    )

-- With one segment nothing is dropped.
pub trim_head_single : (q : Queue) (p : Part) → IsQueue q (p ∷ []) → trim_head q ≡ (ok tt, q)
unfolding trim_head trim
trim_head_single q p inv =
    ap (λ h. trim h q.segments q) inv.head ∙ ap (λ rs. trim (some p.ref) rs q) inv.refs

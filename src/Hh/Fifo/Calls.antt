-- ===== src/Hh/Fifo/Calls.antt =====
-- A call on the segment of a part.
use influxdb_cluster.Prelude.{◌≡◌, sym, ap, ◌∙◌, List, ◌∷◌, ◌++◌}
use influxdb_cluster.Hh.Exec.{Result, Exec}
use influxdb_cluster.Hh.Segment.{Segment}
use influxdb_cluster.Hh.Segment.Layout.{segment_of}
use influxdb_cluster.Hh.Queue.{Queue, put_back, on_segment, first, last}
use influxdb_cluster.Hh.Fifo.{Part, segment, Fits, IsQueue}
use influxdb_cluster.Hh.Fifo.Heap.{Holds-update, Holds-at, map_replace}
use influxdb_cluster.Hh.Fifo.Listing.{FilesOnly-store, Listed-store, Listed-replace}

module _ {A : Type 0} (q : Queue) (before after : List Part) (p p' : Part)
    (inv : IsQueue q (before ++ p ∷ after)) where
  -- The call does to the queue what it does to the segment.
  pub on_segment_lem :
      (m : Exec Segment A) (r : Result A)
      → m (segment q.max_segment_size p) ≡ (r, segment q.max_segment_size p')
      → on_segment p.ref m q ≡ (r, put_back p.ref (segment q.max_segment_size p') q)
  unfolding on_segment
  on_segment_lem m r e =
      rw ((Holds-at q.objects q.max_segment_size 0 q.next_ref before after p inv.holds).0, e)

module _ (q : Queue) (before after : List Part) (p p' : Part)
    (inv : IsQueue q (before ++ p ∷ after)) where
  pub put_back-IsQueue :
      p'.ref ≡ p.ref
      → p'.path ≡ p.path
      → Fits q.max_segment_size p'
      → IsQueue (put_back p.ref (segment q.max_segment_size p') q) (before ++ p' ∷ after)
  unfolding segment_of
  put_back-IsQueue same_ref same_path fits = record {
    refs = inv.refs ∙ sym (map_replace before after p p' same_ref);
    holds =
        Holds-update q.objects q.max_segment_size 0 q.next_ref before after p p' same_ref fits
          inv.holds;
    bound = inv.bound;
    head = inv.head ∙ ap first (sym (map_replace before after p p' same_ref));
    tail = inv.tail ∙ ap last (sym (map_replace before after p p' same_ref));
    listed =
        Listed-store _ _ q.dir.entries _
          (Listed-replace q.dir.entries before after p p' same_path inv.listed);
    files = FilesOnly-store _ _ q.dir.entries inv.files;
    calls = inv.calls;
    fresh = inv.fresh;
  }

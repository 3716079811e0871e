-- ===== src/Cluster/PointsWriter/Written.antt =====
-- What the points writer of cluster/points_writer.go has written when it reports success.
use mathlib.Core.Path.{subst}
use influxdb_cluster.Prelude.{
  ℕ, zero, suc, ◌≡◌, refl, sym, ap, ◌∙◌, inl, inr, Option, none, some, Option-cases, List, [], ◌∷◌,
  ◌++◌, append-nil, append_assoc, All,
}
use influxdb_cluster.Meta.Data.{ShardInfo, ShardGroupInfo}
use influxdb_cluster.Cluster.Store.{
  Reply, ok, err, shard_not_found, database_not_found, Name, TsdbStore, Node,
}
use influxdb_cluster.Cluster.PointsWriter.{
  ShardMapping, MetaClient, Points, map_points, new_shard_mapping, mapped, map_in, map_with,
  map_shards, shard_in, taken_if, write_once, after_create, retry_write, write_to_shard, then_write,
  write_jobs, collect, named_policy, collect_from, write_mapped, write_named, write_points,
}
use influxdb_cluster.Cluster.PointsWriter.Groups.{IsOrder, Made, ranges-Made}
use influxdb_cluster.Cluster.PointsWriter.Mapping.{Known, Maps, map_points-Maps_if}

module _ {S Point : Type 0} (tsdb : TsdbStore S Point) where
  -- The call took the points for the shard if it succeeded, and nothing if not.
  abbrev pub Took : Node S Point → ℕ → List Point → Reply (Unit {0}) × Node S Point → Type 0
  Took n id points (ok _, n') = n'.taken ≡ n.taken ++ (id, points) ∷ []
  Took n id points (err e, n') = n'.taken ≡ n.taken

  pub write_once-Took :
      (id : ℕ) (points : List Point) (n : Node S Point)
      → Took n id points (write_once tsdb id points n)
  unfolding write_once
  write_once-Took id points n = taken (tsdb.write_to_shard id points n.store)
    where
      taken : (r : Reply (Unit {0}) × S) → Took n id points (taken_if tsdb r id points n)
      taken (ok _, s) = refl
      taken (err e, s) = refl

  pub after_create-Took :
      (r : Reply (Unit {0}) × S) (id : ℕ) (points : List Point) (n : Node S Point)
      → Took n id points (after_create tsdb r id points n)
  after_create-Took (err e, s) id points n = refl
  after_create-Took (ok _, s) id points n = write_once-Took id points (record n { store = s })

  pub Took-after :
      (n m : Node S Point) (id : ℕ) (points : List Point) (r : Reply (Unit {0}) × Node S Point)
      → m.taken ≡ n.taken
      → Took m id points r
      → Took n id points r
  Took-after n m id points (ok _, n') e h = h ∙ ap (λ xs. xs ++ (id, points) ∷ []) e
  Took-after n m id points (err x, n') e h = h ∙ e

  retry_write-Took :
      (first : Reply (Unit {0}) × Node S Point) (database policy : Name) (id : ℕ)
      (points : List Point) (n : Node S Point)
      → Took n id points first
      → Took n id points (retry_write tsdb first.0 database policy id points first.1)
  unfolding retry_write
  retry_write-Took (ok _, m) database policy id points n h = h
  retry_write-Took (err shard_not_found, m) database policy id points n h =
      Took-after n m id points
        (after_create tsdb (tsdb.create_shard database policy id m.store) id points m) h
        (after_create-Took (tsdb.create_shard database policy id m.store) id points m)
  retry_write-Took (err _, m) database policy id points n h =
      Took-after n m id points (write_once tsdb id points m) h (write_once-Took id points m)

  -- writeToShard takes the points once if it reports success, also after a retry, and not at all if
  -- it reports an error.
  pub write_to_shard-Took :
      (database policy : Name) (id : ℕ) (points : List Point) (n : Node S Point)
      → Took n id points (write_to_shard tsdb database policy id points n)
  unfolding write_to_shard
  write_to_shard-Took database policy id points n =
      retry_write-Took (write_once tsdb id points n) database policy id points n
        (write_once-Took id points n)

  -- Results that are collected with no error: the first is none, and so are the others.
  collect-first :
      (closing : Option ℕ) (r : Reply (Unit {0}) × Node S Point) (rs : List (Reply (Unit {0})))
      (id : ℕ) (points : List Point) (n : Node S Point)
      → Took n id points r
      → collect closing (r.0 ∷ rs) ≡ ok tt
      → (r.1.taken ≡ n.taken ++ (id, points) ∷ []) × ((left : Option ℕ) × (collect left rs ≡ ok tt))
  unfolding collect
  collect-first none (ok _, m) rs id points n h e = (h, (none, e))
  collect-first none (err x, m) rs id points n h e = cc e
  collect-first (some zero) r rs id points n h e = cc e
  collect-first (some (suc k)) (ok _, m) rs id points n h e = (h, (some k, e))
  collect-first (some (suc k)) (err x, m) rs id points n h e = cc e

  -- The goroutines return, and have written all if the results are collected with no error.
  pub record Wrote (jobs : List (ℕ × List Point)) (n : Node S Point)
      (o : Option (List (Reply (Unit {0})) × Node S Point)) : Type 0 where
    pub results : List (Reply (Unit {0}))
    pub after : Node S Point
    pub returned : o ≡ some (results, after)
    pub all_taken :
        (closing : Option ℕ) → collect closing results ≡ ok tt → after.taken ≡ n.taken ++ jobs

  pub write_jobs-Wrote :
      (database policy : Name) (shards : List (ℕ × ShardInfo)) (jobs : List (ℕ × List Point))
      (n : Node S Point)
      → All (λ j. Known shards j.0) jobs
      → Wrote jobs n (write_jobs tsdb database policy shards jobs n)
  unfolding write_jobs
  write_jobs-Wrote database policy shards [] n h = record {
    results = [];
    after = n;
    returned = refl;
    all_taken = λ closing e. sym (append-nil n.taken);
  }
  write_jobs-Wrote database policy shards (j ∷ js) n h =
      let (sh, found, same) = h.0 in
      let r = write_to_shard tsdb database policy sh.id j.1 n in
      let rest = write_jobs-Wrote database policy shards js r.1 h.1 in
      record {
        results = r.0 ∷ rest.results;
        after = rest.after;
        returned =
            ap
              (λ o.
                then_write tsdb o database policy j.1 (write_jobs tsdb database policy shards js) n)
              found
            ∙ ap (λ o. elim o [ none ↦ none | some x ↦ some (r.0 ∷ x.0, x.1) ]) rest.returned;
        all_taken = λ closing e.
            let (first, (left, others)) =
              collect-first closing r rest.results sh.id j.1 n
                (write_to_shard-Took database policy sh.id j.1 n) e in
            rest.all_taken left others
            ∙ (ap (λ xs. xs ++ js) first
                ∙ (append_assoc n.taken ((sh.id, j.1) ∷ []) js
                    ∙ ap (λ i. n.taken ++ (i, j.1) ∷ js) same));
      }

module _ {M S Point : Type 0} (meta : MetaClient M) (pts : Points Point)
    (tsdb : TsdbStore S Point) where
  -- The policy that is asked for, or else the default one of the database.
  abbrev pub IsPolicy : Name → Name → M → Name → Type 0
  IsPolicy database [] m policy = meta.default_policy database m ≡ some policy
  IsPolicy database (c ∷ cs) m policy = policy ≡ c ∷ cs

  -- What WritePoints has written when it reports success: the points of the mapping by the shard
  -- groups of the policy, shard by shard.
  pub record WroteAll (order : List (ℕ × List Point) → List (ℕ × List Point))
      (database asked : Name) (points : List Point) (m : M) (n n' : Node S Point) : Type 0 where
    pub policy : Name
    pub is_policy : IsPolicy database asked m policy
    pub duration : ℕ
    pub of_policy : meta.retention_policy database policy m ≡ ok (some duration)
    pub groups : List (ℕ × Option ShardGroupInfo)
    pub made : Made meta pts database policy duration groups points
    pub mapping : ShardMapping Point
    pub maps : Maps (shard_in meta pts groups duration) points mapping
    pub taken : n'.taken ≡ n.taken ++ order mapping.points

  -- The order keeps what holds of all jobs, as a permutation does.
  abbrev pub Orders : (List (ℕ × List Point) → List (ℕ × List Point)) → Type 1
  Orders order =
      (P : ℕ × List Point → Type 0) (js : List (ℕ × List Point)) → All P js → All P (order js)

  -- What is known of a mapping that MapShards gives.
  abbrev Sound : Name → Name → List Point → M → Option (Reply (ShardMapping Point)) → Type 0
  Sound database policy points m none = Unit {0}
  Sound database policy points m (some (err e)) = Unit {0}
  Sound database policy points m (some (ok mapping)) =
      (duration : ℕ) × (groups : List (ℕ × Option ShardGroupInfo)) × (meta.retention_policy database
          policy m
        ≡ ok (some duration))
      × Made meta pts database policy duration groups points
      × Maps (shard_in meta pts groups duration) points mapping

  map_in-Sound :
      (groups : Reply (List (ℕ × Option ShardGroupInfo))) (duration : ℕ) (database policy : Name)
      (points : List Point) (m : M)
      → meta.retention_policy database policy m ≡ ok (some duration)
      → ((gs : List (ℕ × Option ShardGroupInfo))
          → groups ≡ ok gs
          → Made meta pts database policy duration gs points)
      → Sound database policy points m (map_in meta pts groups duration points)
  map_in-Sound (err e) duration database policy points m found made = tt
  map_in-Sound (ok gs) duration database policy points m found made =
      elim (Option-cases (map_points (shard_in meta pts gs duration) points new_shard_mapping)) [
        | inl e ↦ subst (λ o. Sound database policy points m (mapped o)) (sym e) tt
        | inr (mapping, e) ↦
            subst (λ o. Sound database policy points m (mapped o)) (sym e)
              (
                duration,
                gs,
                found,
                made gs refl,
                map_points-Maps_if (shard_in meta pts gs duration) points mapping e,
              )
      ]

  map_shards-Sound :
      (r : Reply (Option ℕ)) (database policy : Name) (points : List Point) (m : M)
      → IsOrder pts.range_order
      → meta.retention_policy database policy m ≡ r
      → Sound database policy points m (map_with meta pts r database policy points m).0
  map_shards-Sound (err e) database policy points m order q = tt
  map_shards-Sound (ok none) database policy points m order q = tt
  map_shards-Sound (ok (some duration)) database policy points m order q =
      map_in-Sound _ duration database policy points m q
        (λ gs e. ranges-Made meta pts database policy duration points m gs order e)

  -- The goroutines write the mapping.
  jobs-taken :
      (order : List (ℕ × List Point) → List (ℕ × List Point)) (closing : Option ℕ)
      (database policy : Name) (mapping : ShardMapping Point) (m m' : M) (n n' : Node S Point)
      → All (λ j. Known mapping.shards j.0) (order mapping.points)
      → collect_from meta pts tsdb closing m
          (write_jobs tsdb database policy mapping.shards (order mapping.points) n)
        ≡ some (ok tt, m', n')
      → n'.taken ≡ n.taken ++ order mapping.points
  jobs-taken order closing database policy mapping m m' n n' known e =
      let w = write_jobs-Wrote tsdb database policy mapping.shards (order mapping.points) n known in
      let q : some (collect closing w.results, m, w.after) ≡ some (ok tt, m', n') =
        ap (collect_from meta pts tsdb closing m) (sym w.returned) ∙ e in
      let (good, last) : (collect closing w.results ≡ ok tt) × (w.after ≡ n') = (cc q, cc q) in
      ap (λ x. x.taken) (sym last) ∙ w.all_taken closing good

  mapped-WroteAll :
      (order : List (ℕ × List Point) → List (ℕ × List Point)) (closing : Option ℕ)
      (database asked policy : Name) (x : Option (Reply (ShardMapping Point)) × M)
      (points : List Point) (m m' : M) (n n' : Node S Point)
      → Orders order
      → IsPolicy database asked m policy
      → Sound database policy points m x.0
      → write_mapped meta pts tsdb order closing database policy x n ≡ some (ok tt, m', n')
      → WroteAll order database asked points m n n'
  mapped-WroteAll order closing database asked policy (none, l) points m m' n n' keeps is sound e =
      cc e
  mapped-WroteAll order closing database asked policy (some (err x), l) points m m' n n' keeps is
        sound e =
      cc e
  mapped-WroteAll order closing database asked policy (some (ok mapping), l) points m m' n n' keeps
        is sound e =
      let (duration, groups, found, made, maps) = sound in
      record {
        policy = policy;
        is_policy = is;
        duration = duration;
        of_policy = found;
        groups = groups;
        made = made;
        mapping = mapping;
        maps = maps;
        taken =
            jobs-taken order closing database policy mapping l m' n n'
              (keeps (λ j. Known mapping.shards j.0) mapping.points maps.mapped.known) e;
      }

  named-WroteAll :
      (order : List (ℕ × List Point) → List (ℕ × List Point)) (closing : Option ℕ)
      (database asked : Name) (r : Reply Name) (points : List Point) (m m' : M)
      (n n' : Node S Point)
      → Orders order
      → IsOrder pts.range_order
      → ((policy : Name) → r ≡ ok policy → IsPolicy database asked m policy)
      → write_named meta pts tsdb order closing database r points m n ≡ some (ok tt, m', n')
      → WroteAll order database asked points m n n'
  unfolding map_shards
  named-WroteAll order closing database asked (err x) points m m' n n' keeps ranges is e = cc e
  named-WroteAll order closing database asked (ok policy) points m m' n n' keeps ranges is e =
      mapped-WroteAll order closing database asked policy
        (map_with meta pts (meta.retention_policy database policy m) database policy points m)
        points m m' n n' keeps (is policy refl)
        (map_shards-Sound (meta.retention_policy database policy m) database policy points m ranges
          refl)
        e

  named_policy-IsPolicy :
      (database asked policy : Name) (m : M)
      → named_policy meta pts tsdb database asked m ≡ ok policy
      → IsPolicy database asked m policy
  unfolding named_policy
  named_policy-IsPolicy database [] policy m e = default (meta.default_policy database m) e
    where
      default :
          (o : Option Name)
          → (elim o [ none ↦ err database_not_found | some rp ↦ ok rp ]) ≡ ok policy
          → o ≡ some policy
      default none e = cc e
      default (some rp) e = cc e
  named_policy-IsPolicy database (c ∷ cs) policy m e = cc e

  -- If WritePoints reports success, then what the store of the node has taken is, for each shard in
  -- the mapping of the points, one write of the points whose shard it is, in the order in which the
  -- goroutines ran, and nothing else. The shard of a point is that of its group, which
  -- CreateShardGroup gave for the start of its range, by the duration of the policy that was asked
  -- for, or else of the default one of the database. Of the two orders it is assumed that that of the
  -- goroutines keeps what holds of every job, and that of the ranges what is under each key.
  pub write_points-WroteAll :
      (order : List (ℕ × List Point) → List (ℕ × List Point)) (closing : Option ℕ)
      (database asked : Name) (points : List Point) (m m' : M) (n n' : Node S Point)
      → Orders order
      → IsOrder pts.range_order
      → write_points meta pts tsdb order closing database asked points m n ≡ some (ok tt, m', n')
      → WroteAll order database asked points m n n'
  unfolding write_points
  write_points-WroteAll order closing database asked points m m' n n' keeps ranges e =
      named-WroteAll order closing database asked (named_policy meta pts tsdb database asked m)
        points m m' n n' keeps ranges (λ policy q. named_policy-IsPolicy database asked policy m q)
        e

-- ===== src/Cluster/PointsWriter.antt =====
-- The points writer of cluster/points_writer.go: points are mapped to shards, and the points of each
-- shard are written in a goroutine of its own. The counters and the subscribers are left out.
pub mod Mapping
pub mod Groups
pub mod Written
pub mod Tests
use influxdb_cluster.Prelude.{
  ℕ, zero, suc, Bool, true, false, Option, none, some, List, [], ◌∷◌, ◌++◌, ◌==◌, if◌then◌else◌,
}
use influxdb_cluster.Meta.Data.{ShardInfo, ShardGroupInfo}
use influxdb_cluster.Cluster.Store.{
  Reply, ok, err, WriteError, shard_not_found, database_not_found, policy_not_found, write_failed,
  Name, TsdbStore, Node,
}

-- A Go map with numbers as its keys.
module _ {A : Type 0} where
  unfoldable pub get : ℕ → List (ℕ × A) → Option A
  get k [] = none
  get k (e ∷ es) = if e.0 == k then some e.1 else get k es

  unfoldable pub set : ℕ → A → List (ℕ × A) → List (ℕ × A)
  set k a [] = (k, a) ∷ []
  set k a (e ∷ es) = if e.0 == k then (k, a) ∷ es else e ∷ set k a es

-- The points and the shards by the id of the shard.
pub record ShardMapping (Point : Type 0) : Type 0 where
  pub points : List (ℕ × List Point)
  pub shards : List (ℕ × ShardInfo)

-- The MetaClient, on a state of the metadata. A policy comes as the duration of its shard groups.
pub record MetaClient (M : Type 0) : Type 0 where
  pub default_policy : Name → M → Option Name
  pub retention_policy : Name → Name → M → Reply (Option ℕ)
  pub create_shard_group : Name → Name → ℕ → M → Reply (Option ShardGroupInfo) × M

-- The methods of a point, `Time.Truncate`, and ShardFor of a group, which may be a nil pointer and
-- then may panic (`none`).
pub record Points (Point : Type 0) : Type 0 where
  pub time : Point → ℕ
  pub hash_id : Point → ℕ
  pub truncate : ℕ → ℕ → ℕ
  pub shard_for : Option ShardGroupInfo → ℕ → Option ShardInfo
  -- The order in which Go goes over the map of time ranges.
  pub range_order : List (ℕ × Option ShardGroupInfo) → List (ℕ × Option ShardGroupInfo)

module _ {Point : Type 0} where
  abbrev pub new_shard_mapping : ShardMapping Point
  new_shard_mapping = record { points = []; shards = [] }

  abbrev pub with_point : Option (List Point) → Point → List Point
  with_point none p = p ∷ []
  with_point (some ps) p = ps ++ p ∷ []

  unfoldable pub map_point : ShardInfo → Point → ShardMapping Point → ShardMapping Point
  map_point sh p m = record {
    points = set sh.id (with_point (get sh.id m.points) p) m.points;
    shards = set sh.id sh m.shards;
  }

  -- The last loop of MapShards, over the shard of each point.
  abbrev pub then_map :
      Option ShardInfo
      → Point
      → (ShardMapping Point → Option (ShardMapping Point))
      → ShardMapping Point
      → Option (ShardMapping Point)
  then_map none p k m = none
  then_map (some sh) p k m = k (map_point sh p m)

  unfoldable pub map_points :
      (Point → Option ShardInfo) → List Point → ShardMapping Point → Option (ShardMapping Point)
  map_points shard_of [] m = some m
  map_points shard_of (p ∷ ps) m = then_map (shard_of p) p (map_points shard_of ps) m

  -- The map of time ranges, with no group for a range yet.
  unfoldable pub time_ranges :
      (Point → ℕ) → List Point → List (ℕ × Option ShardGroupInfo) → List (ℕ × Option ShardGroupInfo)
  time_ranges range_of [] rs = rs
  time_ranges range_of (p ∷ ps) rs = time_ranges range_of ps (set (range_of p) none rs)

abbrev pub mapped :
    {Point : Type 0} → Option (ShardMapping Point) → Option (Reply (ShardMapping Point))
mapped none = none
mapped (some m) = some (ok m)

module _ {M : Type 0} (meta : MetaClient M) (database policy : Name) where
  abbrev pub add_group :
      Reply (Option ShardGroupInfo) × M
      → ℕ
      → (M → Reply (List (ℕ × Option ShardGroupInfo)) × M)
      → Reply (List (ℕ × Option ShardGroupInfo)) × M
  add_group (err e, m) t k = (err e, m)
  add_group (ok g, m) t k =
      let rest = k m in (elim rest.0 [ err e ↦ err e | ok gs ↦ ok ((t, g) ∷ gs) ], rest.1)

  -- The loop that makes the shard groups.
  unfoldable pub create_groups :
      List (ℕ × Option ShardGroupInfo) → M → Reply (List (ℕ × Option ShardGroupInfo)) × M
  create_groups [] m = (ok [], m)
  create_groups (r ∷ rs) m =
      add_group (meta.create_shard_group database policy r.0 m) r.0 (create_groups rs)

module _ {M Point : Type 0} (meta : MetaClient M) (pts : Points Point) where
  abbrev pub group_of : List (ℕ × Option ShardGroupInfo) → ℕ → Option ShardGroupInfo
  group_of groups t = elim (get t groups) [ none ↦ none | some g ↦ g ]

  abbrev pub shard_in : List (ℕ × Option ShardGroupInfo) → ℕ → Point → Option ShardInfo
  shard_in groups duration p =
      pts.shard_for (group_of groups (pts.truncate (pts.time p) duration)) (pts.hash_id p)

  abbrev pub map_in :
      Reply (List (ℕ × Option ShardGroupInfo))
      → ℕ
      → List Point
      → Option (Reply (ShardMapping Point))
  map_in (err e) duration points = some (err e)
  map_in (ok groups) duration points =
      mapped (map_points (shard_in groups duration) points new_shard_mapping)

  abbrev pub map_with :
      Reply (Option ℕ) → Name → Name → List Point → M → Option (Reply (ShardMapping Point)) × M
  map_with (err e) database policy points m = (some (err e), m)
  map_with (ok none) database policy points m = (some (err policy_not_found), m)
  map_with (ok (some duration)) database policy points m =
      let groups =
        create_groups meta database policy
          (pts.range_order (time_ranges (λ p. pts.truncate (pts.time p) duration) points [])) m in
      (map_in groups.0 duration points, groups.1)

  -- MapShards; `none` is a panic.
  unfoldable pub map_shards : Name → Name → List Point → M → Option (Reply (ShardMapping Point)) × M
  map_shards database policy points m =
      map_with (meta.retention_policy database policy m) database policy points m

module _ {S Point : Type 0} (tsdb : TsdbStore S Point) where
  -- A call of WriteToShard, which is taken down if it succeeds.
  abbrev pub taken_if :
      Reply (Unit {0}) × S → ℕ → List Point → Node S Point → Reply (Unit {0}) × Node S Point
  taken_if (err e, s) id points n = (err e, record n { store = s })
  taken_if (ok _, s) id points n =
      (ok tt, record { store = s; taken = n.taken ++ (id, points) ∷ [] })

  unfoldable pub write_once : ℕ → List Point → Node S Point → Reply (Unit {0}) × Node S Point
  write_once id points n = taken_if (tsdb.write_to_shard id points n.store) id points n

  abbrev pub after_create :
      Reply (Unit {0}) × S → ℕ → List Point → Node S Point → Reply (Unit {0}) × Node S Point
  after_create (err e, s) id points n = (err e, record n { store = s })
  after_create (ok _, s) id points n = write_once id points (record n { store = s })

  -- A shard that is missing is made; after any other error the write is tried again at once.
  unfoldable pub retry_write :
      Reply (Unit {0})
      → Name
      → Name
      → ℕ
      → List Point
      → Node S Point
      → Reply (Unit {0}) × Node S Point
  retry_write (ok _) database policy id points n = (ok tt, n)
  retry_write (err shard_not_found) database policy id points n =
      after_create (tsdb.create_shard database policy id n.store) id points n
  retry_write (err _) database policy id points n = write_once id points n

  -- The method writeToShard.
  unfoldable pub write_to_shard :
      Name → Name → ℕ → List Point → Node S Point → Reply (Unit {0}) × Node S Point
  write_to_shard database policy id points n =
      let first = write_once id points n in retry_write first.0 database policy id points first.1

  -- The goroutines, in the order in which they run; each sends its result. A shard that is not in
  -- the map is a nil pointer (`none` is a panic).
  abbrev pub then_write :
      Option ShardInfo
      → Name
      → Name
      → List Point
      → (Node S Point → Option (List (Reply (Unit {0})) × Node S Point))
      → Node S Point
      → Option (List (Reply (Unit {0})) × Node S Point)
  then_write none database policy points k n = none
  then_write (some sh) database policy points k n =
      let r = write_to_shard database policy sh.id points n in
      elim (k r.1) [ none ↦ none | some rest ↦ some (r.0 ∷ rest.0, rest.1) ]

  unfoldable pub write_jobs :
      Name
      → Name
      → List (ℕ × ShardInfo)
      → List (ℕ × List Point)
      → Node S Point
      → Option (List (Reply (Unit {0})) × Node S Point)
  write_jobs database policy shards [] n = some ([], n)
  write_jobs database policy shards (j ∷ js) n =
      then_write (get j.0 shards) database policy j.1 (write_jobs database policy shards js) n

-- The loop at the end of WritePoints: `closing` is the number of results after which the writer is
-- seen to close, if it does.
unfoldable pub collect : Option ℕ → List (Reply (Unit {0})) → Reply (Unit {0})
collect closing [] = ok tt
collect (some zero) (r ∷ rs) = err write_failed
collect (some (suc n)) (r ∷ rs) = elim r [ err e ↦ err e | ok _ ↦ collect (some n) rs ]
collect none (r ∷ rs) = elim r [ err e ↦ err e | ok _ ↦ collect none rs ]

module _ {M S Point : Type 0} (meta : MetaClient M) (pts : Points Point)
    (tsdb : TsdbStore S Point) where
  -- Without a policy the default one of the database is taken.
  unfoldable pub named_policy : Name → Name → M → Reply Name
  named_policy database [] m = elim (meta.default_policy database m) [
    | none ↦ err database_not_found
    | some rp ↦ ok rp
  ]
  named_policy database (c ∷ cs) m = ok (c ∷ cs)

  abbrev pub collect_from :
      Option ℕ
      → M
      → Option (List (Reply (Unit {0})) × Node S Point)
      → Option (Reply (Unit {0}) × M × Node S Point)
  collect_from closing m none = none
  collect_from closing m (some r) = some (collect closing r.0, m, r.1)

  abbrev pub write_mapped :
      (List (ℕ × List Point) → List (ℕ × List Point))
      → Option ℕ
      → Name
      → Name
      → Option (Reply (ShardMapping Point)) × M
      → Node S Point
      → Option (Reply (Unit {0}) × M × Node S Point)
  write_mapped order closing database policy (none, m) n = none
  write_mapped order closing database policy (some (err e), m) n = some (err e, m, n)
  write_mapped order closing database policy (some (ok mapping), m) n =
      collect_from closing m
        (write_jobs tsdb database policy mapping.shards (order mapping.points) n)

  abbrev pub write_named :
      (List (ℕ × List Point) → List (ℕ × List Point))
      → Option ℕ
      → Name
      → Reply Name
      → List Point
      → M
      → Node S Point
      → Option (Reply (Unit {0}) × M × Node S Point)
  write_named order closing database (err e) points m n = some (err e, m, n)
  write_named order closing database (ok policy) points m n =
      write_mapped order closing database policy (map_shards meta pts database policy points m) n

  -- WritePoints, which does not look at the consistency level. `order` is that in which the
  -- goroutines run; `none` is a panic.
  unfoldable pub write_points :
      (List (ℕ × List Point) → List (ℕ × List Point))
      → Option ℕ
      → Name
      → Name
      → List Point
      → M
      → Node S Point
      → Option (Reply (Unit {0}) × M × Node S Point)
  write_points order closing database policy points m n =
      write_named order closing database (named_policy database policy m) points m n

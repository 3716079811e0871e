-- ===== src/Cluster/PointsWriter/Tests.antt =====
-- The theorems on cluster/points_writer.go at concrete data: a point is its time.
use influxdb_cluster.Prelude.{ℕ, ◌+◌, ◌*◌, ◌/◌, ◌≡◌, refl, Option, none, some, List, [], ◌∷◌}
use influxdb_cluster.Meta.Data.{ShardInfo, ShardGroupInfo}
use influxdb_cluster.Cluster.Store.{Reply, ok, err, shard_not_found, TsdbStore, Node}
use influxdb_cluster.Cluster.PointsWriter.{
  get, set, MetaClient, Points, map_point, map_points, time_ranges, create_groups, map_shards,
  write_once, retry_write, write_to_shard, write_jobs, collect, named_policy, write_points,
}
use influxdb_cluster.Cluster.PointsWriter.Written.{WroteAll, write_points-WroteAll}

abbrev group_at : ℕ → ShardGroupInfo
group_at t = record { id = t; start_time = t; end_time = t + 10; deleted_at = 0; shards = [] }

abbrev meta : MetaClient (Unit {0})
meta = record {
  default_policy = λ database m. some (b'd' ∷ []);
  retention_policy = λ database policy m. ok (some 10);
  create_shard_group = λ database policy t m. (ok (some (group_at t)), m);
}

abbrev shard_of_group : Option ShardGroupInfo → ℕ → Option ShardInfo
shard_of_group none hash = none
shard_of_group (some g) hash = some (record { id = g.id; owners = [] })

abbrev by_time : Points ℕ
by_time = record {
  time = λ p. p;
  hash_id = λ p. p;
  truncate = λ t d. t / d * d;
  shard_for = shard_of_group;
  range_order = λ rs. rs;
}

-- A store that has no shard until one is made.
abbrev pub write : ℕ → List ℕ → List ℕ → Reply (Unit {0}) × List ℕ
write id points [] = (err shard_not_found, [])
write id points (x ∷ xs) = (ok tt, x ∷ xs)

abbrev pub tsdb : TsdbStore (List ℕ) ℕ
tsdb = record { write_to_shard = write; create_shard = λ database policy id s. (ok tt, id ∷ s) }

abbrev pub node : Node (List ℕ) ℕ
node = record { store = []; taken = [] }

abbrev after : Node (List ℕ) ℕ
after = record { store = 10 ∷ []; taken = (10, 12 ∷ 15 ∷ []) ∷ (20, 21 ∷ []) ∷ [] }

succeeds :
    write_points meta by_time tsdb (λ js. js) none (b'a' ∷ []) [] (12 ∷ 21 ∷ 15 ∷ []) tt node
    ≡ some (ok tt, tt, after)
unfolding write_points named_policy map_shards time_ranges create_groups map_points map_point get
    set write_jobs write_to_shard retry_write write_once collect
succeeds = refl

write_points-WroteAll_example :
    WroteAll meta by_time tsdb (λ js. js) (b'a' ∷ []) [] (12 ∷ 21 ∷ 15 ∷ []) tt node after
write_points-WroteAll_example =
    write_points-WroteAll meta by_time tsdb (λ js. js) none (b'a' ∷ []) [] (12 ∷ 21 ∷ 15 ∷ []) tt tt
      node after (λ P js all. all) (λ rs k t. refl) succeeds

abbrev tens : ℕ → Option ShardInfo
tens p = some (record { id = p / 10; owners = [] })

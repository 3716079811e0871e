-- ===== src/Meta/ShardIds.antt =====
-- The ids of the shards that CreateShardGroup of meta/data.go makes.
use influxdb_cluster.Prelude.{ℕ, zero, suc, ◌+◌, ◌<◌, ◌≡◌, ◌≢◌, ◌∙◌, List, [], ◌∷◌, map, All, arith}
use influxdb_cluster.Prelude.Bytes.{word, add64}
use influxdb_cluster.Meta.Data.{ShardInfo}
use influxdb_cluster.Meta.Groups.{generated_shards}
use influxdb_cluster.Meta.RoundRobin.{NoneTwice}

-- A shard whose id is behind a number.
abbrev pub After : ℕ → ShardInfo → Type 0
After most s = most < s.id

After-weaken : (most : ℕ) (ss : List ShardInfo) → All (After (suc most)) ss → All (After most) ss
After-weaken most [] all = tt
After-weaken most (s ∷ ss) all = (omega (arith, all.0), After-weaken most ss all.1)

others :
    (most : ℕ) (ss : List ShardInfo)
    → All (After most) ss
    → All (λ y. y ≢ most) (map (λ s. s.id) ss)
others most [] all = tt
others most (s ∷ ss) all = (λ e. absurd (omega (arith, all.0)), others most ss all.1)

-- The new shards take the numbers behind the greatest id, no two of them one number, and the new
-- greatest id is as much greater as there are shards, unless the numbers are used up.
pub generated_shards-fresh :
    (n most : ℕ)
    → most + n < word
    → All (After most) (generated_shards n most).0
      × NoneTwice (map (λ s. s.id) (generated_shards n most).0)
      × ((generated_shards n most).1 ≡ most + n)
unfolding generated_shards
generated_shards-fresh zero most h = (tt, tt, omega arith)
generated_shards-fresh (suc n) most h =
    let next : add64 most 1 ≡ suc most = omega arith in
    let (after, apart, total) = generated_shards-fresh n (suc most) (omega arith) in
    rw next (
      (omega arith, After-weaken most (generated_shards n (suc most)).0 after),
      (others (suc most) (generated_shards n (suc most)).0 after, apart),
      total ∙ omega arith,
    )

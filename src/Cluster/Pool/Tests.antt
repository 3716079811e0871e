-- ===== src/Cluster/Pool/Tests.antt =====
-- The theorem on boundedPool of cluster/pool.go at concrete data: two Gets that race for the last
-- place.
use influxdb_cluster.Prelude.{some, [], arith}
use influxdb_cluster.Cluster.Pool.{
  BoundedPool, from_channel, try_get, finish_make, Steps, here, then_step, get_step, made_step,
}
use influxdb_cluster.Cluster.Pool.Bound.{IsBounded, Steps-IsBounded}

abbrev start : BoundedPool
start = record { conns = some []; max_cap = 1; total = 0; making = 0; out = 0 }

abbrev both_in : BoundedPool
both_in = (try_get (try_get start).1).1

abbrev both_made : BoundedPool
both_made = finish_make (some 8) (finish_make (some 7) both_in)

race : Steps 2 start both_made
unfolding try_get from_channel finish_make
race =
    then_step
      (then_step
        (then_step (then_step here (get_step start (omega arith))) (get_step _ (omega arith)))
        (made_step (some 7) _ (omega arith)))
      (made_step (some 8) _ (omega arith))

Steps-IsBounded_example : IsBounded 2 both_made
Steps-IsBounded_example =
    Steps-IsBounded {k = 2} {p = start} {q = both_made} race (record {
      counted = omega arith;
      below = omega arith;
      few = omega arith;
      small = omega arith;
    })

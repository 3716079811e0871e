-- ===== src/Cluster/Pool.antt =====
-- The type boundedPool of cluster/pool.go, as steps of goroutines that may come in any order. A
-- connection is a number.
pub mod Bound
mod Tests
use influxdb_cluster.Prelude.{
  ℕ, zero, suc, ◌+◌, ◌-◌, ◌^◌, ◌%◌, ◌<◌, ◌≤◌, Bool, true, false, ◌||◌, Option, none, some, List, [],
  ◌∷◌, ◌++◌, length, ltb, ◌==◌, if◌then◌else◌,
}

-- An `int32` as its bit pattern.
abbrev pub word32 : ℕ
word32 = 2 ^ 32

abbrev pub half_word32 : ℕ
half_word32 = 2 ^ 31

abbrev pub add32 : ℕ → ℕ → ℕ
add32 a b = (a + b) % word32

abbrev pub lt_int32 : ℕ → ℕ → Bool
lt_int32 a b = ltb ((a + half_word32) % word32) ((b + half_word32) % word32)

-- `conns` is what the channel holds, and `none` once the pool is closed. `making` counts the Gets
-- that have read `total` and not yet added to it, and `out` the connections that clients hold and
-- have not marked unusable.
pub record BoundedPool : Type 0 where
  pub conns : Option (List ℕ)
  pub max_cap : ℕ
  pub total : ℕ
  pub making : ℕ
  pub out : ℕ

-- What the first `select` of `Get` leads to: a connection, ErrClosed, a call of the factory or the
-- second `select`.
pub data Got : Type 0 where
  got_conn : ℕ → Got
  got_closed to_make to_wait timed_out : Got

-- `NewBoundedPool` with the connections that the factory gives at once; `none` is an error of it.
unfoldable pub fill : List (Option ℕ) → BoundedPool → Option BoundedPool
fill [] p = some p
fill (none ∷ made) p = none
fill (some c ∷ made) p = fill made (record p {
  conns = elim p.conns [ none ↦ none | some cs ↦ some (cs ++ c ∷ []) ];
  total = add32 p.total 1;
})

unfoldable pub new_bounded_pool : List (Option ℕ) → ℕ → Option BoundedPool
new_bounded_pool made max_cap =
    let filled =
      fill made (record { conns = some []; max_cap = max_cap; total = 0; making = 0; out = 0 }) in
    if max_cap == 0 || ltb max_cap (length made) then none else filled

unfoldable pub from_channel : Option (List ℕ) → Got → BoundedPool → BoundedPool → Got × BoundedPool
from_channel none g q p = (got_closed, p)
from_channel (some []) g q p = (g, q)
from_channel (some (c ∷ cs)) g q p = (got_conn c, record p { conns = some cs; out = suc p.out })

-- `Get` up to the end of its first `select`, but for the call of the factory.
unfoldable pub try_get : BoundedPool → Got × BoundedPool
try_get p =
    if lt_int32 p.total p.max_cap
    then from_channel p.conns to_make (record p { making = suc p.making }) p
    else from_channel p.conns to_wait p p

-- The rest of that branch, with what the factory gave.
unfoldable pub finish_make : Option ℕ → BoundedPool → BoundedPool
finish_make none p = record p { making = p.making - 1 }
finish_make (some c) p = record p {
  making = p.making - 1;
  total = add32 p.total 1;
  out = suc p.out;
}

-- The second `select`.
unfoldable pub wait_get : BoundedPool → Got × BoundedPool
wait_get p = from_channel p.conns timed_out p p

-- `put` of a connection that a client closes.
unfoldable pub put_into : Option (List ℕ) → ℕ → BoundedPool → BoundedPool
put_into none c p = record p { out = p.out - 1 }
put_into (some cs) c p =
    if ltb (length cs) p.max_cap
    then record p { conns = some (cs ++ c ∷ []); out = p.out - 1 }
    else record p { total = add32 p.total (word32 - 1); out = p.out - 1 }

unfoldable pub put : ℕ → BoundedPool → BoundedPool
put c p = put_into p.conns c p

-- A connection that is marked is closed by its client and not put back.
unfoldable pub mark_unusable : BoundedPool → BoundedPool
mark_unusable p = record p { total = add32 p.total (word32 - 1); out = p.out - 1 }

unfoldable pub close_pool : BoundedPool → BoundedPool
close_pool p = record p { conns = none }

-- A step of some goroutine, where `k` Gets at most call the factory at one time. A client closes or
-- marks a connection once.
pub data Step (k : ℕ) : BoundedPool → BoundedPool → Type 0 where
  get_step : (p : BoundedPool) → p.making < k → Step k p (try_get p).1
  made_step : (made : Option ℕ) (p : BoundedPool) → 0 < p.making → Step k p (finish_make made p)
  wait_step : (p : BoundedPool) → Step k p (wait_get p).1
  put_step : (c : ℕ) (p : BoundedPool) → 0 < p.out → Step k p (put c p)
  mark_step : (p : BoundedPool) → 0 < p.out → Step k p (mark_unusable p)
  close_step : (p : BoundedPool) → Step k p (close_pool p)

pub data Steps (k : ℕ) : BoundedPool → BoundedPool → Type 0 where
  here : {p : BoundedPool} → Steps k p p
  then_step : {p q r : BoundedPool} → Steps k p q → Step k q r → Steps k p r

-- ===== src/Cluster/Pool/Bound.antt =====
-- The bound on the connections of a boundedPool of cluster/pool.go.
use mathlib.Core.Path.{subst}
use influxdb_cluster.Prelude.{
  ℕ, suc, ◌+◌, ◌-◌, ◌<◌, ◌≤◌, ◌≡◌, refl, inl, inr, Bool-cases, Option, none, some, List, [], ◌∷◌,
  ◌++◌, length, length-append, ltb, ◌==◌, ◌||◌, ap, ◌∙◌, arith,
}
use influxdb_cluster.Cluster.Pool.{
  BoundedPool, Got, add32, lt_int32, word32, half_word32, from_channel, try_get, fill,
  new_bounded_pool, finish_make, wait_get, put_into, put, mark_unusable, close_pool, Step, get_step,
  made_step, wait_step, put_step, mark_step, close_step, Steps, here, then_step,
}

abbrev pub idle : Option (List ℕ) → ℕ
idle none = 0
idle (some cs) = length cs

-- The connections in the pool and at clients are counted, and with those that are being made they
-- stay below the capacity and `k`.
pub record IsBounded (k : ℕ) (p : BoundedPool) : Type 0 where
  pub counted : p.out + idle p.conns ≤ p.total
  pub below : p.total + p.making < p.max_cap + k
  pub few : p.making ≤ k
  pub small : p.max_cap + k < half_word32

taken-IsBounded :
    (k : ℕ) (o : Option (List ℕ)) (g : Got) (q p : BoundedPool)
    → p.conns ≡ o
    → IsBounded k p
    → IsBounded k q
    → IsBounded k (from_channel o g q p).1
unfolding from_channel
taken-IsBounded k none g q p e b c = b
taken-IsBounded k (some []) g q p e b c = c
taken-IsBounded k (some (x ∷ cs)) g q p e b c = record {
  counted = let h = rw e at b.counted in omega arith;
  below = b.below;
  few = b.few;
  small = b.small;
}

try_get-IsBounded :
    (k : ℕ) (p : BoundedPool) → IsBounded k p → p.making < k → IsBounded k (try_get p).1
unfolding try_get
try_get-IsBounded k p b room = elim (Bool-cases (lt_int32 p.total p.max_cap)) [
  | inl less ↦ rw less (
      taken-IsBounded k p.conns _ (record p { making = suc p.making }) p refl b
        (record {
          counted = b.counted;
          below =
              let h : p.total < p.max_cap = (let t = b.below in let s = b.small in ground arith) in
              omega arith;
          few = room;
          small = b.small;
        }))
  | inr more ↦ rw more (taken-IsBounded k p.conns _ p p refl b b)
]

finish_make-IsBounded :
    (k : ℕ) (made : Option ℕ) (p : BoundedPool)
    → IsBounded k p
    → 0 < p.making
    → IsBounded k (finish_make made p)
unfolding finish_make
finish_make-IsBounded k none p b some_making = record {
  counted = b.counted;
  below = let h = b.below in omega arith;
  few = let h = b.few in omega arith;
  small = b.small;
}
finish_make-IsBounded k (some c) p b some_making =
    let next : add32 p.total 1 ≡ suc p.total =
      (let t = b.below in let s = b.small in omega arith) in
    record {
      counted = rw next (let h = b.counted in omega arith);
      below = rw next (let h = b.below in omega arith);
      few = let h = b.few in omega arith;
      small = b.small;
    }

-- A connection fewer.
fewer :
    (k : ℕ) (p : BoundedPool)
    → IsBounded k p
    → 0 < p.out
    → IsBounded k (record p { total = add32 p.total (word32 - 1); out = p.out - 1 })
fewer k p b some_out =
    let prev : add32 p.total (word32 - 1) ≡ p.total - 1 =
      (let c = b.counted in let t = b.below in let s = b.small in omega arith) in
    record {
      counted = rw prev (let h = b.counted in omega arith);
      below = rw prev (let h = b.below in omega arith);
      few = b.few;
      small = b.small;
    }

put_into-IsBounded :
    (k : ℕ) (o : Option (List ℕ)) (c : ℕ) (p : BoundedPool)
    → p.conns ≡ o
    → IsBounded k p
    → 0 < p.out
    → IsBounded k (put_into o c p)
unfolding put_into
put_into-IsBounded k none c p e b some_out = record {
  counted = let h = b.counted in omega arith;
  below = b.below;
  few = b.few;
  small = b.small;
}
put_into-IsBounded k (some cs) c p e b some_out = elim (Bool-cases (ltb (length cs) p.max_cap)) [
  | inl room ↦ rw room (record {
    counted = let h = rw e at b.counted in omega (arith, length-append cs (c ∷ []));
    below = b.below;
    few = b.few;
    small = b.small;
  })
  | inr full ↦ rw full (fewer k p b some_out)
]

close_pool-IsBounded : (k : ℕ) (p : BoundedPool) → IsBounded k p → IsBounded k (close_pool p)
unfolding close_pool
close_pool-IsBounded k p b = record {
  counted = let h = b.counted in omega arith;
  below = b.below;
  few = b.few;
  small = b.small;
}

Step-IsBounded : {k : ℕ} {p q : BoundedPool} → Step k p q → IsBounded k p → IsBounded k q
unfolding wait_get put mark_unusable
Step-IsBounded {k} (get_step p room) b = try_get-IsBounded k p b room
Step-IsBounded {k} (made_step made p some_making) b = finish_make-IsBounded k made p b some_making
Step-IsBounded {k} (wait_step p) b = taken-IsBounded k p.conns _ p p refl b b
Step-IsBounded {k} (put_step c p some_out) b = put_into-IsBounded k p.conns c p refl b some_out
Step-IsBounded {k} (mark_step p some_out) b = fewer k p b some_out
Step-IsBounded {k} (close_step p) b = close_pool-IsBounded k p b

-- However the steps of the goroutines come, the pool stays bounded: it never has more connections
-- than its capacity and the Gets that may call the factory at one time, less one.
pub Steps-IsBounded : {k : ℕ} {p q : BoundedPool} → Steps k p q → IsBounded k p → IsBounded k q
Steps-IsBounded here b = b
Steps-IsBounded (then_step before last) b = Step-IsBounded last (Steps-IsBounded before b)

abbrev pool_of : List ℕ → ℕ → BoundedPool
pool_of cs max_cap = record {
  conns = some cs;
  max_cap = max_cap;
  total = length cs;
  making = 0;
  out = 0;
}

fill-IsBounded :
    (k max_cap : ℕ) (made : List (Option ℕ)) (cs : List ℕ) (p : BoundedPool)
    → 0 < k
    → max_cap + k < half_word32
    → length cs + length made ≤ max_cap
    → fill made (pool_of cs max_cap) ≡ some p
    → IsBounded k p
unfolding fill
fill-IsBounded k max_cap [] cs p some_k small room e =
    subst (λ o. elim o [ none ↦ Unit {0} | some q ↦ IsBounded k q ]) e
      (record { counted = omega arith; below = omega arith; few = omega arith; small = small })
fill-IsBounded k max_cap (none ∷ made) cs p some_k small room e = cc e
fill-IsBounded k max_cap (some c ∷ made) cs p some_k small room e =
    fill-IsBounded k max_cap made (cs ++ c ∷ []) p some_k small
      (omega (arith, length-append cs (c ∷ [])))
      (ap (λ t. fill made (record (pool_of (cs ++ c ∷ []) max_cap) { total = t })) one_more ∙ e)
  where
    one_more : length (cs ++ c ∷ []) ≡ add32 (length cs) 1
    one_more = omega (arith, length-append cs (c ∷ []))

-- A pool that `NewBoundedPool` makes is bounded.
pub new_bounded_pool-IsBounded :
    (k max_cap : ℕ) (made : List (Option ℕ)) (p : BoundedPool)
    → 0 < k
    → max_cap + k < half_word32
    → new_bounded_pool made max_cap ≡ some p
    → IsBounded k p
unfolding new_bounded_pool
new_bounded_pool-IsBounded k max_cap made p some_k small e =
    elim (Bool-cases (max_cap == 0 || ltb max_cap (length made))) [
      | inl bad ↦ cc (rw bad at e)
      | inr good ↦ fill-IsBounded k max_cap made [] p some_k small (ground arith) (rw good at e)
    ]

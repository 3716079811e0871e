-- ===== src/Meta/Owners.antt =====
-- The owners of shards of meta/data.go: ShardLocation and what is built on it.
use mathlib.Core.Path.{subst}
use influxdb_cluster.Prelude.{
  ℕ, ◌≡◌, ◌≢◌, refl, sym, ap, ◌∙◌, inl, inr, Bool, Bool-cases, Option, none, some, List, [], ◌∷◌,
  ◌++◌, All, ltb, ◌==◌, ==_iff, if◌then◌else◌,
}
use influxdb_cluster.Meta.Data.{
  ShardInfo, ShardGroupInfo, RetentionPolicyInfo, DatabaseInfo, Data, Outcome, ok, err,
  shard_not_found,
}

-- The first that is found, as a loop that returns from its body.
abbrev pub or_else : {A : Type 0} → Option A → Option A → Option A
or_else none rest = rest
or_else (some a) rest = some a

unfoldable pub in_shards : ℕ → List ShardInfo → Option ShardInfo
in_shards id [] = none
in_shards id (s ∷ ss) = if s.id == id then some s else in_shards id ss

unfoldable pub in_groups : ℕ → List ShardGroupInfo → Option ShardInfo
in_groups id [] = none
in_groups id (g ∷ gs) = or_else (in_shards id g.shards) (in_groups id gs)

unfoldable pub in_policies : ℕ → List RetentionPolicyInfo → Option ShardInfo
in_policies id [] = none
in_policies id (rp ∷ rps) = or_else (in_groups id rp.shard_groups) (in_policies id rps)

unfoldable pub in_databases : ℕ → List DatabaseInfo → Option ShardInfo
in_databases id [] = none
in_databases id (db ∷ dbs) = or_else (in_policies id db.retention_policies) (in_databases id dbs)

-- `none` is the error.
unfoldable pub shard_location : ℕ → Data → Option ShardInfo
shard_location id d = in_databases id d.databases

-- UpdateShard finds no shard.
unfoldable pub update_shard : ℕ → List ℕ → Data → Outcome (Unit {0}) × Data
update_shard id owners d = (err shard_not_found, d)

-- `owned_by` is the method OwnedBy of the library.
unfoldable pub add_owner :
    (ShardInfo → ℕ → Bool) → Option ShardInfo → ℕ → ℕ → Data → Outcome (Unit {0}) × Data
add_owner owned_by none id node d = (err shard_not_found, d)
add_owner owned_by (some s) id node d =
    if owned_by s node
    then (ok tt, d)
    else if ltb d.max_node_id node
    then (ok tt, d)
    else update_shard id (node ∷ []) d

unfoldable pub add_shard_owner : (ShardInfo → ℕ → Bool) → ℕ → ℕ → Data → Outcome (Unit {0}) × Data
add_shard_owner owned_by id node d = add_owner owned_by (shard_location id d) id node d

-- PruneShard moves the owners after the one that it finds down by one place, in place; the slice
-- keeps its length, so that the last owner stays in the last place too.
unfoldable pub moved_down : List ℕ → List ℕ
moved_down [] = []
moved_down (o ∷ []) = o ∷ []
moved_down (o ∷ p ∷ []) = p ∷ p ∷ []
moved_down (o ∷ p ∷ q ∷ rest) = p ∷ moved_down (p ∷ q ∷ rest)

unfoldable pub prune : ℕ → List ℕ → Option (List ℕ)
prune node [] = none
prune node (o ∷ os) =
    if o == node
    then some (moved_down (o ∷ os))
    else elim (prune node os) [ none ↦ none | some rest ↦ some (o ∷ rest) ]

unfoldable pub prune_shard : ShardInfo → ℕ → Option (List ℕ)
prune_shard s node = prune node s.owners

-- It acts only if there is no shard. `owned_by_nil` is OwnedBy of the library on a nil pointer, where
-- `none` is a panic; PruneShard of a nil pointer panics, too.
unfoldable pub remove_owner :
    (ℕ → Option Bool) → Option ShardInfo → ℕ → Data → Option (Outcome (Unit {0}) × Data)
remove_owner owned_by_nil (some s) node d = some (ok tt, d)
remove_owner owned_by_nil none node d = elim (owned_by_nil node) [
  | none ↦ none
  | some owned ↦ if owned then none else some (err shard_not_found, d)
]

unfoldable pub remove_shard_owner :
    (ℕ → Option Bool) → ℕ → ℕ → Data → Option (Outcome (Unit {0}) × Data)
remove_shard_owner owned_by_nil id node d = remove_owner owned_by_nil (shard_location id d) node d

-- The loops of AddPendingShardOwner and RemovePendingShardOwner change a copy of each node.
unfoldable pub add_pending_shard_owner : ℕ → Data → Data
add_pending_shard_owner id d = d

unfoldable pub remove_pending_shard_owner : ℕ → Data → Data
remove_pending_shard_owner id d = d

-- All shards, in order.
abbrev pub flat : {A B : Type 0} → (A → List B) → List A → List B
flat f [] = []
flat f (x ∷ xs) = f x ++ flat f xs

abbrev pub shards_of : Data → List ShardInfo
shards_of d =
    flat (λ db. flat (λ rp. flat (λ g. g.shards) rp.shard_groups) db.retention_policies) d.databases

in_shards-append :
    (id : ℕ) (xs ys : List ShardInfo)
    → in_shards id (xs ++ ys) ≡ or_else (in_shards id xs) (in_shards id ys)
unfolding in_shards
in_shards-append id [] ys = refl
in_shards-append id (x ∷ xs) ys = elim (Bool-cases (x.id == id)) [
  | inl same ↦ rw same refl
  | inr other ↦ rw other (in_shards-append id xs ys)
]

in_groups-flat :
    (id : ℕ) (gs : List ShardGroupInfo) → in_groups id gs ≡ in_shards id (flat (λ g. g.shards) gs)
unfolding in_groups in_shards
in_groups-flat id [] = refl
in_groups-flat id (g ∷ gs) =
    ap (or_else (in_shards id g.shards)) (in_groups-flat id gs)
    ∙ sym (in_shards-append id g.shards (flat (λ g. g.shards) gs))

abbrev shards_in : RetentionPolicyInfo → List ShardInfo
shards_in rp = flat (λ g. g.shards) rp.shard_groups

in_policies-flat :
    (id : ℕ) (rps : List RetentionPolicyInfo)
    → in_policies id rps ≡ in_shards id (flat shards_in rps)
unfolding in_policies in_shards
in_policies-flat id [] = refl
in_policies-flat id (rp ∷ rps) =
    (λ k. or_else (in_groups-flat id rp.shard_groups k) (in_policies-flat id rps k))
    ∙ sym (in_shards-append id (shards_in rp) (flat shards_in rps))

in_databases-flat :
    (id : ℕ) (dbs : List DatabaseInfo)
    → in_databases id dbs ≡ in_shards id (flat (λ db. flat shards_in db.retention_policies) dbs)
unfolding in_databases in_shards
in_databases-flat id [] = refl
in_databases-flat id (db ∷ dbs) =
    (λ k. or_else (in_policies-flat id db.retention_policies k) (in_databases-flat id dbs k))
    ∙ sym (
        in_shards-append id (flat shards_in db.retention_policies)
          (flat (λ db. flat shards_in db.retention_policies) dbs))

-- No shard has the id, or the first that has it is found.
abbrev pub FirstOf : ℕ → List ShardInfo → Option ShardInfo → Type 0
FirstOf id ss none = All (λ x. x.id ≢ id) ss
FirstOf id ss (some s) =
    (before : List ShardInfo) × (after : List ShardInfo) × (ss ≡ before ++ s ∷ after)
    × All (λ x. x.id ≢ id) before
    × (s.id ≡ id)

FirstOf-later :
    (id : ℕ) (s : ShardInfo) (ss : List ShardInfo) (o : Option ShardInfo)
    → s.id ≢ id
    → FirstOf id ss o
    → FirstOf id (s ∷ ss) o
FirstOf-later id s ss none other h = (other, h)
FirstOf-later id s ss (some x) other (before, after, e, all, same) =
    (s ∷ before, after, ap (◌∷◌ s) e, (other, all), same)

in_shards-FirstOf : (id : ℕ) (ss : List ShardInfo) → FirstOf id ss (in_shards id ss)
unfolding in_shards
in_shards-FirstOf id [] = tt
in_shards-FirstOf id (s ∷ ss) = elim (Bool-cases (s.id == id)) [
  | inl same ↦ rw same ([], ss, refl, tt, (==_iff s.id id).0 same)
  | inr other ↦ rw other (
      FirstOf-later id s ss (in_shards id ss) (λ q. cc (other, (==_iff s.id id).1 q))
        (in_shards-FirstOf id ss))
]

-- ShardLocation gives the first shard with the id, in the order of the databases, of their
-- policies, of the groups in these and of the shards in a group, and an error if none has the id.
pub shard_location-FirstOf : (id : ℕ) (d : Data) → FirstOf id (shards_of d) (shard_location id d)
unfolding shard_location
shard_location-FirstOf id d =
    subst (FirstOf id (shards_of d)) (sym (in_databases-flat id d.databases))
      (in_shards-FirstOf id (shards_of d))

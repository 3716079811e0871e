-- ===== src/Meta/Users.antt =====
-- The users of meta/data.go, and the copy that Clone makes. The names of users are told apart as
-- addresses are.
use influxdb_cluster.Prelude.{
  ◌≡◌, ◌≢◌, refl, sym, ap, ◌∙◌, inl, inr, Bool, false, Bool-cases, Option, none, some, List, [],
  ◌∷◌, ◌++◌, map, All, All-append, if◌then◌else◌,
}
use influxdb_cluster.Meta.Data.{
  Address, same_address, UserInfo, Data, Outcome, ok, err, username_required, user_exists,
  user_not_found,
}
use influxdb_cluster.Meta.Sorted.{same_address_self}

unfoldable pub find_user : Address → List UserInfo → Option UserInfo
find_user n [] = none
find_user n (u ∷ us) = if same_address u.name n then some u else find_user n us

unfoldable pub user : Address → Data → Option UserInfo
user n d = find_user n d.users

abbrev pub add_unless : Option UserInfo → UserInfo → Data → Outcome (Unit {0}) × Data
add_unless (some u) new d = (err user_exists, d)
add_unless none new d = (ok tt, record d { users = d.users ++ new ∷ [] })

unfoldable pub create_user : Address → Address → Bool → Data → Outcome (Unit {0}) × Data
create_user [] hash admin d = (err username_required, d)
create_user (c ∷ cs) hash admin d =
    add_unless (user (c ∷ cs) d) (record { name = c ∷ cs; hash = hash; admin = admin }) d

-- The users without the first of that name; `none` if there is none.
unfoldable pub drop_first : Address → List UserInfo → Option (List UserInfo)
drop_first n [] = none
drop_first n (u ∷ us) =
    if same_address u.name n
    then some us
    else elim (drop_first n us) [ none ↦ none | some rest ↦ some (u ∷ rest) ]

abbrev pub left_users : Option (List UserInfo) → Data → Outcome (Unit {0}) × Data
left_users none d = (err user_not_found, d)
left_users (some us) d = (ok tt, record d { users = us })

unfoldable pub drop_user : Address → Data → Outcome (Unit {0}) × Data
drop_user n d = left_users (drop_first n d.users) d

-- `CloneUsers` makes as many users, which are all blank.
abbrev pub blank : UserInfo → UserInfo
blank u = record { name = []; hash = []; admin = false }

unfoldable pub clone : Data → Data
clone d = record d { users = map blank d.users }

-- No two users have one name, and none has the empty one.
abbrev pub Named : List UserInfo → Type 0
Named [] = Unit {0}
Named (u ∷ us) = (u.name ≢ []) × All (λ v. v.name ≢ u.name) us × Named us

Named-snoc :
    (us : List UserInfo) (u : UserInfo)
    → Named us
    → u.name ≢ []
    → All (λ v. v.name ≢ u.name) us
    → Named (us ++ u ∷ [])
Named-snoc [] u n some_name apart = (some_name, tt, tt)
Named-snoc (v ∷ vs) u n some_name apart = (
  n.0,
  All-append (λ w. w.name ≢ v.name) vs (u ∷ []) n.1 ((λ e. apart.0 (sym e)), tt),
  Named-snoc vs u n.2 some_name apart.1,
)

no_user : (n : Address) (us : List UserInfo) → find_user n us ≡ none → All (λ v. v.name ≢ n) us
unfolding find_user
no_user n [] e = tt
no_user n (u ∷ us) e = elim (Bool-cases (same_address u.name n)) [
  | inl same ↦ cc (rw same at e)
  | inr other ↦ (
    λ q. cc (sym other ∙ (ap (same_address u.name) (sym q) ∙ same_address_self u.name)),
    no_user n us (rw other at e),
  )
]

find_new :
    (n : Address) (us : List UserInfo) (u : UserInfo)
    → find_user n us ≡ none
    → u.name ≡ n
    → find_user n (us ++ u ∷ []) ≡ some u
unfolding find_user
find_new n [] u e q = rw (ap (λ m. same_address m n) q ∙ same_address_self n)
find_new n (v ∷ vs) u e q = elim (Bool-cases (same_address v.name n)) [
  | inl same ↦ cc (rw same at e)
  | inr other ↦ rw other (find_new n vs u (rw other at e) q)
]

-- A new user with a name of its own is created and found, and the names stay distinct.
pub create_user-Named :
    (n hash : Address) (admin : Bool) (d : Data)
    → Named d.users
    → n ≢ []
    → user n d ≡ none
    → let r = create_user n hash admin d in
      (r.0 ≡ ok tt)
      × (user n r.1 ≡ some (record { name = n; hash = hash; admin = admin }))
      × Named r.1.users
unfolding create_user user
create_user-Named [] hash admin d names some_name e = absurd (some_name refl)
create_user-Named (c ∷ cs) hash admin d names some_name e = rw e (
  refl,
  find_new (c ∷ cs) d.users (record { name = c ∷ cs; hash = hash; admin = admin }) e refl,
  Named-snoc d.users (record { name = c ∷ cs; hash = hash; admin = admin }) names some_name
      (no_user (c ∷ cs) d.users e),
)

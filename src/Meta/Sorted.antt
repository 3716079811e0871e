-- ===== src/Meta/Sorted.antt =====
-- Addresses and sorted lists of the nodes of meta/data.go.
use mathlib.Core.Path.{subst}
use influxdb_cluster.Prelude.{
  ◌≡◌, ◌≢◌, refl, sym, ap, ◌∙◌, inl, inr, true, Bool-cases, none, some, List, [], ◌∷◌, ◌++◌, All,
  All-append, ltb, ◌==◌, ==_iff, ==_self,
}
use influxdb_cluster.Meta.Data.{
  Address, same_address, NodeInfo, with_tcp_host, insert_node, sort_from, sort_nodes,
}

pub same_address_sound : (a b : Address) → same_address a b ≡ true → a ≡ b
unfolding same_address
same_address_sound [] [] e = refl
same_address_sound [] (b ∷ bs) e = cc e
same_address_sound (a ∷ as') [] e = cc e
same_address_sound (a ∷ as') (b ∷ bs) e = elim (Bool-cases (a == b)) [
  | inl same ↦ cc ((==_iff a b).0 same, same_address_sound as' bs (rw same at e))
  | inr other ↦ cc (rw other at e)
]

pub same_address_self : (a : Address) → same_address a a ≡ true
unfolding same_address
same_address_self [] = refl
same_address_self (a ∷ as') = rw (==_self a) (same_address_self as')

-- The node that is found has the address, and what all nodes have.
pub found :
    (P : NodeInfo → Type 0) (h : Address) (ns : List NodeInfo) (m : NodeInfo)
    → All P ns
    → with_tcp_host h ns ≡ some m
    → P m × (m.tcp_host ≡ h)
unfolding with_tcp_host
found P h [] m all e = cc e
found P h (n ∷ ns) m all e = elim (Bool-cases (same_address n.tcp_host h)) [
  | inl same ↦
      let e' : n ≡ m = cc (rw same at e) in
      (subst P e' all.0, sym (ap (λ x. x.tcp_host) e') ∙ same_address_sound n.tcp_host h same)
  | inr other ↦ found P h ns m all.1 (rw other at e)
]

-- Without one, no node has it.
pub missing :
    (h : Address) (ns : List NodeInfo) → with_tcp_host h ns ≡ none → All (λ n. n.tcp_host ≢ h) ns
unfolding with_tcp_host
missing h [] e = tt
missing h (n ∷ ns) e = elim (Bool-cases (same_address n.tcp_host h)) [
  | inl same ↦ cc (rw same at e)
  | inr other ↦ (
    λ q. cc (sym other ∙ (ap (same_address n.tcp_host) (sym q) ∙ same_address_self n.tcp_host)),
    missing h ns (rw other at e),
  )
]

module _ {A : Type 0} where
  pub All-map2 :
      (P Q R : A → Type 0) (xs : List A)
      → ((a : A) → P a → Q a → R a)
      → All P xs
      → All Q xs
      → All R xs
  All-map2 P Q R [] f p q = tt
  All-map2 P Q R (x ∷ xs) f p q = (f x p.0 q.0, All-map2 P Q R xs f p.1 q.1)

  pub All-map : (P Q : A → Type 0) (xs : List A) → ((a : A) → P a → Q a) → All P xs → All Q xs
  All-map P Q xs f p = All-map2 P P Q xs (λ a x y. f a x) p p

-- Sorting keeps what holds of all nodes.
All-insert_node :
    (P : NodeInfo → Type 0) (n : NodeInfo) (ns : List NodeInfo)
    → P n
    → All P ns
    → All P (insert_node n ns)
unfolding insert_node
All-insert_node P n [] h all = (h, tt)
All-insert_node P n (m ∷ ms) h all = elim (Bool-cases (ltb n.id m.id)) [
  | inl less ↦ rw less (h, all)
  | inr more ↦ rw more (all.0, All-insert_node P n ms h all.1)
]

All-sort_from :
    (P : NodeInfo → Type 0) (sorted ns : List NodeInfo)
    → All P sorted
    → All P ns
    → All P (sort_from sorted ns)
unfolding sort_from
All-sort_from P sorted [] h all = h
All-sort_from P sorted (n ∷ ns) h all =
    All-sort_from P (insert_node n sorted) ns (All-insert_node P n sorted all.0 h) all.1

pub All-sort_snoc :
    (P : NodeInfo → Type 0) (ns : List NodeInfo) (n : NodeInfo)
    → All P ns
    → P n
    → All P (sort_nodes (ns ++ n ∷ []))
All-sort_snoc P ns n all h =
    All-sort_from P [] (ns ++ n ∷ []) tt (All-append P ns (n ∷ []) all (h, tt))

-- No two of the nodes have one id.
abbrev pub Distinct : List NodeInfo → Type 0
Distinct [] = Unit {0}
Distinct (n ∷ ns) = All (λ m. m.id ≢ n.id) ns × Distinct ns

Distinct-insert_node :
    (n : NodeInfo) (ns : List NodeInfo)
    → All (λ m. m.id ≢ n.id) ns
    → Distinct ns
    → Distinct (insert_node n ns)
unfolding insert_node
Distinct-insert_node n [] apart d = (tt, tt)
Distinct-insert_node n (m ∷ ms) apart d = elim (Bool-cases (ltb n.id m.id)) [
  | inl less ↦ rw less (apart, d)
  | inr more ↦ rw more (
    All-insert_node (λ k. k.id ≢ m.id) n ms (λ e. apart.0 (sym e)) d.0,
    Distinct-insert_node n ms apart.1 d.1,
  )
]

Distinct-sort_from :
    (sorted ns : List NodeInfo)
    → Distinct sorted
    → Distinct ns
    → All (λ n. All (λ m. m.id ≢ n.id) sorted) ns
    → Distinct (sort_from sorted ns)
unfolding sort_from
Distinct-sort_from sorted [] d e apart = d
Distinct-sort_from sorted (n ∷ ns) d e apart =
    Distinct-sort_from (insert_node n sorted) ns (Distinct-insert_node n sorted apart.0 d) e.1 (
      All-map2 (λ k. k.id ≢ n.id) (λ k. All (λ m. m.id ≢ k.id) sorted)
        (λ k. All (λ m. m.id ≢ k.id) (insert_node n sorted)) ns
        (λ k other all. All-insert_node (λ m. m.id ≢ k.id) n sorted (λ q. other (sym q)) all) e.0
        apart.1)

Distinct-snoc :
    (ns : List NodeInfo) (n : NodeInfo)
    → Distinct ns
    → All (λ m. m.id ≢ n.id) ns
    → Distinct (ns ++ n ∷ [])
Distinct-snoc [] n d apart = (tt, tt)
Distinct-snoc (m ∷ ms) n d apart = (
  All-append (λ k. k.id ≢ m.id) ms (n ∷ []) d.0 (λ e. apart.0 (sym e), tt),
  Distinct-snoc ms n d.1 apart.1,
)

nothing_before : (ns : List NodeInfo) → All (λ n. All {A = NodeInfo} (λ m. m.id ≢ n.id) []) ns
nothing_before [] = tt
nothing_before (n ∷ ns) = (tt, nothing_before ns)

pub Distinct-sort_snoc :
    (ns : List NodeInfo) (n : NodeInfo)
    → Distinct ns
    → All (λ m. m.id ≢ n.id) ns
    → Distinct (sort_nodes (ns ++ n ∷ []))
Distinct-sort_snoc ns n d apart =
    Distinct-sort_from [] (ns ++ n ∷ []) tt (Distinct-snoc ns n d apart)
      (nothing_before (ns ++ n ∷ []))

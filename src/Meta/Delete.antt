-- ===== src/Meta/Delete.antt =====
-- DeleteDataNode of meta/data.go.
use influxdb_cluster.Prelude.{
  ℕ, ◌≤◌, ◌<◌, ◌≡◌, ◌≢◌, refl, inl, inr, true, false, Bool-cases, none, some, List, [], ◌∷◌, length,
  All, ◌==◌, arith,
}
use influxdb_cluster.Meta.Data.{
  NodeInfo, Data, ok, err, node_not_found, without_id, with_id, delete_data_node, data_node,
}
use influxdb_cluster.Meta.Sorted.{Distinct}
use influxdb_cluster.Meta.Nodes.{Agrees, InRange, IsConsistent}

-- What holds of all nodes holds of those that are left, and they are still distinct.
pub All-without_id :
    (P : NodeInfo → Type 0) (i : ℕ) (ns : List NodeInfo) → All P ns → All P (without_id i ns)
unfolding without_id
All-without_id P i [] all = tt
All-without_id P i (n ∷ ns) all = elim (Bool-cases (n.id == i)) [
  | inl same ↦ rw same (All-without_id P i ns all.1)
  | inr other ↦ rw other (all.0, All-without_id P i ns all.1)
]

Distinct-without_id : (i : ℕ) (ns : List NodeInfo) → Distinct ns → Distinct (without_id i ns)
unfolding without_id
Distinct-without_id i [] d = tt
Distinct-without_id i (n ∷ ns) d = elim (Bool-cases (n.id == i)) [
  | inl same ↦ rw same (Distinct-without_id i ns d.1)
  | inr other ↦ rw other (All-without_id (λ m. m.id ≢ n.id) i ns d.0, Distinct-without_id i ns d.1)
]

pub without_id-gone : (i : ℕ) (ns : List NodeInfo) → with_id i (without_id i ns) ≡ none
unfolding with_id without_id
without_id-gone i [] = refl
without_id-gone i (n ∷ ns) = elim (Bool-cases (n.id == i)) [
  | inl same ↦ rw same (without_id-gone i ns)
  | inr other ↦ rw other (rw other (without_id-gone i ns))
]

delete_found :
    (i : ℕ) (d : Data)
    → (length (without_id i d.data_nodes) == length d.data_nodes) ≡ false
    → delete_data_node i d ≡ (ok tt, record d { data_nodes = without_id i d.data_nodes })
unfolding delete_data_node
delete_found i d e = rw e

delete_missing :
    (i : ℕ) (d : Data)
    → (length (without_id i d.data_nodes) == length d.data_nodes) ≡ true
    → delete_data_node i d ≡ (err node_not_found, d)
unfolding delete_data_node
delete_missing i d e = rw e

left-IsConsistent :
    (i : ℕ) (d : Data)
    → IsConsistent d
    → IsConsistent (record d { data_nodes = without_id i d.data_nodes })
left-IsConsistent i d c = record {
  small = c.small;
  meta_range = c.meta_range;
  data_range = All-without_id (InRange d.max_node_id) i d.data_nodes c.data_range;
  meta_agree = c.meta_agree;
  data_agree = All-without_id (λ x. All (Agrees x) d.meta_nodes) i d.data_nodes c.data_agree;
  distinct = Distinct-without_id i d.data_nodes c.distinct;
}

length-without_id : (i : ℕ) (ns : List NodeInfo) → length (without_id i ns) ≤ length ns
unfolding without_id
length-without_id i [] = omega arith
length-without_id i (n ∷ ns) = ground (arith, length-without_id i ns)

-- A node that is there makes the list shorter.
pub shorter :
    (i : ℕ) (ns : List NodeInfo) (n : NodeInfo)
    → with_id i ns ≡ some n
    → length (without_id i ns) < length ns
unfolding with_id without_id
shorter i [] n e = cc e
shorter i (m ∷ ms) n e = elim (Bool-cases (m.id == i)) [
  | inl same ↦ rw same (omega (arith, length-without_id i ms))
  | inr other ↦ rw other (omega (arith, shorter i ms n (rw other at e)))
]

-- It keeps the ids consistent also if the node is not there.
pub delete_data_node-IsConsistent_any :
    (id : ℕ) (d : Data) → IsConsistent d → IsConsistent (delete_data_node id d).1
unfolding data_node
delete_data_node-IsConsistent_any id d c =
    elim (Bool-cases (length (without_id id d.data_nodes) == length d.data_nodes)) [
      | inl same ↦ rw (delete_missing id d same) c
      | inr other ↦ rw (delete_found id d other) (left-IsConsistent id d c)
    ]

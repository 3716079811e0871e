-- ===== src/Meta/Nodes.antt =====
-- The ids of the nodes of meta/data.go.
use mathlib.Core.Path.{subst}
use influxdb_cluster.Prelude.{
  ℕ, suc, ◌+◌, ◌%◌, ◌≤◌, ◌<◌, ◌≡◌, ◌≢◌, refl, sym, ◌∙◌, inl, inr, false, Option, none, some,
  Option-cases, List, [], ◌∷◌, ◌++◌, All, ◌==◌, arith,
}
use influxdb_cluster.Prelude.Bytes.{word}
use influxdb_cluster.Meta.Data.{
  Address, NodeInfo, Data, with_tcp_host, sort_nodes, new_node, existing_id, choose_id, id_for,
  add_meta, add_data, unless_found, create_meta_node, create_data_node,
}
use influxdb_cluster.Meta.Sorted.{
  found, missing, All-map2, All-map, All-sort_snoc, Distinct, Distinct-sort_snoc,
}

-- An id stands for one address.
abbrev pub Agrees : NodeInfo → NodeInfo → Type 0
Agrees x y = x.id ≡ y.id → x.tcp_host ≡ y.tcp_host

abbrev pub InRange : ℕ → NodeInfo → Type 0
InRange most n = (0 < n.id) × (n.id ≤ most)

-- The ids of nodes were given out, those of the data nodes are distinct, and a node has the id of a
-- meta node only if it has its address.
pub record IsConsistent (d : Data) : Type 0 where
  pub small : d.max_node_id < word
  pub meta_range : All (InRange d.max_node_id) d.meta_nodes
  pub data_range : All (InRange d.max_node_id) d.data_nodes
  pub meta_agree : All (λ x. All (Agrees x) d.meta_nodes) d.meta_nodes
  pub data_agree : All (λ x. All (Agrees x) d.meta_nodes) d.data_nodes
  pub distinct : Distinct d.data_nodes

-- What a new node with an address needs of its id, and of the greatest id.
record IsNew (d : Data) (h : Address) (ids : ℕ × ℕ) : Type 0 where
  grows : d.max_node_id ≤ ids.1
  small : ids.1 < word
  range : (0 < ids.0) × (ids.0 ≤ ids.1)
  agree : All (λ y. ids.0 ≡ y.id → h ≡ y.tcp_host) d.meta_nodes
  apart : All (λ x. x.id ≢ ids.0) d.data_nodes

fresh-IsNew :
    (d : Data) (h : Address)
    → IsConsistent d
    → suc d.max_node_id < word
    → IsNew d h (suc d.max_node_id, suc d.max_node_id)
fresh-IsNew d h c room = record {
  grows = omega arith;
  small = room;
  range = (omega arith, omega arith);
  agree =
      All-map (InRange d.max_node_id) _ d.meta_nodes (λ y r e. absurd (omega arith)) c.meta_range;
  apart =
      All-map (InRange d.max_node_id) _ d.data_nodes (λ y r e. absurd (omega arith)) c.data_range;
}

reused-IsNew :
    (d : Data) (h : Address) (m : NodeInfo)
    → IsConsistent d
    → with_tcp_host h d.data_nodes ≡ none
    → with_tcp_host h d.meta_nodes ≡ some m
    → IsNew d h (m.id, d.max_node_id)
reused-IsNew d h m c none_data e = record {
  grows = omega arith;
  small = c.small;
  range = (found (InRange d.max_node_id) h d.meta_nodes m c.meta_range e).0;
  agree =
      All-map (Agrees m) _ d.meta_nodes (λ y a same. sym address ∙ a same)
        (found (λ x. All (Agrees x) d.meta_nodes) h d.meta_nodes m c.meta_agree e).0;
  apart =
      All-map2 (λ x. All (Agrees x) d.meta_nodes) (λ x. x.tcp_host ≢ h) _ d.data_nodes
        (λ x agrees other same.
          other ((found (Agrees x) h d.meta_nodes m agrees e).0 same ∙ address))
        c.data_agree (missing h d.data_nodes none_data);
}
  where
    address : m.tcp_host ≡ h
    address = (found (InRange d.max_node_id) h d.meta_nodes m c.meta_range e).1

id_for-IsNew :
    (d : Data) (h : Address)
    → IsConsistent d
    → suc d.max_node_id < word
    → with_tcp_host h d.data_nodes ≡ none
    → IsNew d h (id_for h d)
unfolding existing_id choose_id
id_for-IsNew d h c room none_data = elim (Option-cases (with_tcp_host h d.meta_nodes)) [
  | inl e ↦ rw e (rw next (fresh-IsNew d h c room))
  | inr (m, e) ↦ rw e (rw (given m e) (reused-IsNew d h m c none_data e))
]
  where
    next : (d.max_node_id + 1) % word ≡ suc d.max_node_id
    next = omega arith

    given : (m : NodeInfo) → with_tcp_host h d.meta_nodes ≡ some m → (m.id == 0) ≡ false
    given m e =
        let r = (found (InRange d.max_node_id) h d.meta_nodes m c.meta_range e).0 in ground arith

InRange-grows :
    (most most' : ℕ) (ns : List NodeInfo)
    → most ≤ most'
    → All (InRange most) ns
    → All (InRange most') ns
InRange-grows most most' ns h all =
    All-map (InRange most) (InRange most') ns (λ n r. (r.0, omega arith)) all

add_data-IsConsistent :
    (d : Data) (ids : ℕ × ℕ) (host h : Address)
    → IsConsistent d
    → IsNew d h ids
    → IsConsistent (add_data ids host h d)
add_data-IsConsistent d ids host h c new = record {
  small = new.small;
  meta_range = InRange-grows d.max_node_id ids.1 d.meta_nodes new.grows c.meta_range;
  data_range =
      All-sort_snoc (InRange ids.1) d.data_nodes (new_node ids.0 host h)
        (InRange-grows d.max_node_id ids.1 d.data_nodes new.grows c.data_range) new.range;
  meta_agree = c.meta_agree;
  data_agree =
      All-sort_snoc (λ x. All (Agrees x) d.meta_nodes) d.data_nodes (new_node ids.0 host h)
        c.data_agree new.agree;
  distinct = Distinct-sort_snoc d.data_nodes (new_node ids.0 host h) c.distinct new.apart;
}

with_new :
    (d : Data) (n x : NodeInfo)
    → All (Agrees x) d.meta_nodes
    → Agrees x n
    → All (Agrees x) (sort_nodes (d.meta_nodes ++ n ∷ []))
with_new d n x all h = All-sort_snoc (Agrees x) d.meta_nodes n all h

add_meta-IsConsistent :
    (d : Data) (ids : ℕ × ℕ) (host h : Address)
    → IsConsistent d
    → IsNew d h ids
    → IsConsistent (add_meta ids host h d)
add_meta-IsConsistent d ids host h c new = record {
  small = new.small;
  meta_range =
      All-sort_snoc (InRange ids.1) d.meta_nodes n
        (InRange-grows d.max_node_id ids.1 d.meta_nodes new.grows c.meta_range) new.range;
  data_range = InRange-grows d.max_node_id ids.1 d.data_nodes new.grows c.data_range;
  meta_agree =
      All-sort_snoc (λ x. All (Agrees x) (sort_nodes (d.meta_nodes ++ n ∷ []))) d.meta_nodes n
        (All-map2 (λ x. All (Agrees x) d.meta_nodes) (λ y. ids.0 ≡ y.id → h ≡ y.tcp_host) _
          d.meta_nodes (λ x all back. with_new d n x all (λ e. sym (back (sym e)))) c.meta_agree
          new.agree)
        (with_new d n n new.agree (λ e. refl));
  data_agree =
      All-map2 (λ x. All (Agrees x) d.meta_nodes) (λ x. x.id ≢ ids.0) _ d.data_nodes
        (λ x all other. with_new d n x all (λ e. absurd (other e))) c.data_agree new.apart;
  distinct = c.distinct;
}
  where
    n : NodeInfo
    n = new_node ids.0 host h

-- `CreateDataNode` keeps the ids consistent, whether it takes the id of a meta node, gives out a new
-- one or fails, unless the ids are used up.
pub create_data_node-IsConsistent :
    (host tcp_host : Address) (d : Data)
    → IsConsistent d
    → suc d.max_node_id < word
    → IsConsistent (create_data_node host tcp_host d).1
unfolding create_data_node
create_data_node-IsConsistent host h d c room = elim (Option-cases (with_tcp_host h d.data_nodes)) [
  | inl e ↦
      subst (after (add_data (id_for h d) host h d)) (sym e)
        (add_data-IsConsistent d (id_for h d) host h c (id_for-IsNew d h c room e))
  | inr (m, e) ↦ subst (after (add_data (id_for h d) host h d)) (sym e) c
]
  where
    after : Data → Option NodeInfo → Type 0
    after d' o = IsConsistent (unless_found o d d').1

-- `CreateMetaNode` does so too.
pub create_meta_node-IsConsistent :
    (host tcp_host : Address) (d : Data)
    → IsConsistent d
    → suc d.max_node_id < word
    → IsConsistent (create_meta_node host tcp_host d).1
unfolding create_meta_node
create_meta_node-IsConsistent host h d c room = elim (Option-cases (with_tcp_host h d.data_nodes)) [
  | inl e ↦
      subst (after (add_meta (id_for h d) host h d)) (sym e)
        (add_meta-IsConsistent d (id_for h d) host h c (id_for-IsNew d h c room e))
  | inr (m, e) ↦ subst (after (add_meta (id_for h d) host h d)) (sym e) c
]
  where
    after : Data → Option NodeInfo → Type 0
    after d' o = IsConsistent (unless_found o d d').1

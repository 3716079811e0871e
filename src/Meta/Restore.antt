-- ===== src/Meta/Restore.antt =====
-- What a snapshot of the metadata keeps: Persist and Restore of meta/store_fsm.go, on the binary
-- form of meta/data.go.
use mathlib.Core.Path.{subst}
use mathlib.Core.List.Memᴰ
use mathlib.Core.List.{Memᴰ}
use influxdb_cluster.Prelude.{
  ℕ, ◌≡◌, ◌≢◌, refl, sym, ap, ◌∙◌, inl, inr, Bool-cases, none, some, List, [], ◌∷◌, map, All, ltb,
}
use influxdb_cluster.Meta.Data.{
  Address, NodeInfo, Data, ok, insert_node, sort_from, with_tcp_host, new_node, same_address,
  existing_id, choose_id, add_meta, create_meta_node,
}
use influxdb_cluster.Meta.Sorted.{missing}
use influxdb_cluster.Meta.Command.{Inner, Metadata, inner_of, with_inner}
use influxdb_cluster.Meta.Snapshot.{
  ClusterData, Proto, marshal_node, unmarshal_node, marshal, empty_metadata, unmarshal,
  unmarshal_if, unmarshal_binary, marshal_binary, persist, restore,
}

-- A node keeps its place among the nodes when another is put in, and when they are sorted.
insert_node-here : (n : NodeInfo) (ms : List NodeInfo) → Memᴰ n (insert_node n ms)
unfolding insert_node
insert_node-here n [] = Memᴰ.head refl
insert_node-here n (m ∷ ms) = elim (Bool-cases (ltb n.id m.id)) [
  | inl less ↦ rw less (Memᴰ.head refl)
  | inr more ↦ rw more (Memᴰ.tail (insert_node-here n ms))
]

insert_node-stays : (x n : NodeInfo) (ms : List NodeInfo) → Memᴰ x ms → Memᴰ x (insert_node n ms)
unfolding insert_node
insert_node-stays x n [] h = absurd (Memᴰ.not-nil h)
insert_node-stays x n (m ∷ ms) h = elim (Bool-cases (ltb n.id m.id)) [
  | inl less ↦ rw less (Memᴰ.tail h)
  | inr more ↦ rw more (elim (Memᴰ.cases_cons h) [
    | inl e ↦ Memᴰ.head e
    | inr below ↦ Memᴰ.tail (insert_node-stays x n ms below)
  ])
]

sort_from-sorted :
    (x : NodeInfo) (sorted ns : List NodeInfo) → Memᴰ x sorted → Memᴰ x (sort_from sorted ns)
unfolding sort_from
sort_from-sorted x sorted [] h = h
sort_from-sorted x sorted (n ∷ ns) h =
    sort_from-sorted x (insert_node n sorted) ns (insert_node-stays x n sorted h)

pub sort_from-rest :
    (x : NodeInfo) (sorted ns : List NodeInfo) → Memᴰ x ns → Memᴰ x (sort_from sorted ns)
unfolding sort_from
sort_from-rest x sorted [] h = absurd (Memᴰ.not-nil h)
sort_from-rest x sorted (n ∷ ns) h = elim (Memᴰ.cases_cons h) [
  | inl e ↦ sort_from-sorted x (insert_node n sorted) ns (Memᴰ.cast e (insert_node-here n sorted))
  | inr below ↦ sort_from-rest x (insert_node n sorted) ns below
]

with_tcp_host-map :
    (h : Address) (ns : List NodeInfo)
    → with_tcp_host h ns ≡ none
    → with_tcp_host h (map marshal_node ns) ≡ none
unfolding with_tcp_host marshal_node
with_tcp_host-map h [] e = refl
with_tcp_host-map h (n ∷ ns) e = elim (Bool-cases (same_address n.tcp_host h)) [
  | inl same ↦ cc (rw same at e)
  | inr other ↦ rw other (with_tcp_host-map h ns (rw other at e))
]

marshal_node-In :
    (x : NodeInfo) (ns : List NodeInfo) → Memᴰ x ns → Memᴰ (marshal_node x) (map marshal_node ns)
marshal_node-In x [] h = absurd (Memᴰ.not-nil h)
marshal_node-In x (n ∷ ns) h = elim (Memᴰ.cases_cons h) [
  | inl e ↦ Memᴰ.head (ap marshal_node e)
  | inr below ↦ Memᴰ.tail (marshal_node-In x ns below)
]

unmarshal_nodes : (ns : List NodeInfo) → map unmarshal_node ns ≡ ns
unfolding unmarshal_node
unmarshal_nodes [] = refl
unmarshal_nodes (n ∷ ns) = ap (◌∷◌ n) (unmarshal_nodes ns)

created :
    (host h : Address) (d : Data)
    → d.data_nodes ≡ []
    → d.max_node_id ≡ 0
    → with_tcp_host h d.meta_nodes ≡ none
    → create_meta_node host h d ≡ (ok tt, add_meta (1, 1) host h d)
unfolding create_meta_node with_tcp_host existing_id choose_id
created host h d nodes most e = rw nodes (rw e (rw most refl))

member-All :
    (P : NodeInfo → Type 0) (n : NodeInfo) (ns : List NodeInfo) → Memᴰ n ns → All P ns → P n
member-All P n [] h all = absurd (Memᴰ.not-nil h)
member-All P n (x ∷ xs) h all = elim (Memᴰ.cases_cons h) [
  | inl e ↦ subst P (sym e) all.0
  | inr below ↦ member-All P n xs below all.1
]

-- What is documented of the parameters: what was encoded can be decoded.
pub record IsFaithful {I : Type 0} (p : Proto I) : Type 0 where
  pub decodes :
      (c : ClusterData) (bytes : List ℕ) → p.encode c ≡ some bytes → p.decode bytes ≡ some c
  pub unmarshals : (i : Inner I) → p.unmarshal_inner (p.marshal_inner i) ≡ i

module _ {I : Type 0} where
  -- What is left of the metadata after a snapshot.
  abbrev pub kept : Metadata I → Metadata I
  kept m = record m {
    data_part = record m.data_part {
      meta_nodes = map marshal_node m.data_part.meta_nodes;
      data_nodes = [];
      max_node_id = 0;
      users = [];
    };
  }

  -- A snapshot that is written and restored gives the metadata without its data nodes, its users
  -- and the greatest id, with zeros before the pending owners of each meta node, if what protobuf
  -- and the library encode they decode.
  pub restore-persist :
      (p : Proto I) (m : Metadata I) (bytes : List ℕ)
      → IsFaithful p
      → persist p m ≡ some bytes
      → restore p bytes ≡ some (kept m)
  unfolding persist marshal_binary restore unmarshal_binary unmarshal marshal
  restore-persist p m bytes f e =
      ap (λ o. unmarshal_if p o (empty_metadata p)) (f.decodes (marshal p m) bytes e) ∙ λ k. some (
        built (f.unmarshals (inner_of m) k)
          (unmarshal_nodes (map marshal_node m.data_part.meta_nodes) k))
    where
      built : Inner I → List NodeInfo → Metadata I
      built i ns = record (with_inner (empty_metadata p) i) {
        data_part = record (with_inner (empty_metadata p) i).data_part { meta_nodes = ns };
      }

  -- After a snapshot is restored, CreateMetaNode gives the id 1 to a new member, although a meta
  -- node of the snapshot may have the id 1: both are then among the meta nodes.
  pub restored-id_one :
      (p : Proto I) (m m' : Metadata I) (bytes : List ℕ) (host h : Address) (n : NodeInfo)
      → IsFaithful p
      → persist p m ≡ some bytes
      → restore p bytes ≡ some m'
      → Memᴰ n m.data_part.meta_nodes
      → n.id ≡ 1
      → with_tcp_host h m.data_part.meta_nodes ≡ none
      → let nodes = (create_meta_node host h m'.data_part).1.meta_nodes in
        Memᴰ (marshal_node n) nodes
        × Memᴰ (new_node 1 host h) nodes
        × ((marshal_node n).id ≡ (new_node 1 host h).id)
        × (n.tcp_host ≢ h)
  unfolding marshal_node
  restored-id_one p m m' bytes host h n f e r among one new =
      subst
        (λ (x : Metadata I).
          let nodes = (create_meta_node host h x.data_part).1.meta_nodes in
          Memᴰ (marshal_node n) nodes
          × Memᴰ (new_node 1 host h) nodes
          × ((marshal_node n).id ≡ (new_node 1 host h).id)
          × (n.tcp_host ≢ h))
        same
        (rw
          (created host h (kept m).data_part refl refl
            (with_tcp_host-map h m.data_part.meta_nodes new))
          (
            sort_from-rest (marshal_node n) [] _ (
                Memᴰ.append_left (new_node 1 host h ∷ [])
                  (marshal_node-In n m.data_part.meta_nodes among)),
            sort_from-rest (new_node 1 host h) [] _
                (Memᴰ.append_right (map marshal_node m.data_part.meta_nodes) (Memᴰ.head refl)),
            one,
            member-All (λ x. x.tcp_host ≢ h) n m.data_part.meta_nodes among
                (missing h m.data_part.meta_nodes new),
          ))
    where
      same : kept m ≡ m'
      same = cc (restore-persist p m bytes f e, r)

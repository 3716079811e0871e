-- ===== src/Meta/Store/Join.antt =====
-- A server that joins by meta/store.go, through raft and the state machine.
use mathlib.Core.Path.{subst}
use mathlib.Core.List.{Memᴰ}
use mathlib.Core.List.Memᴰ
use influxdb_cluster.Prelude.{
  ℕ, suc, ◌<◌, ◌≡◌, refl, sym, ap, ◌∙◌, inl, inr, Bool, true, Bool-cases, ◌&&◌, Option, none, some,
  List, [], ◌∷◌, ◌++◌, if◌then◌else◌,
}
use influxdb_cluster.Prelude.Bytes.{word}
use influxdb_cluster.Meta.Data.{
  Address, same_address, NodeInfo, Data, Outcome, ok, err, node_not_found, new_node, with_tcp_host,
  create_meta_node, unless_found, add_meta, id_for,
}
use influxdb_cluster.Meta.Sorted.{same_address_sound, same_address_self}
use influxdb_cluster.Meta.Users.{clone}
use influxdb_cluster.Meta.Command.{Command}
use influxdb_cluster.Meta.Handlers.{Store, apply_create_meta_node}
use influxdb_cluster.Meta.Restore.{sort_from-rest}
use influxdb_cluster.Meta.Fsm.{Outside, handle, stamp, apply_command}
use influxdb_cluster.Meta.Fsm.Ids.{IdsOk, apply_command-IdsOk}
use influxdb_cluster.Meta.Store.{
  not_open, Member, Backend, is_peer, with_both, found_or, unless_error, with_peers, add_peer,
  responded, committed, apply, store_create_meta_node, join_found, join_added, join,
}

is_peer-snoc : (a : Address) (ps : List Address) → is_peer a (ps ++ a ∷ []) ≡ true
unfolding is_peer
is_peer-snoc a [] = rw (same_address_self a) refl
is_peer-snoc a (p ∷ ps) = elim (Bool-cases (same_address a p)) [
  | inl same ↦ rw same refl
  | inr other ↦ rw other (is_peer-snoc a ps)
]

abbrev has_both : Address → Address → NodeInfo → Bool
has_both host tcp n = same_address n.tcp_host tcp && same_address n.host host

has_both_sound :
    (host tcp : Address) (n : NodeInfo)
    → has_both host tcp n ≡ true
    → (n.host ≡ host) × (n.tcp_host ≡ tcp)
has_both_sound host tcp n e = elim (Bool-cases (same_address n.tcp_host tcp)) [
  | inl same ↦
      (same_address_sound n.host host (rw same at e), same_address_sound n.tcp_host tcp same)
  | inr other ↦ cc (rw other at e)
]

has_both_self :
    (host tcp : Address) (n : NodeInfo)
    → n.host ≡ host
    → n.tcp_host ≡ tcp
    → has_both host tcp n ≡ true
has_both_self host tcp n e q =
    (λ k. same_address (n.tcp_host) (sym q k) && same_address n.host (sym e k))
    ∙ (λ k. same_address_self n.tcp_host k && same_address_self n.host k)

-- A node that is there is found by its addresses, or another that has both.
with_both-found :
    (host tcp : Address) (x : NodeInfo) (ns : List NodeInfo)
    → Memᴰ x ns
    → x.host ≡ host
    → x.tcp_host ≡ tcp
    → (n : NodeInfo) × (with_both host tcp ns ≡ some n) × (n.host ≡ host) × (n.tcp_host ≡ tcp)
unfolding with_both
with_both-found host tcp x [] h e q = absurd (Memᴰ.not-nil h)
with_both-found host tcp x (n ∷ ns) h e q = elim (Bool-cases (has_both host tcp n)) [
  | inl same ↦
      (n, rw same refl, (has_both_sound host tcp n same).0, (has_both_sound host tcp n same).1)
  | inr other ↦ elim (Memᴰ.cases_cons h) [
    | inl here ↦ cc (sym other ∙ (ap (has_both host tcp) (sym here) ∙ has_both_self host tcp x e q))
    | inr below ↦ rw other (with_both-found host tcp x ns below e q)
  ]
]

among :
    (host tcp : Address) (d : Data)
    → with_tcp_host tcp d.data_nodes ≡ none
    → Memᴰ (new_node (id_for tcp d).0 host tcp) (create_meta_node host tcp d).1.meta_nodes
unfolding create_meta_node
among host tcp d e =
    subst
      (λ o.
        Memᴰ (new_node (id_for tcp d).0 host tcp)
          (unless_found o d (add_meta (id_for tcp d) host tcp d)).1.meta_nodes)
      (sym e)
      (sort_from-rest (new_node (id_for tcp d).0 host tcp) [] _
        (Memᴰ.append_right d.meta_nodes (Memᴰ.head refl)))

module _ {I : Type 0} (b : Backend) where
  -- Raft takes the peer and commits what it is given.
  pub record Works (o : Outside I) : Type 0 where
    pub peers : b.peers_error ≡ none
    pub adds : (a : Address) → b.add_error a ≡ none
    pub commits : (cmd : Command) → b.commit_error cmd ≡ none

  add_peer_lem :
      (tcp : Address) (m : Member I)
      → b.peers_error ≡ none
      → ((a : Address) → b.add_error a ≡ none)
      → (peers : List Address) × (add_peer b tcp m ≡ (ok tt, record m { peers = peers }))
        × (is_peer tcp peers ≡ true)
  unfolding add_peer
  add_peer_lem tcp m e adds = elim (Bool-cases (is_peer tcp m.peers)) [
    | inl there ↦ (
      m.peers,
      opened ∙ ap (λ x. if x then (ok tt, m) else unless_error b (b.add_error tcp) m more) there,
      there,
    )
    | inr new ↦ (
      m.peers ++ tcp ∷ [],
      opened
          ∙ (ap (λ x. if x then (ok tt, m) else unless_error b (b.add_error tcp) m more) new
              ∙ ap (λ o. unless_error b o m more) (adds tcp)),
      is_peer-snoc tcp m.peers,
    )
  ]
    where
      more : Member I
      more = record m { peers = m.peers ++ tcp ∷ [] }

      opened :
          with_peers b b.peers_error
            (λ n.
              if is_peer tcp n.peers
              then (ok tt, n)
              else unless_error b (b.add_error tcp) n (record n { peers = n.peers ++ tcp ∷ [] }))
            m
          ≡ (if is_peer tcp m.peers then (ok tt, m) else unless_error b (b.add_error tcp) m more)
      opened =
          ap
            (λ o.
              with_peers b o
                (λ n.
                  if is_peer tcp n.peers
                  then (ok tt, n)
                  else unless_error b (b.add_error tcp) n
                      (record n { peers = n.peers ++ tcp ∷ [] }))
                m)
            e

  apply_lem :
      (o : Outside I) (cmd : Command) (m : Member I)
      → m.opened ≡ true
      → b.commit_error cmd ≡ none
      → apply b o cmd m ≡ responded b (apply_command o m.term m.index cmd m.store) m
  unfolding apply
  apply_lem o cmd m ready commits =
      ap (λ x. if x then committed b (b.commit_error cmd) o cmd m else some (err not_open, m)) ready
      ∙ ap (λ c. committed b c o cmd m) commits

  -- The store after the command.
  abbrev stored : Address → Address → ℕ → Member I → Store I
  stored host tcp rand m = stamp m.term m.index (apply_create_meta_node host tcp rand m.store).1

  command_lem :
      (o : Outside I) (host tcp : Address) (rand : ℕ) (m : Member I)
      → apply_command o m.term m.index (Command.create_meta_node host tcp rand) m.store
        ≡ some (ok tt, stored host tcp rand m)
  unfolding apply_command handle apply_create_meta_node
  command_lem o host tcp rand m = refl

  joined :
      (host tcp : Address) (rand : ℕ) (m : Member I)
      → with_tcp_host tcp m.store.metadata.data_part.data_nodes ≡ none
      → (n : NodeInfo) × (with_both host tcp (stored host tcp rand m).metadata.data_part.meta_nodes
          ≡ some n)
        × (n.host ≡ host)
        × (n.tcp_host ≡ tcp)
  unfolding apply_create_meta_node clone
  joined host tcp rand m e =
      with_both-found host tcp (new_node (id_for tcp (clone m.store.metadata.data_part)).0 host tcp)
        _ (among host tcp (clone m.store.metadata.data_part) e) refl refl

  -- What a server that joined is told, and what holds after that.
  pub record Joined (host tcp : Address) (x : Option (Outcome NodeInfo × Member I)) : Type 0 where
    pub node : NodeInfo
    pub member : Member I
    pub returned : x ≡ some (ok node, member)
    pub host_eq : node.host ≡ host
    pub tcp_eq : node.tcp_host ≡ tcp
    pub peer : is_peer tcp member.peers ≡ true
    pub ids : IdsOk member.store

  -- A server that joins, with an address that no data node has, is told the node with its addresses;
  -- it is among the peers after that, and the ids of the nodes are consistent as before, if raft
  -- adds the peer and commits the command, and the ids are not used up.
  pub join-Joined :
      (o : Outside I) (host tcp : Address) (rand : ℕ) (m : Member I)
      → Works o
      → m.opened ≡ true
      → IdsOk m.store
      → suc m.store.metadata.data_part.max_node_id < word
      → with_tcp_host tcp m.store.metadata.data_part.data_nodes ≡ none
      → Joined host tcp (join b o host tcp rand m)
  unfolding join store_create_meta_node
  join-Joined o host tcp rand m w ready c room apart =
      let (peers, with_peer, peer) = add_peer_lem tcp m w.peers w.adds in
      let m1 : Member I = record m { peers = peers } in
      let (n, found, host_eq, tcp_eq) = joined host tcp rand m1 apart in
      record {
        node = n;
        member = record m1 { store = stored host tcp rand m1; index = suc m.index };
        returned =
            ap
              (λ x.
                if x
                then join_added b o host tcp rand (add_peer b tcp m)
                else some (err not_open, m))
              ready
            ∙ (ap (join_added b o host tcp rand) with_peer
                ∙ (ap (join_found b host tcp) (
                      apply_lem o (Command.create_meta_node host tcp rand) m1 ready (w.commits _)
                      ∙ ap (λ r. responded b r m1) (command_lem o host tcp rand m1))
                    ∙ ap
                        (λ f. some (
                          found_or f (err node_not_found),
                          record m1 { store = stored host tcp rand m1; index = suc m.index },
                        ))
                        found));
        host_eq = host_eq;
        tcp_eq = tcp_eq;
        peer = peer;
        ids =
            apply_command-IdsOk o m.term m.index (Command.create_meta_node host tcp rand) m.store
              (ok tt, stored host tcp rand m1) tt c room (command_lem o host tcp rand m1);
      }

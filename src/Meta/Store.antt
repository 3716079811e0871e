-- ===== src/Meta/Store.antt =====
-- The methods of the store of meta/store.go, on the raft state of meta/raft_state.go. The library raft
-- is a parameter: what it answers is a `Backend`. A command that is committed is applied on the member
-- itself, and its result is the response.
pub mod Join
mod Tests
use influxdb_cluster.Prelude.{
  ℕ, suc, ◌+◌, Bool, true, false, not, ◌&&◌, ◌||◌, Option, none, some, List, [], ◌∷◌, ◌++◌, ltb,
  if◌then◌else◌,
}
use influxdb_cluster.Meta.Data.{
  Address, same_address, NodeInfo, Outcome, ok, err, MetaError, node_not_found, not_leader,
  other_error, with_tcp_host, with_host,
}
use influxdb_cluster.Meta.Command.{Command}
use influxdb_cluster.Meta.Command
use influxdb_cluster.Meta.Handlers.{Store}
use influxdb_cluster.Meta.Fsm.{Outside, apply_command}

-- `opened` says that the raft state is not nil. `term` and `index` are those of the next entry of the
-- log.
pub record Member (I : Type 0) : Type 0 where
  pub store : Store I
  pub address : Address
  pub opened : Bool
  pub peers : List Address
  pub term : ℕ
  pub index : ℕ

-- The errors of the peer store, of AddPeer, RemovePeer and Apply, and the leader.
pub record Backend : Type 0 where
  pub peers_error : Option MetaError
  pub add_error : Address → Option MetaError
  pub remove_error : Address → Option MetaError
  pub commit_error : Command → Option MetaError
  pub is_leader : Bool
  pub leader : Address

abbrev pub not_open : MetaError
not_open = other_error 0

unfoldable pub is_peer : Address → List Address → Bool
is_peer a [] = false
is_peer a (p ∷ ps) = same_address a p || is_peer a ps

unfoldable pub drop_peer : Address → List Address → List Address
drop_peer a [] = []
drop_peer a (p ∷ ps) = if same_address a p then ps else p ∷ drop_peer a ps

-- The node of join: both addresses are looked at.
unfoldable pub with_both : Address → Address → List NodeInfo → Option NodeInfo
with_both host tcp [] = none
with_both host tcp (n ∷ ns) =
    if same_address n.tcp_host tcp && same_address n.host host
    then some n
    else with_both host tcp ns

abbrev pub found_or : Option NodeInfo → Outcome NodeInfo → Outcome NodeInfo
found_or none other = other
found_or (some n) other = ok n

unfoldable pub other_hosts : Address → List NodeInfo → List Address
other_hosts a [] = []
other_hosts a (n ∷ ns) =
    let rest = other_hosts a ns in if same_address n.tcp_host a then rest else n.host ∷ rest

abbrev pub host_of : Option NodeInfo → Address
host_of none = []
host_of (some n) = n.host

module _ {I : Type 0} (b : Backend) where
  abbrev pub unless_error : Option MetaError → Member I → Member I → Outcome (Unit {0}) × Member I
  unless_error (some e) m m' = (err e, m)
  unless_error none m m' = (ok tt, m')

  abbrev pub with_peers :
      Option MetaError
      → (Member I → Outcome (Unit {0}) × Member I)
      → Member I
      → Outcome (Unit {0}) × Member I
  with_peers (some e) k m = (err e, m)
  with_peers none k m = k m

  unfoldable pub add_peer : Address → Member I → Outcome (Unit {0}) × Member I
  add_peer addr = with_peers b.peers_error (λ m.
      if is_peer addr m.peers
      then (ok tt, m)
      else unless_error (b.add_error addr) m (record m { peers = m.peers ++ addr ∷ [] }))

  unfoldable pub remove_peer : Address → Member I → Outcome (Unit {0}) × Member I
  remove_peer addr m =
      if not b.is_leader
      then (err not_leader, m)
      else with_peers b.peers_error
          (λ n.
            if is_peer addr n.peers
            then unless_error (b.remove_error addr) n (record n { peers = drop_peer addr n.peers })
            else (ok tt, n))
          m

  abbrev pub responded :
      Option (Outcome (Unit {0}) × Store I) → Member I → Option (Outcome (Unit {0}) × Member I)
  responded none m = none
  responded (some r) m = some (r.0, record m { store = r.1; index = suc m.index })

  abbrev pub committed :
      Option MetaError → Outside I → Command → Member I → Option (Outcome (Unit {0}) × Member I)
  committed (some e) o cmd m = some (err e, m)
  committed none o cmd m = responded (apply_command o m.term m.index cmd m.store) m

  -- `none` is a panic.
  unfoldable pub apply : Outside I → Command → Member I → Option (Outcome (Unit {0}) × Member I)
  apply o cmd m =
      if m.opened then committed (b.commit_error cmd) o cmd m else some (err not_open, m)

  unfoldable pub store_create_meta_node :
      Outside I → Address → Address → ℕ → Member I → Option (Outcome (Unit {0}) × Member I)
  store_create_meta_node o host tcp rand = apply o (Command.create_meta_node host tcp rand)

  unfoldable pub store_delete_meta_node :
      Outside I → ℕ → Member I → Option (Outcome (Unit {0}) × Member I)
  store_delete_meta_node o id = apply o (Command.delete_meta_node id)

  unfoldable pub store_create_data_node :
      Outside I → Address → Address → Member I → Option (Outcome (Unit {0}) × Member I)
  store_create_data_node o host tcp = apply o Command.create_data_node

  unfoldable pub store_delete_data_node :
      Outside I → ℕ → Member I → Option (Outcome (Unit {0}) × Member I)
  store_delete_data_node o id = apply o (Command.delete_data_node id)

  -- Apply has no case for the command.
  unfoldable pub store_update_data_node :
      Outside I → ℕ → Address → Address → Member I → Option (Outcome (Unit {0}) × Member I)
  store_update_data_node o id host tcp = apply o Command.unknown

  abbrev pub join_found :
      Address
      → Address
      → Option (Outcome (Unit {0}) × Member I)
      → Option (Outcome NodeInfo × Member I)
  join_found host tcp none = none
  join_found host tcp (some (err e, m)) = some (err e, m)
  join_found host tcp (some (ok _, m)) =
      some (
        found_or (with_both host tcp m.store.metadata.data_part.meta_nodes) (err node_not_found),
        m,
      )

  abbrev pub join_added :
      Outside I
      → Address
      → Address
      → ℕ
      → Outcome (Unit {0}) × Member I
      → Option (Outcome NodeInfo × Member I)
  join_added o host tcp rand (err e, m) = some (err e, m)
  join_added o host tcp rand (ok _, m) =
      join_found host tcp (store_create_meta_node o host tcp rand m)

  unfoldable pub join :
      Outside I → Address → Address → ℕ → Member I → Option (Outcome NodeInfo × Member I)
  join o host tcp rand m =
      if m.opened then join_added o host tcp rand (add_peer tcp m) else some (err not_open, m)

  unfoldable pub leave : Address → Member I → Outcome (Unit {0}) × Member I
  leave tcp = remove_peer tcp

  unfoldable pub leader_http : Member I → Address
  leader_http m =
      if m.opened
      then host_of (with_tcp_host b.leader m.store.metadata.data_part.meta_nodes)
      else []

  unfoldable pub other_meta_servers_http : Member I → List Address
  other_meta_servers_http m = other_hosts m.address m.store.metadata.data_part.meta_nodes

  -- The data nodes are looked at before the meta nodes.
  unfoldable pub node_by_http_addr : Address → Member I → Outcome NodeInfo
  node_by_http_addr addr m =
      found_or (with_host addr m.store.metadata.data_part.data_nodes)
        (found_or (with_host addr m.store.metadata.data_part.meta_nodes) (err node_not_found))

  -- Whether the channel of afterIndex is closed already.
  unfoldable pub after_index : ℕ → Member I → Bool
  after_index index m = ltb index m.store.metadata.data_part.index

-- ===== src/Meta/Snapshot.antt =====
-- The binary form of the metadata of meta/data.go, and the snapshots of meta/store_fsm.go. The
-- functions of protobuf and of the embedded `meta.Data` are parameters.
use influxdb_cluster.Prelude.{ℕ, Option, none, some, List, [], ◌++◌, map, length, replicate}
use influxdb_cluster.Meta.Data.{NodeInfo}
use influxdb_cluster.Meta.Command.{Inner, Metadata, inner_of, with_inner}

-- The message ClusterData. MaxNodeID is never set; of the users only the number is there.
pub record ClusterData : Type 0 where
  pub inner : List ℕ
  pub meta_nodes : List NodeInfo
  pub data_nodes : List NodeInfo
  pub users : ℕ

-- `marshal_inner` and `unmarshal_inner` are those of the embedded part, whose errors are dropped.
-- `encode` is `proto.Marshal`, and `decode` `proto.Unmarshal`. `zero_inner` is an empty `meta.Data`.
pub record Proto (I : Type 0) : Type 0 where
  pub marshal_inner : Inner I → List ℕ
  pub unmarshal_inner : List ℕ → Inner I
  pub encode : ClusterData → Option (List ℕ)
  pub decode : List ℕ → Option ClusterData
  pub zero_inner : Inner I

-- The slice is made with zeros in it, and appended to.
unfoldable pub marshal_node : NodeInfo → NodeInfo
marshal_node n = record n {
  pending_shard_owners = replicate (length n.pending_shard_owners) 0 ++ n.pending_shard_owners;
}

unfoldable pub unmarshal_node : NodeInfo → NodeInfo
unmarshal_node n = n

module _ {I : Type 0} (p : Proto I) where
  unfoldable pub marshal : Metadata I → ClusterData
  marshal m = record {
    inner = p.marshal_inner (inner_of m);
    meta_nodes = map marshal_node m.data_part.meta_nodes;
    data_nodes = map marshal_node m.data_part.data_nodes;
    users = length m.data_part.users;
  }

  -- `&Data{}`.
  abbrev pub empty_metadata : Metadata I
  empty_metadata = record {
    data_part = record {
      meta_nodes = [];
      data_nodes = [];
      max_node_id = 0;
      index = p.zero_inner.index;
      max_shard_group_id = p.zero_inner.max_shard_group_id;
      max_shard_id = p.zero_inner.max_shard_id;
      databases = p.zero_inner.databases;
      users = [];
    };
    term = p.zero_inner.term;
    cluster_id = p.zero_inner.cluster_id;
    rest = p.zero_inner.rest;
  }

  -- The data nodes and the users of the message are not read.
  unfoldable pub unmarshal : ClusterData → Metadata I → Metadata I
  unmarshal pb m =
      let m' = with_inner m (p.unmarshal_inner pb.inner) in
      record m' {
        data_part = record m'.data_part { meta_nodes = map unmarshal_node pb.meta_nodes };
      }

  unfoldable pub marshal_binary : Metadata I → Option (List ℕ)
  marshal_binary m = p.encode (marshal m)

  abbrev pub unmarshal_if : Option ClusterData → Metadata I → Option (Metadata I)
  unmarshal_if none m = none
  unmarshal_if (some pb) m = some (unmarshal pb m)

  -- `none` is an error, with which the metadata stays.
  unfoldable pub unmarshal_binary : List ℕ → Metadata I → Option (Metadata I)
  unmarshal_binary bytes m = unmarshal_if (p.decode bytes) m

  -- What Persist writes to a sink that takes it: `none` is an error, which cancels the sink.
  unfoldable pub persist : Metadata I → Option (List ℕ)
  persist m = marshal_binary m

  -- Restore of what was read.
  unfoldable pub restore : List ℕ → Option (Metadata I)
  restore bytes = unmarshal_binary bytes empty_metadata

-- ===== src/Meta/Tests/Codec.antt =====
-- A binary form for the tests: a number is one element, and a list has its length before it.
use influxdb_cluster.Prelude.{
  ℕ, zero, suc, ◌≡◌, refl, sym, ap, ◌∙◌, Option, none, some, List, [], ◌∷◌, ◌++◌, append-nil,
  append_assoc, length,
}
use influxdb_cluster.Meta.Data.{
  NodeInfo, ShardInfo, ShardGroupInfo, RetentionPolicyInfo, DatabaseInfo,
}
use influxdb_cluster.Meta.Command.{Inner}
use influxdb_cluster.Meta.Snapshot.{ClusterData, Proto}
use influxdb_cluster.Meta.Restore.{IsFaithful}

pub record Codec (A : Type 0) : Type 0 where
  pub put : A → List ℕ
  pub get : List ℕ → Option (A × List ℕ)
  pub law : (a : A) (rest : List ℕ) → get (put a ++ rest) ≡ some (a, rest)

abbrev and_then :
    {A B : Type 0} → Option (A × List ℕ) → (A → List ℕ → Option (B × List ℕ)) → Option (B × List ℕ)
and_then none k = none
and_then (some r) k = k r.0 r.1

abbrev get_number : List ℕ → Option (ℕ × List ℕ)
get_number [] = none
get_number (x ∷ xs) = some (x, xs)

abbrev number : Codec ℕ
number = record { put = λ n. n ∷ []; get = get_number; law = λ n rest. refl }

abbrev nothing : Codec (Unit {0})
nothing = record { put = λ u. []; get = λ xs. some (tt, xs); law = λ u rest. refl }

abbrev both : {A B : Type 0} → Codec A → Codec B → Codec (A × B)
both c d = record {
  put = λ p. c.put p.0 ++ d.put p.1;
  get = λ xs. and_then (c.get xs) (λ a rest. and_then (d.get rest) (λ b left. some ((a, b), left)));
  law = λ p rest.
      ap (λ xs. and_then (c.get xs) (λ a ys. and_then (d.get ys) (λ b left. some ((a, b), left))))
        (append_assoc (c.put p.0) (d.put p.1) rest)
      ∙ (ap (λ o. and_then o (λ a ys. and_then (d.get ys) (λ b left. some ((a, b), left))))
            (c.law p.0 (d.put p.1 ++ rest))
          ∙ ap (λ o. and_then o (λ b left. some ((p.0, b), left))) (d.law p.1 rest));
}

-- Through another type.
abbrev via :
    {A B : Type 0} → Codec B → (to : A → B) → (from : B → A) → ((a : A) → from (to a) ≡ a) → Codec A
via c to from back = record {
  put = λ a. c.put (to a);
  get = λ xs. and_then (c.get xs) (λ b rest. some (from b, rest));
  law = λ a rest.
      ap (λ o. and_then o (λ b left. some (from b, left))) (c.law (to a) rest)
      ∙ ap (λ x. some (x, rest)) (back a);
}

module _ {A : Type 0} (c : Codec A) where
  abbrev put_all : List A → List ℕ
  put_all [] = []
  put_all (x ∷ xs) = c.put x ++ put_all xs

  abbrev get_all : ℕ → List ℕ → Option (List A × List ℕ)
  get_all zero xs = some ([], xs)
  get_all (suc n) xs =
      and_then (c.get xs) (λ a rest. and_then (get_all n rest) (λ as' left. some (a ∷ as', left)))

  pub get_all-put_all :
      (as' : List A) (rest : List ℕ) → get_all (length as') (put_all as' ++ rest) ≡ some (as', rest)
  get_all-put_all [] rest = refl
  get_all-put_all (a ∷ as') rest =
      ap
        (λ xs.
          and_then (c.get xs)
            (λ x ys. and_then (get_all (length as') ys) (λ all left. some (x ∷ all, left))))
        (append_assoc (c.put a) (put_all as') rest)
      ∙ (ap
            (λ o.
              and_then o
                (λ x ys. and_then (get_all (length as') ys) (λ all left. some (x ∷ all, left))))
            (c.law a (put_all as' ++ rest))
          ∙ ap (λ o. and_then o (λ all left. some (a ∷ all, left))) (get_all-put_all as' rest))

  abbrev list : Codec (List A)
  list = record {
    put = λ xs. length xs ∷ put_all xs;
    get = λ xs. and_then (get_number xs) get_all;
    law = get_all-put_all;
  }

abbrev bytes : Codec (List ℕ)
bytes = list number

abbrev node : Codec NodeInfo
node =
    via (both number (both bytes (both bytes bytes)))
      (λ n. (n.id, (n.host, (n.tcp_host, n.pending_shard_owners))))
      (λ t. record { id = t.0; host = t.1.0; tcp_host = t.1.1.0; pending_shard_owners = t.1.1.1 })
      (λ n. refl)

abbrev shard : Codec ShardInfo
shard =
    via (both number bytes) (λ s. (s.id, s.owners)) (λ t. record { id = t.0; owners = t.1 })
      (λ s. refl)

abbrev group : Codec ShardGroupInfo
group =
    via (both number (both number (both number (both number (list shard)))))
      (λ g. (g.id, (g.start_time, (g.end_time, (g.deleted_at, g.shards)))))
      (λ t. record {
        id = t.0;
        start_time = t.1.0;
        end_time = t.1.1.0;
        deleted_at = t.1.1.1.0;
        shards = t.1.1.1.1;
      })
      (λ g. refl)

abbrev policy : Codec RetentionPolicyInfo
policy =
    via (both bytes (both number (both number (list group))))
      (λ p. (p.name, (p.replica_n, (p.shard_group_duration, p.shard_groups))))
      (λ t. record {
        name = t.0;
        replica_n = t.1.0;
        shard_group_duration = t.1.1.0;
        shard_groups = t.1.1.1;
      })
      (λ p. refl)

abbrev database : Codec DatabaseInfo
database =
    via (both bytes (list policy)) (λ d. (d.name, d.retention_policies))
      (λ t. record { name = t.0; retention_policies = t.1 }) (λ d. refl)

abbrev inner : Codec (Inner (Unit {0}))
inner =
    via
      (both number
        (both number (both number (both number (both number (both (list database) nothing))))))
      (λ i. (
        i.term,
        (i.index, (i.cluster_id, (i.max_shard_group_id, (i.max_shard_id, (i.databases, i.rest))))),
      ))
      (λ t. record {
        term = t.0;
        index = t.1.0;
        cluster_id = t.1.1.0;
        max_shard_group_id = t.1.1.1.0;
        max_shard_id = t.1.1.1.1.0;
        databases = t.1.1.1.1.1.0;
        rest = t.1.1.1.1.1.1;
      })
      (λ i. refl)

abbrev cluster_data : Codec ClusterData
cluster_data =
    via (both bytes (both (list node) (both (list node) number)))
      (λ c. (c.inner, (c.meta_nodes, (c.data_nodes, c.users))))
      (λ t. record { inner = t.0; meta_nodes = t.1.0; data_nodes = t.1.1.0; users = t.1.1.1 })
      (λ c. refl)

abbrev pub no_inner : Inner (Unit {0})
no_inner = record {
  term = 0;
  index = 0;
  cluster_id = 0;
  max_shard_group_id = 0;
  max_shard_id = 0;
  databases = [];
  rest = tt;
}

abbrev or_no_inner : Option (Inner (Unit {0}) × List ℕ) → Inner (Unit {0})
or_no_inner none = no_inner
or_no_inner (some r) = r.0

abbrev whole : Option (ClusterData × List ℕ) → Option ClusterData
whole none = none
whole (some r) = some r.0

abbrev pub put_cluster : ClusterData → List ℕ
put_cluster = cluster_data.put

abbrev pub proto : Proto (Unit {0})
proto = record {
  marshal_inner = inner.put;
  unmarshal_inner = λ xs. or_no_inner (inner.get xs);
  encode = λ c. some (cluster_data.put c);
  decode = λ xs. whole (cluster_data.get xs);
  zero_inner = no_inner;
}

alone : {A : Type 0} (c : Codec A) (a : A) → c.get (c.put a) ≡ some (a, [])
alone c a = ap c.get (sym (append-nil (c.put a))) ∙ c.law a []

pub proto-IsFaithful : IsFaithful proto
proto-IsFaithful = record {
  decodes = λ c xs e.
      ap (λ ys. whole (cluster_data.get ys)) (found c xs e) ∙ ap whole (alone cluster_data c);
  unmarshals = λ i. ap or_no_inner (alone inner i);
}
  where
    found : (c : ClusterData) (xs : List ℕ) → proto.encode c ≡ some xs → xs ≡ cluster_data.put c
    found c xs e = cc e

-- ===== src/Hh/Service.antt =====
-- The type Service of hh/service.go: a NodeProcessor for each node that has hints. A method that holds
-- the lock of the service is one step, and so is a method of a processor.
pub mod Writes
pub mod Purge
pub mod Closing
mod Tests
use influxdb_cluster.Prelude.{
  ℕ, ◌+◌, Bool, true, false, not, Option, none, some, List, [], ◌∷◌, ltb, ◌==◌, if◌then◌else◌,
}
use influxdb_cluster.Hh.Exec.{Result, ok, err, panic, handoff_disabled, Exec}
use influxdb_cluster.Hh.Os.{FileName}
use influxdb_cluster.Hh.Directory.{Directory}
use influxdb_cluster.Hh.Directory.Names.{parse_uint}
use influxdb_cluster.Hh.Processor.Life.{
  NodeProcessor, disk, open_processor, close_processor, purge_processor, hint_shard,
  processor_last_modified,
}

-- DefaultMaxSize, and DefaultRetryInterval and DefaultRetryMaxInterval in nanoseconds.
abbrev pub default_max_size : ℕ
default_max_size = 1073741824

abbrev pub default_retry_interval : ℕ
default_retry_interval = 1000000000

abbrev pub default_retry_max_interval : ℕ
default_retry_max_interval = 60000000000

-- `disks` is the directory of each node that has no processor. `running` says that the goroutine
-- that purges was started and has not been stopped.
pub record Service (Point : Type 0) : Type 0 where
  pub enabled : Bool
  pub max_age : ℕ
  pub processors : List (ℕ × NodeProcessor Point)
  pub disks : ℕ → Directory
  pub running : Bool

unfoldable pub set_disk : ℕ → Directory → (ℕ → Directory) → ℕ → Directory
set_disk id d disks i = if i == id then d else disks i

module _ {Point : Type 0} where
  -- The map of processors: what a key holds, and an assignment.
  unfoldable pub find : ℕ → List (ℕ × NodeProcessor Point) → Option (NodeProcessor Point)
  find id [] = none
  find id (e ∷ es) = if e.0 == id then some e.1 else find id es

  unfoldable pub set_processor :
      ℕ → NodeProcessor Point → List (ℕ × NodeProcessor Point) → List (ℕ × NodeProcessor Point)
  set_processor id p [] = (id, p) ∷ []
  set_processor id p (e ∷ es) = if e.0 == id then (id, p) ∷ es else e ∷ set_processor id p es

  -- NewNodeProcessor takes none of its settings from the configuration.
  abbrev pub new_processor : ℕ → Directory → NodeProcessor Point
  new_processor id dir = record {
    node_id = id;
    max_size = default_max_size;
    retry_interval = default_retry_interval;
    retry_max_interval = default_retry_max_interval;
    done = false;
    queue = none;
    dir = dir;
    write_shard_req = 0;
    write_shard_req_points = 0;
    write_node_req = 0;
    write_node_req_fail = 0;
    write_node_req_points = 0;
    attempts = 0;
    sent = [];
  }

  -- A processor that does not open is not kept, but what it wrote is.
  unfoldable pub keep_opened :
      ℕ → Result (Unit {0}) × NodeProcessor Point → Exec (Service Point) (Unit {0})
  keep_opened id (err e, p) s = (err e, record s { disks = set_disk id (disk p) s.disks })
  keep_opened id (ok _, p) s = (ok tt, record s { processors = set_processor id p s.processors })

  unfoldable pub add_processor : ℕ → Exec (Service Point) (Unit {0})
  add_processor id s = keep_opened id (open_processor (new_processor id (s.disks id))) s

  -- A call on the processor of a node.
  unfoldable pub on_processor :
      ℕ
      → Exec (NodeProcessor Point) (Unit {0})
      → Option (NodeProcessor Point)
      → Exec (Service Point) (Unit {0})
  on_processor id m none s = (ok tt, s)
  on_processor id m (some p) s =
      ((m p).0, record s { processors = set_processor id (m p).1 s.processors })

  unfoldable pub if_opened :
      ℕ
      → Exec (NodeProcessor Point) (Unit {0})
      → Result (Unit {0})
      → Exec (Service Point) (Unit {0})
  if_opened id m (err e) s = (err e, s)
  if_opened id m (ok _) s = on_processor id m (find id s.processors) s

  unfoldable pub hint_or_add :
      ℕ
      → Exec (NodeProcessor Point) (Unit {0})
      → Option (NodeProcessor Point)
      → Exec (Service Point) (Unit {0})
  hint_or_add id m (some p) s = on_processor id m (some p) s
  hint_or_add id m none s = let added = add_processor id s in if_opened id m added.0 added.1

  -- The method WriteShard of the service.
  unfoldable pub write_shard :
      (Point → List ℕ) → ℕ → ℕ → List Point → Exec (Service Point) (Unit {0})
  write_shard to_string shard_id owner points s =
      if s.enabled
      then hint_or_add owner (hint_shard to_string shard_id points) (find owner s.processors) s
      else (err handoff_disabled, s)

  -- The loop of Open over the names in the directory; a name that is no number is skipped.
  abbrev pub then_go :
      Result (Unit {0}) → Exec (Service Point) (Unit {0}) → Exec (Service Point) (Unit {0})
  then_go (err e) k s = (err e, s)
  then_go (ok _) k s = k s

  abbrev pub add_named : Option ℕ → Exec (Service Point) (Unit {0})
  add_named none s = (ok tt, s)
  add_named (some id) s = add_processor id s

  unfoldable pub add_each : List FileName → Exec (Service Point) (Unit {0})
  add_each [] s = (ok tt, record s { running = true })
  add_each (name ∷ names) s =
      let added = add_named (parse_uint name) s in then_go added.0 (add_each names) added.1

  abbrev pub add_listed : Result (List FileName) → Exec (Service Point) (Unit {0})
  add_listed (err e) s = (err e, s)
  add_listed (ok names) s = add_each names s

  -- `made` is the result of MkdirAll on the root directory, and `listing` that of ReadDir.
  unfoldable pub open_service :
      Result (Unit {0}) → Result (List FileName) → Exec (Service Point) (Unit {0})
  open_service made listing s =
      if s.enabled then then_go made (add_listed listing) s else (ok tt, s)

  -- The loop of Close; at the first error it returns, with the goroutine still there.
  unfoldable pub close_each : List (ℕ × NodeProcessor Point) → Exec (Service Point) (Unit {0})
  close_each [] s = (ok tt, record s { running = false })
  close_each (e ∷ es) s =
      let closed = on_processor e.0 close_processor (some e.1) s in
      then_go closed.0 (close_each es) closed.1

  unfoldable pub close_service : Exec (Service Point) (Unit {0})
  close_service s = close_each s.processors s

  -- The body of the loop over the processors, for one of them: what is left of it, and whether it
  -- is deleted, or `none` for a panic. The errors are only logged.
  unfoldable pub drop_purged : Result (Unit {0}) × NodeProcessor Point → Bool × NodeProcessor Point
  drop_purged (err e, p) = (false, p)
  drop_purged (ok _, p) = (true, p)

  unfoldable pub purge_closed :
      Result (Unit {0}) × NodeProcessor Point → Option (Bool × NodeProcessor Point)
  purge_closed (err panic, p) = none
  purge_closed (err e, p) = some (false, p)
  purge_closed (ok _, p) = some (drop_purged (purge_processor p))

  unfoldable pub purge_inactive :
      Result Bool → Bool → NodeProcessor Point → Option (Bool × NodeProcessor Point)
  purge_inactive (err e) old p = some (false, p)
  purge_inactive (ok true) old p = some (false, p)
  purge_inactive (ok false) old p =
      if not old then some (false, p) else purge_closed (close_processor p)

  unfoldable pub purge_modified :
      Result Bool → ℕ → ℕ → Result ℕ × NodeProcessor Point → Option (Bool × NodeProcessor Point)
  purge_modified active now max_age (err panic, p) = none
  purge_modified active now max_age (err e, p) = some (false, p)
  purge_modified active now max_age (ok modified, p) =
      purge_inactive active (ltb (modified + max_age) now) p

  unfoldable pub purge_one :
      (FileName → Option ℕ)
      → (ℕ → Result Bool)
      → ℕ
      → ℕ
      → NodeProcessor Point
      → Option (Bool × NodeProcessor Point)
  purge_one modified active now max_age p =
      purge_modified (active p.node_id) now max_age (processor_last_modified modified p)

  -- The map and the directories after the entry of a node.
  abbrev pub purge_next :
      ℕ
      → Option (Bool × NodeProcessor Point)
      → Option (List (ℕ × NodeProcessor Point) × (ℕ → Directory))
      → Option (List (ℕ × NodeProcessor Point) × (ℕ → Directory))
  purge_next id none rest = none
  purge_next id (some one) none = none
  purge_next id (some (true, p)) (some rest) = some (rest.0, set_disk id (disk p) rest.1)
  purge_next id (some (false, p)) (some rest) = some ((id, p) ∷ rest.0, rest.1)

  -- A pass over the map, in some order. `modified` gives the times of the files, and `active` what the
  -- metastore says of a node.
  unfoldable pub purge_each :
      (ℕ → FileName → Option ℕ)
      → (ℕ → Result Bool)
      → ℕ
      → ℕ
      → List (ℕ × NodeProcessor Point)
      → (ℕ → Directory)
      → Option (List (ℕ × NodeProcessor Point) × (ℕ → Directory))
  purge_each modified active now max_age [] disks = some ([], disks)
  purge_each modified active now max_age (e ∷ es) disks =
      purge_next e.0 (purge_one (modified e.0) active now max_age e.1)
        (purge_each modified active now max_age es disks)

  abbrev pub purged :
      Option (List (ℕ × NodeProcessor Point) × (ℕ → Directory))
      → Service Point
      → Option (Service Point)
  purged none s = none
  purged (some swept) s = some (record s { processors = swept.0; disks = swept.1 })

  unfoldable pub purge_inactive_processors :
      (ℕ → FileName → Option ℕ) → (ℕ → Result Bool) → ℕ → Service Point → Option (Service Point)
  purge_inactive_processors modified active now s =
      purged (purge_each modified active now s.max_age s.processors s.disks) s

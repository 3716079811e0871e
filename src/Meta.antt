-- ===== src/Meta.antt =====
-- The package meta: the metadata of the cluster.
pub mod Data
pub mod Sorted
pub mod Users
pub mod Nodes
pub mod Delete
pub mod Groups
pub mod RoundRobin
pub mod ShardIds
pub mod Release
pub mod Owners
pub mod Command
pub mod Snapshot
pub mod Restore
pub mod Handlers
pub mod Fsm
pub mod Store
pub mod Client
pub mod Tests

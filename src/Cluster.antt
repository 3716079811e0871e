-- ===== src/Cluster.antt =====
-- The package cluster.
pub mod Pool
pub mod Store
pub mod PointsWriter
pub mod Service

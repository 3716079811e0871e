-- ===== src/Hh.antt =====
-- The package hh: hinted handoff queues.
pub mod Exec
pub mod Os
pub mod Segment
pub mod Directory
pub mod Queue
pub mod Fifo
pub mod Lost
pub mod Processor
pub mod Service
mod Tests

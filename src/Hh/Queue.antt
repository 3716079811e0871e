-- ===== src/Hh/Queue.antt =====
-- The type queue of hh/queue.go.
mod State
mod Methods
unfoldable pub use State.*
unfoldable pub use Methods.*

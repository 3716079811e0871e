-- ===== src/Hh/Processor.antt =====
-- The type NodeProcessor of hh/node_processor.go: the hinted data for one node, and how it is sent.
pub mod Write
pub mod Life
pub mod Send
pub mod Fifo
pub mod Loop
pub mod Hint
pub mod Tests

-- ===== src/Hh/Fifo/Stall.antt =====
-- A queue whose only segment is read to its end, and the block that goes to a new segment.
use influxdb_cluster.Hh.Queue.{Queue}

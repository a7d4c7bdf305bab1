-- ===== src/Lock.antt =====
-- src/micbench-lock.c, the lock benchmark.
pub mod Args
pub mod Threads
pub mod Report

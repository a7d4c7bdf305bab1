-- ===== src/Proto.antt =====
-- src/micbench-proto.c, the frame of a benchmark: threads that take and release a spin lock.
pub mod Args
pub mod Threads

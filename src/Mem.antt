-- ===== src/Mem.antt =====
-- src/micbench-mem.c, the memory benchmark.
pub mod Tests
pub mod Main
pub mod Report
pub mod Areas
pub mod Stress
pub mod Chase
pub mod Lines
pub mod Args

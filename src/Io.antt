-- ===== src/Io.antt =====
-- src/micbench-io.c, the I/O benchmark.
pub mod Options
pub mod Args
pub mod Log
pub mod Aiom
pub mod Wait
pub mod Count
pub mod Owned
pub mod Offsets
pub mod Sync
pub mod Async
pub mod Main
pub mod Report
mod Tests

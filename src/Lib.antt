-- ===== src/Lib.antt =====
-- micbench measures block devices, memory and locks. This library models its I/O benchmark
-- (src/micbench-io.c), the functions that all its programs share (src/micbench-utils.c and .h), the
-- replay of block traces (src/micbench-btreplay.c), the memory benchmark (src/micbench-mem.c), the
-- lock benchmark (src/micbench-lock.c) and the frame of a benchmark (src/micbench-proto.c), and proves
-- what makes them correct.
--
-- The parts and how they interact:
-- - ResPool: `mb_res_pool_*`, a ring of cells linked by pointers. `ResPool.Ring` states its shape,
--   `ResPool.Fifo` the bounded queue that it implements, `ResPool.Make` and `ResPool.Destroy` its
--   beginning and its end.
-- - Affinity: `mb_parse_affinity`, `mb_affinity_to_string` and `__mb_bits_to_string`.
--   `Affinity.Arguments` is the option `-a` of the programs, and the affinity that each `main` gives to
--   a thread.
-- - Clock: `mb_elapsed_usec_from`, and the timeouts that the loops compare with the clock.
-- - Transfer: `mb_readall`, `mb_writeall`, `mb_preadall` and `mb_pwriteall`, over the results of the
--   system calls that they make.
-- - Rand: `mb_rand_range_long`, `mb_rand_range_ulong`, `mb_rand_buf` and `mb_read_or_write`.
-- - FileSize: `mb_getsize`.
-- - Io.Options, Io.Args: `micbench_io_option_t` and `parse_args`, which uses Affinity and FileSize.
-- - Io.Log: `mb_log_io_activity`.
-- - Io.Aiom, Io.Wait: the AIO manager (`mb_aiom_*`) over libaio and io_uring: making it, queueing,
--   submitting, waiting. Its free callbacks are in a ResPool. `Io.Owned` is its invariant over libaio:
--   each callback is free, pending or in flight, and in one place only.
-- - Io.Offsets: the offset handling and the access patterns that the next two share.
-- - Io.Sync: `do_sync_io`, over Transfer, Rand, Io.Offsets and Io.Log. `Io.Sync.Requests` is one request
--   of each pattern, `Io.Sync.Count` the loops, `Io.Sync.Whole` the whole function.
-- - Io.Async: `do_async_io` and `mb_aiom_destroy`, over Io.Offsets, Io.Aiom and Io.Wait.
-- - Io.Main: `thread_handler`, and what `micbench_io_main` does between `parse_args` and its report,
--   over Io.Sync and Io.Async (`run_benchmark`).
-- - Io.Report: `print_option`, `print_result` and `print_result_json`. `Io.Report.Files` is the loop that
--   joins the names of the files in a buffer that grows, `Io.Report.Meaning` the report as JSON.
-- - Io.Main.Program: `micbench_io_main` as a whole, the program of src/micbench-io-main.c, over Io.Args,
--   Io.Main and Io.Report.
-- - Btreplay: the options, `mb_fetch_blk_io_trace`, the queue that `mb_btreplay_main` fills, and
--   `do_thread_job`. `Btreplay.Threads` interleaves the thread that fills the queue with the workers.
-- - Mem: src/micbench-mem.c. `Mem.Args` is its `parse_args`; `Mem.Areas` the files that its `main` opens,
--   the areas that it maps, and what it releases at the end; `Mem.Lines` the ring of cache lines that
--   `do_memory_stress_rand` builds, shuffles and checks, over Rand; `Mem.Chase` its measured loop;
--   `Mem.Stress` the sizes of the areas and `do_memory_stress_seq`; `Mem.Main` the threads and sums;
--   `Mem.Report` what is printed; `Mem.Main.Program` the whole of `main`.
-- - Lock: src/micbench-lock.c: `parse_args`, the threads, interleaved in any order, and `Lock.Report`,
--   what is printed and the whole of `main`.
-- - Proto: src/micbench-proto.c: `parse_args`, and the threads, which `Proto.Threads.Refines` compares
--   with those of Lock.
-- - Base: the names that the others share: Boolean tests, lists, signed integers, the outcome of a
--   call (it returns, it exits, it goes through a bad pointer, it waits for ever), and the functions of
--   the C library on text (`strtol`, `strcmp`). `Base.Json` is a reader and a printer of JSON, and
--   `Base.Table` one of tables of names and values; the reports are compared with them.
--
-- State is passed explicitly, and an error path is a value of the outcome. An allocation, a system
-- call, the clock, getopt(3), the file system, floating-point numbers and drand48(3) are arguments of
-- the definitions, and what is relied on of them is a hypothesis of the theorem. Numbers keep their
-- wrap-around where the source's can wrap in use (`strtol`, an int option, the width of an unsigned
-- range, an offset of a trace, the sizes of the buffer of names, the counters of the memory benchmark,
-- the operations and clocks of the lock benchmark, the ends of the range that `parse_args` compares with
-- a file); the counters and offsets of the I/O benchmark behind `parse_args` are integers without bound.
--
-- Fuel stands for a loop that ends by what it finds: the ring that `mb_res_pool_destroy` walks (a unit
-- for each cell is enough), the callbacks that `mb_aiom_destroy` and the inner loop of `do_async_io`
-- take from the pool (one more than there are events), the records of a dump (one more than there
-- are), the shuffle and the laps round the ring of cache lines (one more than there are lines), a pass
-- over the area (one more than its size), the names of the files, some of which are tried again in a
-- larger buffer (the files, and twice the bytes of their list), and the loops that run until the timeout
-- (a unit for each look at the clock, and one more).
--
-- Threads that share state are step relations (`Lock.Threads`, `Proto.Threads`, `Btreplay.Threads`), and
-- a run is any sequence of their steps. Of the barrier, the locks and the queue of GLib the steps have
-- what they promise. The other threads share nothing that a theorem is about, and run one after the
-- other.
--
-- Not modelled: the trace file of `-T`, the messages of `-v`, the bogus computation and the sleeps,
-- which change no state that is modelled; the threads' affinity calls; random threads of
-- src/micbench-mem.c that share one area; the mode mfence of src/micbench-lock.c, whose body is
-- generated; the one line that src/micbench-proto.c prints; the thread of src/micbench-btreplay.c that
-- prints the length of the queue; the Ruby front end.
pub mod Base
pub mod ResPool
pub mod Affinity
pub mod Transfer
pub mod Rand
pub mod FileSize
pub mod Io
pub mod Btreplay
pub mod Clock
pub mod Mem
pub mod Lock
pub mod Proto

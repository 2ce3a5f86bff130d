-- ===== src/Lib.antt =====
-- The monitoring daemon in final/src: what it samples of processes and how its samples reach the
-- classifier. A sample of a process (or of a process on one core) passes from performance counters
-- (perf_counter.c) through sliding windows (sliding_window.c) into a cache of metrics, which the
-- daemon (monitor_final.c) keeps in parallel arrays by slot, and from there into a ring in shared
-- memory (ring_buffer.c), from which another process takes it.
--
-- Which file models what:
--   Base, Base/*           helpers: Boolean tests on the native numbers, arrays as functions, lists,
--                          the loop `for (c = 0; c < n; c++)` (`for_below`)
--   Double                 the C type `double`: a parameter, with the exactness of IEEE 754 on whole
--                          numbers as laws
--   Os                     perf_event_open, ioctl, read and close: a parameter, with what the manual
--                          pages say of the table of descriptors and of a read as laws
--   BpfMap                 a BPF hash map: a parameter, with what bpf(2) says of it as laws
--   Bpf                    final/bpf/ctx_switch.bpf.c: Keys, Counts and Blocks (what the counters
--                          count)
--   EbpfTracer             final/src/ebpf_tracer.c: Reads (the counts as the daemon reads them), Names
--                          (the name taken at exec, the end of a process),
--                          Lifecycle (load, attach and destroy: Held, Loading, Attaching, Resources)
--   LibBpf                 objects and links of libbpf: a parameter, with what is open and attached as
--                          laws
--   Metrics                final/src/smoothed_metrics.h
--   ProcScanner            final/src/proc_scanner.c: Entries and Bounds (the entries behind a scan),
--                          Ranking (which processes are chosen), StatLine and Status (what is read
--                          of the files of a process)
--   RingBuffer             final/src/ring_buffer.c as sequential calls. Queue is the bounded queue
--                          that they implement, Contents the refinement, Burst a run of pushes with
--                          the count of drops
--   RingBuffer/Concurrent  the same calls cut at their atomic accesses, for one producer and one
--                          consumer in any interleaving: Invariant, Preserved, Safety
--   RingBuffer/Shared      the shared memory of the rings: Created, Attached (creating, attaching and
--                          destroying) and Delivered (entries pass between two processes)
--   Shm                    shm_open, mmap and the like: a parameter, with what the manual pages say of
--                          names, descriptors, mappings and objects as laws
--   SlidingWindow          final/src/sliding_window.c: History (which sample stands where), CellSums
--                          and RunningSum (the mean)
--   PerfCounter            final/src/perf_counter.c: Descriptors and Opening (what is open), Reading
--                          (the group, the fallback), Rates (the deltas)
--   Monitor                the state of final/src/monitor_final.c. Slots: find_slot and remove_slot;
--                          AddPid: add_pid; Added and Lookup: the slot that it fills, with
--                          Stored (all that it stores) and Cleared (counters of cores that it only
--                          clears), and how find_slot finds it; Timestamps, Moved, MoveLast and Removal: what
--                          remove_slot moves; Eviction: the loops at the ends of sync_pids, with
--                          Sifted (what they leave);
--                          FastPath: the fast path of run_sampling_loop, with Entries (what it is to
--                          push), Pushes (that it does) and Headroom (that it fits);
--                          SlowPath: the slow path, with Sampling (what a sample stores), Kept and
--                          SlotCounts (which pids the slots are for), Visits (its rounds), Examined and
--                          Once (that they skip no slot); Deadline: when the next tick is due
--   Monitor/SyncPids       sync_pids: PidList (the pids of the targeted scan), Valid (the invariant of
--                          the slots), Marking and Selected (the top-N mode), Explicit (the given
--                          pids), Total (the whole function)
--   Monitor/Ticks          a tick of run_sampling_loop and the loop, with Invariant (what each tick
--                          keeps)
--   Monitor/Lifetime       the start and the end of the daemon: Start, Stop, Counters (what cleanup
--                          closes)
--   Monitor/Ownership      which descriptors the slots own without --per-core: Removed and Changes
--                          (remove_slot and add_pid), Sync, Loop and Returned (the loops that call them), Closed
--                          (what is open behind the loop and cleanup)
--   Monitor/Sources        the tracer and /proc as the slots see them: Names (/proc/PID/comm), Counted
--                          (what the deltas count)
--   Monitor/Notify         sd_notify_ready, with Sent (which socket it addresses)
--   Monitor/Program        main, with Ended (that it ends, and how)
--   Monitor/Args           parse_args: Bounds (the ranges of the configuration), Cores (the mask), Pids
--                          and Printed (a list of pids is read back)
--   Tests                  runs of the code, and the theorems at concrete inputs
--
-- How the code is rendered. A C function is a function by clauses under its own name; what it
-- changes is returned. The state of the kernel is one `World`, passed through in the order of the
-- calls. An array is a function of the index, so the bounds of the arrays are those that theorems
-- state as hypotheses (MAX_PIDS = 256 slots, MAX_CORES = 64 cores). An unsigned integer keeps its
-- wrap-around (`% 2 ^ 64`); a ring index, a count of slots and a descriptor are plain numbers. A
-- descriptor or a `cpu_id` of -1 is `none`. Every loop runs over a
-- known range or a list, but for the loops in which a slot is removed: those of sync_pids and of the
-- slow path have fuel, the number of slots in use. That is enough, since each round passes a slot
-- or removes one. An `int` of the command line is its 32-bit pattern.
--
-- Memory order: each index of a ring has one writer, which publishes it by a release store that the
-- other side reads by an acquire load. What such a pair promises is rendered by taking executions
-- as interleavings of the steps; reorderings that it permits inside one side are not modelled.
--
-- shm_unlink is taken to remove the name that it is called for; that it can fail with EACCES is left
-- out. Not modelled: races of the handlers between CPUs, the dispositions of signals, output to the
-- terminal, the journal and CSV files, and the scripts in Python and shell. The slots take the tracer
-- as an interface, `Tracer`, and sync_pids takes /proc, kill(2) and qsort as one, `Processes`;
-- Monitor/Sources fills both.
pub mod Base
pub mod Bpf
pub mod BpfMap
pub mod Double
pub mod EbpfTracer
pub mod LibBpf
pub mod Metrics
pub mod Monitor
pub mod Os
pub mod PerfCounter
pub mod ProcScanner
pub mod RingBuffer
pub mod Shm
pub mod SlidingWindow
mod Tests

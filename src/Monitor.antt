-- ===== src/Monitor.antt =====
-- The state of final/src/monitor_final.c: the parallel arrays of the monitored slots, the two rings
-- and the counters. The kernel and the tracer are parameters; their state is one `World`. A pid is
-- the 32-bit pattern of an `int`, so that its cast to `uint32_t` is the identity. Output to the
-- terminal, the journal and the CSV file is left out.
pub mod Slots
pub mod Sources
pub mod AddPid
pub mod Added
pub mod Lifetime
pub mod Lookup
pub mod Timestamps
pub mod Moved
pub mod MoveLast
pub mod Notify
pub mod Ownership
pub mod Program
pub mod Removal
pub mod Eviction
pub mod FastPath
pub mod Deadline
pub mod SlowPath
pub mod SyncPids
pub mod Args
pub mod Ticks
use capstone_monitor.Base.{ℕ, ◌+◌, ◌*◌, Bool, Option, List, Array}
use capstone_monitor.Metrics.{SmoothedMetrics}
use capstone_monitor.PerfCounter.{PerfCounter}
use capstone_monitor.RingBuffer.{RingBuffer}
use capstone_monitor.SlidingWindow.{SlidingWindow}

-- `MAX_PIDS` and `MAX_CORES`
abbrev pub max_pids : ℕ
max_pids = 256

abbrev pub max_cores : ℕ
max_cores = 64

-- `PidState`
pub record PidState : Type 0 where
  pub pid : ℕ
  pub active : Bool
  pub prev_cycles : ℕ
  pub prev_instructions : ℕ
  pub prev_llc : ℕ
  pub prev_ctx : ℕ
  pub prev_io : ℕ

-- `CorePrev`
pub record CorePrev : Type 0 where
  pub prev_cycles : ℕ
  pub prev_instr : ℕ
  pub prev_llc : ℕ

-- `PC_IDX(i, c)`
abbrev pub pc_idx : ℕ → ℕ → ℕ
pc_idx i c = i * max_cores + c

-- the arrays that a slot index selects from, and how many slots are in use
pub record Tables (D : Type 0) : Type 0 where
  pub n_active : ℕ
  pub states : Array PidState
  pub win_ipc : Array (SlidingWindow D)
  pub win_llc : Array (SlidingWindow D)
  pub win_ctx : Array (SlidingWindow D)
  pub win_io : Array (SlidingWindow D)
  pub perf : Array PerfCounter
  pub perf_pc : Array (Array PerfCounter)
  pub win_ipc_pc : Array (Array (SlidingWindow D))
  pub win_llc_pc : Array (Array (SlidingWindow D))
  pub core_prev : Array (Array CorePrev)
  pub last_sm : Array (SmoothedMetrics D)
  pub last_sm_pc : Array (Array (SmoothedMetrics D))
  pub comm : Array (List ℕ)
  pub last_sm_valid : Array Bool
  pub last_sm_timestamp : Array ℕ
  pub last_sm_pc_timestamp : Array ℕ

-- the configuration that the slots depend on
pub record CoreConfig : Type 0 where
  pub per_core : Bool
  pub per_core_mask : ℕ
  pub ncores : ℕ

-- What the daemon asks of ebpf_tracer.c and of /proc/PID/comm, on the state of the kernel.
pub record Tracer (World : Type 0) : Type 0 where
  pub read_switches : ℕ → World → ℕ
  pub read_io : ℕ → World → ℕ
  pub pop_exec_comm : ℕ → World → Option (List ℕ) × World
  pub read_proc_comm : ℕ → World → List ℕ

-- the slots, the two rings and the counters beside them
pub record Daemon (D : Type 0) : Type 0 where
  pub tables : Tables D
  pub rb : RingBuffer (SmoothedMetrics D)
  pub rb_dash : RingBuffer (SmoothedMetrics D)
  pub rb_drops : ℕ
  pub rb_dash_drops : ℕ
  pub proc_exits : ℕ

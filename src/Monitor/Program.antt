-- ===== src/Monitor/Program.antt =====
-- `main` of final/src/monitor_final.c: the arguments, the start, the loop and the cleanup. Whether a
-- CSV file opens, the number of cores that sysconf returns, the ticks of the loop and the time before
-- it are arguments, and so is what happens in libbpf and in shared memory during the loop. The
-- messages, the notification of systemd and the dispositions of the signals are left out.
pub mod Ended
use capstone_monitor.Base.{ℕ, Bool, true, false, Option, none, some, List, [], ◌∷◌, if◌then◌else◌}
use capstone_monitor.Double.{Double}
use capstone_monitor.LibBpf.{LibBpf}
use capstone_monitor.Metrics.{SmoothedMetrics, zero_metrics}
use capstone_monitor.Os.{Os}
use capstone_monitor.PerfCounter.{zeroed}
use capstone_monitor.ProcScanner.{proc_scanner_init}
use capstone_monitor.RingBuffer.{rb_init}
use capstone_monitor.Shm.{Shm}
use capstone_monitor.SlidingWindow.{sw_init}
use capstone_monitor.EbpfTracer.Lifecycle.{Handle}
use capstone_monitor.Monitor.{Tables, CoreConfig, Tracer, PidState}
use capstone_monitor.Monitor.AddPid.{zero_prev}
use capstone_monitor.Monitor.Args.{DaemonConfig, parse_args}
use capstone_monitor.Monitor.Deadline.{Timespec}
use capstone_monitor.Monitor.Lifetime.{Started, exited, running, count_cores, start_daemon, cleanup}
use capstone_monitor.Monitor.SyncPids.{Selection, Processes}
use capstone_monitor.Monitor.Ticks.{Loop, Tick, run_sampling_loop}

-- how the process ends: exit(1), exit(0) behind --version, and the return from `main`
pub data Exit : Type 0 where
  failed printed stopped : Exit

unfoldable pub core_config : DaemonConfig → ℕ → CoreConfig
core_config cfg online = record {
  per_core = cfg.per_core;
  per_core_mask = cfg.per_core_mask;
  ncores = count_cores online;
}

unfoldable pub selection : DaemonConfig → Selection
selection cfg = record { pids = cfg.pids; top_n = cfg.top_n; min_uid = cfg.min_uid }

-- a `PidState` of the static array
abbrev pub zero_state : PidState
zero_state = record {
  pid = 0;
  active = false;
  prev_cycles = 0;
  prev_instructions = 0;
  prev_llc = 0;
  prev_ctx = 0;
  prev_io = 0;
}

abbrev pub epoch : Timespec
epoch = record { tv_sec = 0; tv_nsec = 0 }

module _ (d : Double) where
  -- the static arrays
  unfoldable pub zero_tables : Tables d.Carrier
  zero_tables = record {
    n_active = 0;
    states = λ i. zero_state;
    win_ipc = λ i. sw_init d;
    win_llc = λ i. sw_init d;
    win_ctx = λ i. sw_init d;
    win_io = λ i. sw_init d;
    perf = λ i. zeroed;
    perf_pc = λ i c. zeroed;
    win_ipc_pc = λ i c. sw_init d;
    win_llc_pc = λ i c. sw_init d;
    core_prev = λ i c. zero_prev;
    last_sm = λ i. zero_metrics (d.of_ℕ 0);
    last_sm_pc = λ i c. zero_metrics (d.of_ℕ 0);
    comm = λ i. [];
    last_sm_valid = λ i. false;
    last_sm_timestamp = λ i. 0;
    last_sm_pc_timestamp = λ i. 0;
  }

  -- the state at the start of the loop
  unfoldable pub loop_start : Timespec → Loop d.Carrier
  unfolding zero_tables
  loop_start last_slow = record {
    daemon = record {
      tables = zero_tables;
      rb = rb_init (zero_metrics (d.of_ℕ 0));
      rb_dash = rb_init (zero_metrics (d.of_ℕ 0));
      rb_drops = 0;
      rb_dash_drops = 0;
      proc_exits = 0;
    };
    scanner = proc_scanner_init;
    last_sync = epoch;
    last_full_scan = epoch;
    first_run = true;
    last_slow = last_slow;
    health_counter = 0;
    sample_num = 0;
  }

-- what the program finds: the answers of fopen and sysconf, the clock, and what happens during the
-- loop
pub record Run (os : Os) (lib : LibBpf) {A : Type 0} (shm : Shm A) : Type 0 where
  pub csv_opens : List ℕ → Bool
  pub online : ℕ
  pub last_slow : Timespec
  pub ticks : List (Tick os.World)
  pub lib_meanwhile : lib.World → lib.World
  pub shm_meanwhile : shm.World → shm.World

module _ (d : Double) (os : Os) (tracer : Tracer os.World) (procs : Processes os.World)
    (lib : LibBpf) (shm : Shm (SmoothedMetrics d.Carrier)) (run : Run os lib shm) where
  -- how the process ended, and the state of the kernel
  abbrev pub Ending : Type 0
  Ending = Exit × os.World × lib.World × shm.World

  -- the loop and the cleanup; `none` means that the fuel of an eviction or of a slow path ran out
  unfoldable pub run_daemon :
      DaemonConfig → Handle → ℕ → ℕ → os.World → lib.World → shm.World → Option Ending
  unfolding core_config selection loop_start
  run_daemon cfg et rb rb_dash ow lw sw =
      let cores = core_config cfg run.online in
      elim (run_sampling_loop d os cores tracer procs (selection cfg) cfg.interval_ms run.ticks
        (loop_start d run.last_slow, ow)) [
          | none ↦ none
          | some (l, ow') ↦
              let c =
                cleanup lib shm os cores et (some rb) (some rb_dash) (l.daemon.tables, ow')
                  (run.lib_meanwhile lw) (run.shm_meanwhile sw) in
              some (stopped, c.0.1, c.1, c.2)
        ]

  -- behind the start
  unfoldable pub run_started :
      DaemonConfig → os.World → Started × lib.World × shm.World → Option Ending
  unfolding run_daemon
  run_started cfg ow (exited, lw, sw) = some (failed, ow, lw, sw)
  run_started cfg ow (running et rb rb_dash, lw, sw) = run_daemon cfg et rb rb_dash ow lw sw

  abbrev pub csv_ready : DaemonConfig → Bool
  csv_ready cfg = elim cfg.csv_path [ none ↦ true | some path ↦ run.csv_opens path ]

  -- the arguments are those behind the program's name
  unfoldable pub main : List (List ℕ) → os.World → lib.World → shm.World → Option Ending
  unfolding run_started
  main [] ow lw sw = some (failed, ow, lw, sw)
  main (path ∷ args) ow lw sw = elim (parse_args args) [
    | none ↦ some (printed, ow, lw, sw)
    | some cfg ↦
        run_started cfg ow
          (start_daemon lib shm (zero_metrics (d.of_ℕ 0)) (csv_ready cfg) path lw sw)
  ]

-- ===== src/Tests/Loops.antt =====
-- The slow path and `sync_pids` on the slots of a small daemon.
use capstone_monitor.Base.{
  true, ℕ, ◌*◌, ◌≤◌, ◌≡◌, refl, false, none, some, List, [], ◌∷◌, elem, ◌||◌, length, if◌then◌else◌,
  ◌==◌, inl, arith,
}
use capstone_monitor.PerfCounter.{RawCounters}
use capstone_monitor.ProcScanner.{proc_scanner_init}
use capstone_monitor.Monitor.{max_pids, Tables, Daemon}
use capstone_monitor.Monitor.Deadline.{Timespec}
use capstone_monitor.Monitor.SlowPath.{slow_dt, slow_slot, slow_path}
use capstone_monitor.Monitor.SlowPath.SlotCounts.{slots_of}
use capstone_monitor.Monitor.SlowPath.Visits.{count}
use capstone_monitor.Monitor.SlowPath.Once.{Rounds, slow_path-Rounds}
use capstone_monitor.Monitor.SlowPath.Sampling.{IsSampled, view, slow_slot-IsSampled}
use capstone_monitor.Monitor.SyncPids.{
  Selection, Processes, Sync, pid_list, is_tracked, is_throttled, top_mode, sync_pids,
}
use capstone_monitor.Monitor.SyncPids.PidList.{pid_list_lem}
use capstone_monitor.Monitor.SyncPids.Valid.{IsValid}
use capstone_monitor.Monitor.SyncPids.Selected.{IsSelected, top_mode-IsSelected}
use capstone_monitor.Monitor.SyncPids.Total.{sync_pids-IsValid}
use capstone_monitor.Monitor.Ticks.{Loop, Tick, run_sampling_loop}
use capstone_monitor.Monitor.Ticks.Invariant.{run_sampling_loop-IsValid}
use capstone_monitor.Tests.Windows.{whole}
use capstone_monitor.Tests.Counters.{Kernel, fake, machine}
use capstone_monitor.Tests.Slots.{three, cores, daemon, now, steady}

-- 4.0 s and 4.2 s
abbrev pub before : Timespec
before = record { tv_sec = 4; tv_nsec = 0 }

abbrev pub t_start : Timespec
t_start = record { tv_sec = 4; tv_nsec = 200000000 }

-- Each of the three processes is examined.
slow_path-Rounds_example :
    (s' : Daemon ℕ × Kernel) × (ps : List ℕ) × (slow_path whole fake cores steady now t_start before
        0
        (daemon, machine)
      ≡ some s')
    × Rounds whole fake cores steady now (slow_dt whole t_start before) (daemon, machine) s' ps
    × ((p : ℕ) → count p ps ≡ slots_of p three.states 0 3)
slow_path-Rounds_example =
    slow_path-Rounds whole fake cores steady now t_start before 0 (daemon, machine) (omega arith)
      (inl refl)

once : slots_of 101 three.states 0 3 ≡ 1
once = refl

-- the second slot's process has run for 10 cycles
abbrev read : RawCounters
read = record { cycles = 10; instructions = 20; llc_misses = 1 }

slow_slot-IsSampled_example :
    IsSampled whole false 1 now 1 read 5 6 three
      (view (slow_slot whole fake cores steady now 1 1 read (daemon, machine)).0.tables)
slow_slot-IsSampled_example =
    slow_slot-IsSampled whole fake cores steady now 1 1 read daemon machine

abbrev pub procs : Processes Kernel
procs = record {
  proc_dir = λ w. none;
  procfs = λ w. record { stat = λ pid. none; uid = λ pid. none };
  active_pids = λ n w. [];
  is_gone = λ pid w. pid == 102;
  qsort = λ cmp es. es;
}

three-IsValid : IsValid three
three-IsValid = record { few = omega arith; distinct = λ j k hj hk e. omega (arith, e) }

pid_list_lem_example :
    (length (pid_list three (102 ∷ 200 ∷ [])) ≤ max_pids * 2)
    × ((p : ℕ)
        → elem p (pid_list three (102 ∷ 200 ∷ []))
          ≡ (is_tracked three.states p 0 3 || elem p (102 ∷ 200 ∷ [])))
pid_list_lem_example = pid_list_lem three (102 ∷ 200 ∷ []) (omega arith) (omega arith)

-- Processes 102 and 200 are the best.
top_mode-IsSelected_example :
    (s' : Tables ℕ × Kernel) × (top_mode whole fake cores steady procs
        (102 ∷ 200 ∷ [])
        (three, machine)
      ≡ some s')
    × IsSelected (102 ∷ 200 ∷ []) three s'.0
top_mode-IsSelected_example =
    top_mode-IsSelected whole fake cores steady procs (102 ∷ 200 ∷ []) (three, machine)
      (omega arith) three-IsValid

abbrev sync : Sync ℕ
sync = record {
  tables = three;
  scanner = proc_scanner_init;
  last_sync = before;
  last_full_scan = before;
  first_run = false;
}

-- 1.2 s later, with two pids given
abbrev later : Timespec
later = record { tv_sec = 5; tv_nsec = 200000000 }

abbrev given : Selection
given = record { pids = 101 ∷ 200 ∷ []; top_n = 0; min_uid = 1000 }

sync_pids-IsValid_example :
    (r : Sync ℕ × Kernel) × (sync_pids whole fake cores steady procs given later (sync, machine)
      ≡ some r)
    × IsValid r.0.tables
    × (if is_throttled later sync
        then r ≡ (sync, machine)
        else (r.0.last_sync ≡ later) × (r.0.first_run ≡ false))
sync_pids-IsValid_example =
    sync_pids-IsValid whole fake cores steady procs (omega arith) (λ st i s. refl) given later sync
      machine three-IsValid

abbrev loop : Loop ℕ
loop = record {
  daemon = daemon;
  scanner = proc_scanner_init;
  last_sync = before;
  last_full_scan = before;
  first_run = true;
  last_slow = before;
  health_counter = 59;
  sample_num = 3;
}

-- nothing happens during the sleep
abbrev ticks : List (Tick Kernel)
ticks =
    record { t_start = t_start; sync_now = t_start; sleep = λ deadline w. w }
    ∷ record { t_start = later; sync_now = later; sleep = λ deadline w. w }
    ∷ []

run_sampling_loop-IsValid_example :
    (r : Loop ℕ × Kernel) × (run_sampling_loop whole fake cores steady procs given 50 ticks
        (loop, machine)
      ≡ some r)
    × IsValid r.0.daemon.tables
run_sampling_loop-IsValid_example =
    run_sampling_loop-IsValid whole fake cores steady procs (omega arith) (λ st i s. refl) given 50
      ticks (loop, machine) three-IsValid

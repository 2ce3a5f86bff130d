-- ===== src/Tests/Slots.antt =====
-- Slots of a small daemon whose doubles are numbers.
use capstone_monitor.Base.{
  ℕ, ◌+◌, ◌%◌, ◌^◌, ◌≤◌, ◌<◌, ◌≡◌, ◌⊎◌, refl, true, false, none, some, [], ◌∷◌, ◌++◌, arith, ◌==◌,
  if◌then◌else◌, for_below, set,
}
use capstone_monitor.Metrics.{SmoothedMetrics, zero_metrics}
use capstone_monitor.PerfCounter.{perf_counter_open}
use capstone_monitor.PerfCounter.Descriptors.{holds}
use capstone_monitor.RingBuffer.{rb_init}
use capstone_monitor.RingBuffer.Burst.{push_all}
use capstone_monitor.RingBuffer.Contents
use capstone_monitor.RingBuffer.Contents.{IsValid, contents}
use capstone_monitor.SlidingWindow.{sw_init}
use capstone_monitor.Monitor.{max_pids, Tracer, Tables, CoreConfig, Daemon}
use capstone_monitor.Monitor.AddPid.{fresh_state, zero_prev, add_pid}
use capstone_monitor.Monitor.Added.{IsAdded, IsKept}
use capstone_monitor.Monitor.Added.Stored.{Untouched, add_pid-IsStored}
use capstone_monitor.Monitor.Added.Cleared.{remove_slot-add_pid}
use capstone_monitor.Monitor.Slots.{remove_slot, find_slot}
use capstone_monitor.Monitor.Moved.{IsMoved}
use capstone_monitor.Monitor.Removal.{remove_slot-IsMoved}
use capstone_monitor.Monitor.FastPath.{fast_path}
use capstone_monitor.Monitor.FastPath.Entries.{
  entries, concat_below, slot_entry, core_entry, is_wanted,
}
use capstone_monitor.Monitor.FastPath.Pushes.{fast_path-push_all}
use capstone_monitor.Monitor.FastPath.Headroom.{fast_path-no_drops}
use capstone_monitor.Monitor.Deadline.{Timespec, nanoseconds, deadline, deadline_lem}
use capstone_monitor.Tests.Windows.{whole}
use capstone_monitor.Tests.Counters.{Kernel, fake, fake-IsKernel, opened, machine, no_pmu}

-- the last metrics of slot `i`, for the process 100 + i
abbrev metrics : ℕ → SmoothedMetrics ℕ
metrics i = record (zero_metrics 0) { pid = 100 + i; cpu_id = none; smoothed_ipc = i }

-- Three slots are in use; the third has not been sampled, and only the first has been sampled lately.
abbrev pub three : Tables ℕ
three = record {
  n_active = 3;
  states = λ i. fresh_state (100 + i);
  win_ipc = λ _. sw_init whole;
  win_llc = λ _. sw_init whole;
  win_ctx = λ _. sw_init whole;
  win_io = λ _. sw_init whole;
  perf = λ _. opened;
  perf_pc = λ _ _. opened;
  win_ipc_pc = λ _ _. sw_init whole;
  win_llc_pc = λ _ _. sw_init whole;
  core_prev = λ _ _. zero_prev;
  last_sm = metrics;
  last_sm_pc = λ i c. record (metrics i) { cpu_id = some c };
  comm = λ _. [];
  last_sm_valid = λ i. if i == 2 then false else true;
  last_sm_timestamp = λ i. if i == 0 then 4000000000 else 3000000000;
  last_sm_pc_timestamp = λ _. 4000000000;
}

-- two cores, of which --cores selects the second
abbrev pub cores : CoreConfig
cores = record { per_core = true; per_core_mask = 2; ncores = 2 }

abbrev pub daemon : Daemon ℕ
daemon = record {
  tables = three;
  rb = rb_init (zero_metrics 0);
  rb_dash = rb_init (zero_metrics 0);
  rb_drops = 1;
  rb_dash_drops = 0;
  proc_exits = 0;
}

-- 4.2 s
abbrev pub now : ℕ
now = 4200000000

found : find_slot three 102 ≡ some 2
unfolding find_slot
found = refl

moved : (remove_slot fake cores 0 (three, machine)).0.states 0 ≡ fresh_state 102
unfolding remove_slot for_below set
moved = refl

remove_slot-IsMoved_example :
    let t' = (remove_slot fake cores 0 (three, machine)).0 in
    (t'.n_active ≡ 2) × IsMoved 2 three 2 t' 0
remove_slot-IsMoved_example =
    remove_slot-IsMoved fake cores 0 0 (three, machine) (omega arith) (omega arith)

-- The first slot's entry and that of its second core are pushed.
pushed :
    entries cores now three
    ≡ record (metrics 0) { timestamp_ns = now }
      ∷ record (metrics 0) { cpu_id = some 1; timestamp_ns = now }
      ∷ []
unfolding entries concat_below slot_entry core_entry is_wanted
pushed = refl

fast_path-push_all_example :
    ((fast_path cores now daemon).rb, (fast_path cores now daemon).rb_drops)
    ≡ push_all daemon.rb 1 (entries cores now three)
fast_path-push_all_example = fast_path-push_all cores now daemon

fast_path-no_drops_example :
    (contents (fast_path cores now daemon).rb ≡ contents daemon.rb ++ entries cores now three)
    × ((fast_path cores now daemon).rb_drops % 2 ^ 64 ≡ 1)
    × IsValid (fast_path cores now daemon).rb
unfolding rb_init Contents.entries
fast_path-no_drops_example =
    fast_path-no_drops cores now daemon (omega arith) (omega arith) (omega arith) (omega arith)
      (omega arith)

-- 950 ms past a second, and 100 ms
abbrev tick : Timespec
tick = record { tv_sec = 7; tv_nsec = 950000000 }

deadline_lem_example :
    (nanoseconds (deadline 100 tick) ≡ 8050000000)
    × ((deadline 100 tick).tv_nsec < 1000000000)
    × (100000000 < 2 ^ 63)
    × (1050000000 < 2 ^ 31)
deadline_lem_example = deadline_lem 100 tick (omega arith) (omega arith)

-- counts and names that never change
abbrev pub steady : Tracer Kernel
steady = record {
  read_switches = λ pid w. 5;
  read_io = λ pid w. 6;
  pop_exec_comm = λ pid w. (none, w);
  read_proc_comm = λ pid w. 120 ∷ [];
}

add_pid-IsStored_example :
    let o = perf_counter_open fake 200 none machine in
    let r = add_pid whole fake cores steady 200 (three, machine) in
    Untouched 2 3 three r.1
    × (((r.0 ≡ none) × ((max_pids ≤ 3) ⊎ (o.0 ≡ false)) × IsKept three r.1)
        ⊎ ((r.0 ≡ some 3) × (o.0 ≡ true) × (r.1.perf 3 ≡ o.1) × IsAdded 200 3 three r.1))
add_pid-IsStored_example = add_pid-IsStored whole fake cores steady (omega arith) 200 three machine

-- Without a PMU, a process is added and removed.
remove_slot-add_pid_example :
    let r = add_pid whole fake cores steady 200 (three, no_pmu) in
    (r.0 ≡ some 3)
    × (holds (r.1.perf 3) 0 ≡ false)
    × (fake.is_open (remove_slot fake cores 3 (r.1, r.2)).1 0 ≡ false)
unfolding perf_counter_open
remove_slot-add_pid_example =
    remove_slot-add_pid whole fake fake-IsKernel cores steady (omega arith) 200 three no_pmu
      (add_pid whole fake cores steady 200 (three, no_pmu)).2 refl (omega arith) (omega arith) refl
      refl refl

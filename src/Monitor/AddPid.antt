-- ===== src/Monitor/AddPid.antt =====
-- `add_pid` of final/src/monitor_final.c, in the order of its steps.
use capstone_monitor.Base.{
  ℕ, ◌+◌, ◌&&◌, true, false, Option, none, some, [], leb, if◌then◌else◌, set, set_cell, for_below,
}
use capstone_monitor.Double.{Double}
use capstone_monitor.Os.{Os}
use capstone_monitor.Metrics.{zero_metrics}
use capstone_monitor.PerfCounter.{
  RawCounters, zeroed, perf_counter_open, perf_counter_read, perf_counter_close,
}
use capstone_monitor.SlidingWindow.{sw_init}
use capstone_monitor.Monitor.{
  max_pids, max_cores, PidState, CorePrev, pc_idx, Tables, CoreConfig, Tracer,
}

-- a zeroed `PidState` with the pid set and marked active
abbrev pub fresh_state : ℕ → PidState
fresh_state pid = record {
  pid = pid;
  active = true;
  prev_cycles = 0;
  prev_instructions = 0;
  prev_llc = 0;
  prev_ctx = 0;
  prev_io = 0;
}

abbrev pub zero_prev : CorePrev
zero_prev = record { prev_cycles = 0; prev_instr = 0; prev_llc = 0 }

-- the hardware baselines, left at zero if the counter cannot be read
unfoldable pub seed_counters : Option RawCounters → PidState → PidState
seed_counters none s = s
seed_counters (some r) s = record s {
  prev_cycles = r.cycles;
  prev_instructions = r.instructions;
  prev_llc = r.llc_misses;
}

module _ (d : Double) (os : Os) (cfg : CoreConfig) (tracer : Tracer os.World) where
  open os use {World}
  open d use {Carrier, of_ℕ}

  -- the memsets before the first open
  unfoldable pub clear_counters : ℕ → Tables Carrier → Tables Carrier
  clear_counters i t =
      let t' : Tables Carrier = record t { perf = set t.perf i zeroed } in
      if cfg.per_core
      then for_below cfg.ncores (λ c s. record s { perf_pc = set_cell s.perf_pc i c zeroed }) t'
      else t'

  -- the counter of one core: its windows are initialised if it opens
  unfoldable pub open_core : ℕ → ℕ → ℕ → Tables Carrier × World → Tables Carrier × World
  open_core pid i c (t, w) =
      let r = perf_counter_open os pid (some c) w in
      let k = perf_counter_close os r.1 r.2 in
      if r.0
      then (
        record t {
          perf_pc = set_cell t.perf_pc i c r.1;
          win_ipc_pc = set_cell t.win_ipc_pc i c (sw_init d);
          win_llc_pc = set_cell t.win_llc_pc i c (sw_init d);
        },
        r.2,
      )
      else (record t { perf_pc = set_cell t.perf_pc i c k.0 }, k.1)

  -- Per-core counters are opened only if the aggregate counter is a hardware counter.
  unfoldable pub open_cores : ℕ → ℕ → Tables Carrier × World → Tables Carrier × World
  unfolding open_core
  open_cores pid i s =
      if cfg.per_core && (s.0.perf i).hw_available
      then for_below cfg.ncores (open_core pid i) s
      else s

  -- what is cleared and initialised behind the opens
  unfoldable pub reset_slot : ℕ → ℕ → Tables Carrier → Tables Carrier
  reset_slot pid i t = record t {
    states = set t.states i (fresh_state pid);
    core_prev = set t.core_prev i (λ _. zero_prev);
    last_sm = set t.last_sm i (zero_metrics (of_ℕ 0));
    last_sm_pc = set t.last_sm_pc i (λ _. zero_metrics (of_ℕ 0));
    last_sm_valid = set t.last_sm_valid i false;
    last_sm_timestamp = set t.last_sm_timestamp i 0;
    last_sm_pc_timestamp = for_below max_cores (λ c a. set a (pc_idx i c) 0) t.last_sm_pc_timestamp;
    comm = set t.comm i [];
    win_ipc = set t.win_ipc i (sw_init d);
    win_llc = set t.win_llc i (sw_init d);
    win_ctx = set t.win_ctx i (sw_init d);
    win_io = set t.win_io i (sw_init d);
  }

  -- the baselines, from the counter just opened and from the tracer
  unfoldable pub seed_slot : ℕ → ℕ → Tables Carrier → World → Tables Carrier
  unfolding seed_counters
  seed_slot pid i t w =
      let s = seed_counters (perf_counter_read os (t.perf i) w) (t.states i) in
      record t {
        states =
            set t.states i
              (record s { prev_ctx = tracer.read_switches pid w; prev_io = tracer.read_io pid w });
      }

  -- the name, from the tracer or else from /proc
  unfoldable pub seed_comm : ℕ → ℕ → Tables Carrier × World → Tables Carrier × World
  seed_comm pid i (t, w) =
      let r = tracer.pop_exec_comm pid w in
      (
        record t {
          comm =
              set t.comm i (elim r.0 [ some name ↦ name | none ↦ tracer.read_proc_comm pid r.1 ]);
        },
        r.1,
      )

  -- the steps behind the first open, which end with the slot in use
  unfoldable pub fill_slot : ℕ → ℕ → Tables Carrier × World → Tables Carrier × World
  unfolding open_cores reset_slot seed_slot seed_comm
  fill_slot pid i s =
      let s1 = open_cores pid i s in
      let s2 = seed_comm pid i (seed_slot pid i (reset_slot pid i s1.0) s1.1, s1.1) in
      (record s2.0 { n_active = s2.0.n_active + 1 }, s2.1)

  -- The slot, or `none` for -1, and the new state.
  unfoldable pub add_pid : ℕ → Tables Carrier × World → Option ℕ × Tables Carrier × World
  unfolding clear_counters fill_slot
  add_pid pid (t, w) =
      let i = t.n_active in
      let t1 = clear_counters i t in
      let r = perf_counter_open os pid none w in
      let t2 : Tables Carrier = record t1 { perf = set t1.perf i r.1 } in
      let s = fill_slot pid i (t2, r.2) in
      if leb max_pids i then (none, t, w) else if r.0 then (some i, s.0, s.1) else (none, t2, r.2)

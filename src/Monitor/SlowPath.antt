-- ===== src/Monitor/SlowPath.antt =====
-- The slow path of `run_sampling_loop` in final/src/monitor_final.c, behind `sync_pids`: every fourth
-- tick each slot in use is sampled, or removed if its counter cannot be read any more. The two rings
-- are there, since `init_shm` ends the daemon otherwise.
pub mod SlotCounts
pub mod Kept
pub mod Visits
pub mod Examined
pub mod Once
pub mod Sampling
use capstone_monitor.Base.{
  ℕ, zero, suc, ◌+◌, ◌-◌, ◌%◌, ◌^◌, Bool, true, false, ◌&&◌, not, Option, none, some, ltb, ◌==◌,
  if◌then◌else◌, set, set_cell, for_below,
}
use capstone_monitor.Double.{Double}
use capstone_monitor.Os.{Os}
use capstone_monitor.Metrics.{SmoothedMetrics}
use capstone_monitor.PerfCounter.{RawCounters, perf_counter_read, sub64}
use capstone_monitor.SlidingWindow.{sw_push, sw_mean}
use capstone_monitor.RingBuffer.Burst.{push_count}
use capstone_monitor.Monitor.{PidState, CorePrev, Tables, CoreConfig, Tracer, Daemon, pc_idx}
use capstone_monitor.Monitor.Slots.{remove_slot}
use capstone_monitor.Monitor.AddPid.{seed_comm, zero_prev}
use capstone_monitor.Monitor.FastPath.{is_selected, push_rb}
use capstone_monitor.Monitor.Deadline.{Timespec, nanoseconds}

-- `if (!rb_push(g_rb_dash, &m)) g_rb_dash_drops++;`
unfoldable pub push_dash : {D : Type 0} → SmoothedMetrics D → Daemon D → Daemon D
push_dash m s =
    let r = push_count s.rb_dash s.rb_dash_drops m in
    record s { rb_dash = r.0; rb_dash_drops = r.1 }

-- the events of one interval, in `uint64_t`
pub record Deltas : Type 0 where
  pub d_cycles : ℕ
  pub d_instr : ℕ
  pub d_llc : ℕ
  pub d_ctx : ℕ
  pub d_io : ℕ

unfoldable pub deltas : PidState → RawCounters → ℕ → ℕ → Deltas
deltas st cur cur_ctx cur_io = record {
  d_cycles = sub64 cur.cycles st.prev_cycles;
  d_instr = sub64 cur.instructions st.prev_instructions;
  d_llc = sub64 cur.llc_misses st.prev_llc;
  d_ctx = sub64 cur_ctx st.prev_ctx;
  d_io = sub64 cur_io st.prev_io;
}

-- the baselines that advance in every interval: `prev_io` is not one of them
unfoldable pub rebase : RawCounters → ℕ → PidState → PidState
rebase cur cur_ctx st = record st {
  prev_cycles = cur.cycles;
  prev_instructions = cur.instructions;
  prev_llc = cur.llc_misses;
  prev_ctx = cur_ctx;
}

module _ (d : Double) where
  open d use {Carrier, mul, div, of_ℕ, of_decimal}

  -- the seconds since the last slow path, with the guard of the first one
  unfoldable pub slow_dt : Timespec → Timespec → Carrier
  slow_dt t_start last_slow =
      let slow_dt_ns = nanoseconds t_start - nanoseconds last_slow in
      if ltb 0 slow_dt_ns then mul (of_ℕ slow_dt_ns) (of_decimal 1 9) else of_decimal 200 3

  -- `d_instr > 0 ? (double)d_llc / (double)d_instr : 0.0`
  unfoldable pub llc_rate : ℕ → ℕ → Carrier
  llc_rate d_llc d_instr = if ltb 0 d_instr then div (of_ℕ d_llc) (of_ℕ d_instr) else of_ℕ 0

  -- the samples of a slot go into its four windows
  unfoldable pub sample_windows : Carrier → Deltas → ℕ → Tables Carrier → Tables Carrier
  sample_windows dt e i t = record t {
    win_ipc = set t.win_ipc i (sw_push d (t.win_ipc i) (div (of_ℕ e.d_instr) (of_ℕ e.d_cycles)));
    win_llc = set t.win_llc i (sw_push d (t.win_llc i) (llc_rate e.d_llc e.d_instr));
    win_ctx = set t.win_ctx i (sw_push d (t.win_ctx i) (div (of_ℕ e.d_ctx) dt));
    win_io = set t.win_io i (sw_push d (t.win_io i) (div (of_ℕ e.d_io) dt));
  }

  -- the means of a slot's windows, as the entry of the process
  unfoldable pub smoothed : ℕ → ℕ → ℕ → Tables Carrier → SmoothedMetrics Carrier
  smoothed pid now i t = record {
    pid = pid;
    cpu_id = none;
    timestamp_ns = now;
    smoothed_ipc = sw_mean d (t.win_ipc i);
    smoothed_llc_miss = sw_mean d (t.win_llc i);
    smoothed_ctx_freq = sw_mean d (t.win_ctx i);
    smoothed_io_freq = sw_mean d (t.win_io i);
  }

  -- the entry goes into the cache of the fast path, fresh from now on, and to the dashboard
  unfoldable pub cache_sample : ℕ → ℕ → ℕ → Daemon Carrier → Daemon Carrier
  unfolding push_dash smoothed
  cache_sample pid now i s =
      let t = s.tables in
      let m = smoothed pid now i t in
      push_dash m (record s {
        tables = record t {
          last_sm = set t.last_sm i m;
          last_sm_valid = set t.last_sm_valid i true;
          last_sm_timestamp = set t.last_sm_timestamp i now;
        };
      })

  -- a core whose counter cannot be read: its baselines are zeroed
  unfoldable pub reset_core : ℕ → ℕ → Daemon Carrier → Daemon Carrier
  reset_core i c s =
      let t = s.tables in
      record s { tables = record t { core_prev = set_cell t.core_prev i c zero_prev } }

  abbrev pub core_base : RawCounters → CorePrev
  core_base cc = record {
    prev_cycles = cc.cycles;
    prev_instr = cc.instructions;
    prev_llc = cc.llc_misses;
  }

  -- the entry of a core: the frequencies are those of the process
  unfoldable pub smoothed_core : ℕ → ℕ → ℕ → ℕ → Tables Carrier → SmoothedMetrics Carrier
  smoothed_core pid now i c t = record {
    pid = pid;
    cpu_id = some c;
    timestamp_ns = now;
    smoothed_ipc = sw_mean d (t.win_ipc_pc i c);
    smoothed_llc_miss = sw_mean d (t.win_llc_pc i c);
    smoothed_ctx_freq = (t.last_sm i).smoothed_ctx_freq;
    smoothed_io_freq = (t.last_sm i).smoothed_io_freq;
  }

  -- a core that has run in the interval
  unfoldable pub sample_core : ℕ → ℕ → ℕ → ℕ → ℕ → ℕ → ℕ → Daemon Carrier → Daemon Carrier
  unfolding push_rb push_dash smoothed_core
  sample_core pid now i c dc_cyc dc_ins dc_llc s =
      let t = s.tables in
      let ipc = sw_push d (t.win_ipc_pc i c) (div (of_ℕ dc_ins) (of_ℕ dc_cyc)) in
      let llc = sw_push d (t.win_llc_pc i c) (llc_rate dc_llc dc_ins) in
      let t1 : Tables Carrier = record t {
        win_ipc_pc = set_cell t.win_ipc_pc i c ipc;
        win_llc_pc = set_cell t.win_llc_pc i c llc;
      } in
      let m = smoothed_core pid now i c t1 in
      push_dash m (
        push_rb m (record s {
          tables = record t1 {
            last_sm_pc = set_cell t1.last_sm_pc i c m;
            last_sm_pc_timestamp = set t1.last_sm_pc_timestamp (pc_idx i c) now;
          };
        }))

  -- a core whose counter was read
  unfoldable pub read_core : ℕ → ℕ → ℕ → ℕ → RawCounters → Daemon Carrier → Daemon Carrier
  unfolding sample_core
  read_core pid now i c cc s =
      let t = s.tables in
      let prev = t.core_prev i c in
      let dc_cyc = sub64 cc.cycles prev.prev_cycles in
      let dc_ins = sub64 cc.instructions prev.prev_instr in
      let dc_llc = sub64 cc.llc_misses prev.prev_llc in
      let s1 = record s {
        tables = record t { core_prev = set_cell t.core_prev i c (core_base cc) };
      } in
      if dc_cyc == 0 then s1 else sample_core pid now i c dc_cyc dc_ins dc_llc s1

  module _ (os : Os) (cfg : CoreConfig) (tracer : Tracer os.World) (now : ℕ) where
    open os use {World}

    -- by what the read of the core's counter returns
    unfoldable pub core_reading : ℕ → ℕ → ℕ → Option RawCounters → Daemon Carrier → Daemon Carrier
    unfolding reset_core read_core
    core_reading pid i c none s = reset_core i c s
    core_reading pid i c (some cc) s = read_core pid now i c cc s

    -- the body of the loop over the cores
    unfoldable pub slow_core : ℕ → ℕ → World → ℕ → Daemon Carrier → Daemon Carrier
    unfolding core_reading
    slow_core pid i w c s =
        if not (is_selected cfg.per_core_mask c)
        then s
        else core_reading pid i c (perf_counter_read os (s.tables.perf_pc i c) w) s

    -- a slot whose process has run in the interval
    unfoldable pub active_slot :
        Carrier → ℕ → ℕ → ℕ → Deltas → Daemon Carrier × World → Daemon Carrier × World
    unfolding sample_windows cache_sample slow_core seed_comm
    active_slot dt pid i cur_io e (s, w) =
        let t = s.tables in
        let t1 : Tables Carrier = record t {
          states = set t.states i (record (t.states i) { prev_io = cur_io });
        } in
        let s1 = cache_sample pid now i (record s { tables = sample_windows dt e i t1 }) in
        let s2 = if cfg.per_core then for_below cfg.ncores (slow_core pid i w) s1 else s1 in
        let r = seed_comm d os cfg tracer pid i (s2.tables, w) in (record s2 { tables = r.0 }, r.1)

    -- a slot whose counter was read
    unfoldable pub slow_slot :
        Carrier → ℕ → RawCounters → Daemon Carrier × World → Daemon Carrier × World
    unfolding deltas rebase active_slot
    slow_slot dt i cur (s, w) =
        let t = s.tables in
        let st = t.states i in
        let cur_ctx = tracer.read_switches st.pid w in
        let cur_io = tracer.read_io st.pid w in
        let e = deltas st cur cur_ctx cur_io in
        let s1 = record s {
          tables = record t { states = set t.states i (rebase cur cur_ctx st) };
        } in
        if e.d_cycles == 0 then (s1, w) else active_slot dt st.pid i cur_io e (s1, w)

    -- a slot whose counter cannot be read
    unfoldable pub exit_slot : ℕ → Daemon Carrier × World → Daemon Carrier × World
    exit_slot i (s, w) =
        let r = remove_slot os cfg i (s.tables, w) in
        (record s { tables = r.0; proc_exits = (s.proc_exits + 1) % 2 ^ 64 }, r.1)

    -- The loop over the slots with fuel; `none` means that the fuel ran out. Behind a removal the slot
    -- `i` is examined again (`i--`), and the slot does not count as displayed.
    unfoldable pub slow_loop :
        Carrier → ℕ → ℕ → ℕ → ℕ → Daemon Carrier × World → Option (Daemon Carrier × World)
    unfolding slow_slot exit_slot
    slow_loop dt limit zero i displayed s =
        if ltb i s.0.tables.n_active && ltb displayed limit then none else some s
    slow_loop dt limit (suc fuel) i displayed s =
        let next : Option (Daemon Carrier × World) =
          elim (perf_counter_read os (s.0.tables.perf i) s.1) [
            | none ↦ slow_loop dt limit fuel i displayed (exit_slot i s)
            | some cur ↦ slow_loop dt limit fuel (i + 1) (displayed + 1) (slow_slot dt i cur s)
          ] in
        if ltb i s.0.tables.n_active && ltb displayed limit then next else some s

    -- `display_limit` is `top_n`, if that is set
    unfoldable pub slow_path :
        Timespec → Timespec → ℕ → Daemon Carrier × World → Option (Daemon Carrier × World)
    unfolding slow_dt slow_loop
    slow_path t_start last_slow top_n s =
        let n = s.0.tables.n_active in
        slow_loop (slow_dt t_start last_slow) (if ltb 0 top_n then top_n else n) n 0 0 s

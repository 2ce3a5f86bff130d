-- ===== src/Monitor/SlowPath/Sampling.antt =====
-- What one sample of a slot in the slow path of final/src/monitor_final.c stores.
use capstone_monitor.Base.{
  ℕ, ◌≡◌, refl, sym, ap, ◌∙◌, Bool, true, false, not, Option, none, some, ◌==◌, if◌then◌else◌,
  if_both, if_each, Array, set, set_self, for_below-keeps,
}
use mathlib.Core.Path.{subst}
use capstone_monitor.Double.{Double}
use capstone_monitor.Os.{Os}
use capstone_monitor.Metrics.{SmoothedMetrics}
use capstone_monitor.SlidingWindow.{SlidingWindow, sw_push, sw_mean}
use capstone_monitor.PerfCounter.{RawCounters, perf_counter_read, sub64}
use capstone_monitor.Monitor.{PidState, Tables, CoreConfig, Tracer, Daemon}
use capstone_monitor.Monitor.FastPath.{is_selected}
use capstone_monitor.Monitor.SlowPath.{
  Deltas, deltas, rebase, llc_rate, sample_windows, smoothed, cache_sample, read_core, core_reading,
  slow_core, active_slot, slow_slot,
}

-- the arrays that hold one entry for each slot and that sampling writes
pub record View (D : Type 0) : Type 0 where
  pub states : Array PidState
  pub win_ipc : Array (SlidingWindow D)
  pub win_llc : Array (SlidingWindow D)
  pub win_ctx : Array (SlidingWindow D)
  pub win_io : Array (SlidingWindow D)
  pub last_sm : Array (SmoothedMetrics D)
  pub last_sm_valid : Array Bool
  pub last_sm_timestamp : Array ℕ

abbrev pub view : {D : Type 0} → Tables D → View D
view t = record {
  states = t.states;
  win_ipc = t.win_ipc;
  win_llc = t.win_llc;
  win_ctx = t.win_ctx;
  win_io = t.win_io;
  last_sm = t.last_sm;
  last_sm_valid = t.last_sm_valid;
  last_sm_timestamp = t.last_sm_timestamp;
}

module _ (d : Double) where
  open d use {Carrier, div, of_ℕ}

  -- What slot `i` holds behind a sample. An `idle` slot, whose process has not run, keeps its windows, its cached
  -- entry with its age, and the I/O baseline, so that its completions count in the next interval in
  -- which it runs.
  pub record IsSampled (idle : Bool) (dt : Carrier) (now i : ℕ) (cur : RawCounters)
      (cur_ctx cur_io : ℕ) (t : Tables Carrier) (v : View Carrier) : Type 0 where
    pub states : v.states i ≡ record {
      pid = (t.states i).pid;
      active = (t.states i).active;
      prev_cycles = cur.cycles;
      prev_instructions = cur.instructions;
      prev_llc = cur.llc_misses;
      prev_ctx = cur_ctx;
      prev_io = if idle then (t.states i).prev_io else cur_io;
    }
    pub win_ipc : v.win_ipc i ≡ (
        if idle
        then t.win_ipc i
        else sw_push d (t.win_ipc i) (
            div
              (of_ℕ (sub64 cur.instructions (t.states i).prev_instructions))
              (of_ℕ (sub64 cur.cycles (t.states i).prev_cycles))))
    pub win_llc : v.win_llc i ≡ (
        if idle
        then t.win_llc i
        else sw_push d (t.win_llc i) (
            llc_rate d
              (sub64 cur.llc_misses (t.states i).prev_llc)
              (sub64 cur.instructions (t.states i).prev_instructions)))
    pub win_ctx : v.win_ctx i ≡ (
        if idle
        then t.win_ctx i
        else sw_push d (t.win_ctx i) (div (of_ℕ (sub64 cur_ctx (t.states i).prev_ctx)) dt))
    pub win_io : v.win_io i ≡ (
        if idle
        then t.win_io i
        else sw_push d (t.win_io i) (div (of_ℕ (sub64 cur_io (t.states i).prev_io)) dt))
    pub valid : v.last_sm_valid i ≡ (if idle then t.last_sm_valid i else true)
    pub timestamp : v.last_sm_timestamp i ≡ (if idle then t.last_sm_timestamp i else now)
    pub last_sm : v.last_sm i ≡ (
        if idle then t.last_sm i else record {
          pid = (t.states i).pid;
          cpu_id = none;
          timestamp_ns = now;
          smoothed_ipc = sw_mean d (v.win_ipc i);
          smoothed_llc_miss = sw_mean d (v.win_llc i);
          smoothed_ctx_freq = sw_mean d (v.win_ctx i);
          smoothed_io_freq = sw_mean d (v.win_io i);
        })

  view-read_core :
      (pid now i c : ℕ) (cc : RawCounters) (s : Daemon Carrier)
      → view (read_core d pid now i c cc s).tables ≡ view s.tables
  unfolding read_core
  view-read_core pid now i c cc s =
      if_both (λ (u : Daemon Carrier). view u.tables ≡ view s.tables) _ refl refl

  module _ (os : Os) (cfg : CoreConfig) (tracer : Tracer os.World) (now : ℕ) where
    open os use {World}

    view-core_reading :
        (pid i c : ℕ) (o : Option RawCounters) (s : Daemon Carrier)
        → view (core_reading d os cfg tracer now pid i c o s).tables ≡ view s.tables
    unfolding core_reading
    view-core_reading pid i c none s = refl
    view-core_reading pid i c (some cc) s = view-read_core pid now i c cc s

    view-slow_core :
        (pid i : ℕ) (w : World) (c : ℕ) (s : Daemon Carrier)
        → view (slow_core d os cfg tracer now pid i w c s).tables ≡ view s.tables
    unfolding slow_core
    view-slow_core pid i w c s =
        if_both (λ (u : Daemon Carrier). view u.tables ≡ view s.tables)
          (not (is_selected cfg.per_core_mask c)) refl
          (view-core_reading pid i c (perf_counter_read os (s.tables.perf_pc i c) w) s)

    -- the tables behind the windows and the cache of slot `i`, before its cores
    sampled : Carrier → ℕ → ℕ → ℕ → Deltas → Daemon Carrier → Daemon Carrier
    sampled dt pid i cur_io e s =
        let t = s.tables in
        cache_sample d pid now i (record s {
          tables =
              sample_windows d dt e i
                (record t { states = set t.states i (record (t.states i) { prev_io = cur_io }) });
        })

    view-active_slot :
        (dt : Carrier) (pid i cur_io : ℕ) (e : Deltas) (s : Daemon Carrier × World)
        → view (active_slot d os cfg tracer now dt pid i cur_io e s).0.tables
          ≡ view (sampled dt pid i cur_io e s.0).tables
    unfolding active_slot sampled
    view-active_slot dt pid i cur_io e (s, w) =
        let s1 = sampled dt pid i cur_io e s in
        if_both (λ (u : Daemon Carrier). view u.tables ≡ view s1.tables) cfg.per_core
          (for_below-keeps (λ (u : Daemon Carrier). view u.tables)
            (slow_core d os cfg tracer now pid i w) cfg.ncores s1
            (λ c u. view-slow_core pid i w c u))
          refl

    idle-IsSampled :
        (dt : Carrier) (i : ℕ) (cur : RawCounters) (cur_ctx cur_io : ℕ) (t : Tables Carrier)
        → IsSampled true dt now i cur cur_ctx cur_io t
            (view (record t { states = set t.states i (rebase cur cur_ctx (t.states i)) }))
    unfolding rebase
    idle-IsSampled dt i cur cur_ctx cur_io t = record {
      states = set_self t.states i (rebase cur cur_ctx (t.states i));
      win_ipc = refl;
      win_llc = refl;
      win_ctx = refl;
      win_io = refl;
      valid = refl;
      timestamp = refl;
      last_sm = refl;
    }

    runs-IsSampled :
        (dt : Carrier) (i : ℕ) (cur : RawCounters) (cur_ctx cur_io : ℕ) (s : Daemon Carrier)
        → let st = s.tables.states i in
          IsSampled false dt now i cur cur_ctx cur_io s.tables (
            view
              (sampled dt st.pid i cur_io (deltas st cur cur_ctx cur_io) (record s {
                tables = record s.tables { states = set s.tables.states i (rebase cur cur_ctx st) };
              })).tables)
    unfolding sampled deltas rebase cache_sample sample_windows smoothed
    runs-IsSampled dt i cur cur_ctx cur_io s =
        let t = s.tables in
        record {
          states =
              set_self (set t.states i (rebase cur cur_ctx (t.states i))) i _
              ∙ ap (λ (st : PidState). record st { prev_io = cur_io })
                  (set_self t.states i (rebase cur cur_ctx (t.states i)));
          win_ipc = set_self t.win_ipc i _;
          win_llc = set_self t.win_llc i _;
          win_ctx = set_self t.win_ctx i _;
          win_io = set_self t.win_io i _;
          valid = set_self t.last_sm_valid i true;
          timestamp = set_self t.last_sm_timestamp i now;
          last_sm = set_self t.last_sm i _;
        }

    -- A sample with the counters `cur` stores in slot `i` what IsSampled says, on either branch: whether
    -- the slot is idle is the test of its cycles in the interval, modulo 2^64, against 0.
    pub slow_slot-IsSampled :
        (dt : Carrier) (i : ℕ) (cur : RawCounters) (s : Daemon Carrier) (w : World)
        → let st = s.tables.states i in
          IsSampled
            (sub64 cur.cycles st.prev_cycles == 0)
            dt
            now
            i
            cur
            (tracer.read_switches st.pid w)
            (tracer.read_io st.pid w)
            s.tables
            (view (slow_slot d os cfg tracer now dt i cur (s, w)).0.tables)
    unfolding slow_slot deltas
    slow_slot-IsSampled dt i cur s w =
        let st = s.tables.states i in
        let cur_ctx = tracer.read_switches st.pid w in
        let cur_io = tracer.read_io st.pid w in
        let s1 : Daemon Carrier = record s {
          tables = record s.tables { states = set s.tables.states i (rebase cur cur_ctx st) };
        } in
        if_each
          (λ b (u : Daemon Carrier × World).
            IsSampled b dt now i cur cur_ctx cur_io s.tables (view u.0.tables))
          (sub64 cur.cycles st.prev_cycles == 0) (idle-IsSampled dt i cur cur_ctx cur_io s.tables)
          (subst (IsSampled false dt now i cur cur_ctx cur_io s.tables)
            (sym (view-active_slot dt st.pid i cur_io (deltas st cur cur_ctx cur_io) (s1, w)))
            (runs-IsSampled dt i cur cur_ctx cur_io s))

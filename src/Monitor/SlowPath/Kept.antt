-- ===== src/Monitor/SlowPath/Kept.antt =====
-- Sampling a slot in final/src/monitor_final.c leaves the slots for the pids that they are for.
use capstone_monitor.Base.{
  ℕ, ◌≡◌, refl, ap, ◌∙◌, not, Option, none, some, if_both, set, set-absorb, for_below-keeps,
}
use mathlib.Core.Path.{fun_ext}
use capstone_monitor.Double.{Double}
use capstone_monitor.Os.{Os}
use capstone_monitor.PerfCounter.{RawCounters, perf_counter_read}
use capstone_monitor.Monitor.{PidState, Tables, CoreConfig, Tracer, Daemon}
use capstone_monitor.Monitor.FastPath.{is_selected}
use capstone_monitor.Monitor.SlowPath.{
  Deltas, rebase, read_core, core_reading, slow_core, active_slot, slow_slot,
}

-- how many slots are in use, and the pid of each slot
abbrev pub pids : {D : Type 0} → Tables D → ℕ × (ℕ → ℕ)
pids t = (t.n_active, λ j. (t.states j).pid)

pids-states :
    {D : Type 0} (t : Tables D) (i : ℕ) (st : PidState)
    → st.pid ≡ (t.states i).pid
    → pids (record t { states = set t.states i st }) ≡ pids t
pids-states t i st h =
    ap (λ (f : ℕ → ℕ). (t.n_active, f))
      (fun_ext (λ j. set-absorb (λ (x : PidState). x.pid) t.states i j st h))

module _ (d : Double) where
  open d use {Carrier}

  pids-read_core :
      (pid now i c : ℕ) (cc : RawCounters) (s : Daemon Carrier)
      → pids (read_core d pid now i c cc s).tables ≡ pids s.tables
  unfolding read_core
  pids-read_core pid now i c cc s =
      if_both (λ (u : Daemon Carrier). pids u.tables ≡ pids s.tables) _ refl refl

  module _ (os : Os) (cfg : CoreConfig) (tracer : Tracer os.World) (now : ℕ) where
    open os use {World}

    pids-core_reading :
        (pid i c : ℕ) (o : Option RawCounters) (s : Daemon Carrier)
        → pids (core_reading d os cfg tracer now pid i c o s).tables ≡ pids s.tables
    unfolding core_reading
    pids-core_reading pid i c none s = refl
    pids-core_reading pid i c (some cc) s = pids-read_core pid now i c cc s

    pids-slow_core :
        (pid i : ℕ) (w : World) (c : ℕ) (s : Daemon Carrier)
        → pids (slow_core d os cfg tracer now pid i w c s).tables ≡ pids s.tables
    unfolding slow_core
    pids-slow_core pid i w c s =
        if_both (λ (u : Daemon Carrier). pids u.tables ≡ pids s.tables)
          (not (is_selected cfg.per_core_mask c)) refl
          (pids-core_reading pid i c (perf_counter_read os (s.tables.perf_pc i c) w) s)

    pids-active_slot :
        (dt : Carrier) (pid i cur_io : ℕ) (e : Deltas) (s : Daemon Carrier × World)
        → pids (active_slot d os cfg tracer now dt pid i cur_io e s).0.tables ≡ pids s.0.tables
    unfolding active_slot
    pids-active_slot dt pid i cur_io e (s, w) =
        if_both (λ (u : Daemon Carrier). pids u.tables ≡ pids s.tables) cfg.per_core
          (for_below-keeps (λ (u : Daemon Carrier). pids u.tables)
              (slow_core d os cfg tracer now pid i w) cfg.ncores _
              (λ c u. pids-slow_core pid i w c u)
            ∙ first)
          first
      where
        first :
            pids (record s.tables {
              states = set s.tables.states i (record (s.tables.states i) { prev_io = cur_io });
            })
            ≡ pids s.tables
        first = pids-states s.tables i (record (s.tables.states i) { prev_io = cur_io }) refl

    pub pids-slow_slot :
        (dt : Carrier) (i : ℕ) (cur : RawCounters) (s : Daemon Carrier × World)
        → pids (slow_slot d os cfg tracer now dt i cur s).0.tables ≡ pids s.0.tables
    unfolding slow_slot
    pids-slow_slot dt i cur (s, w) =
        let st = s.tables.states i in
        let first = pids-states s.tables i (rebase cur (tracer.read_switches st.pid w) st) refl in
        if_both (λ (u : Daemon Carrier × World). pids u.0.tables ≡ pids s.tables) _ first
          (pids-active_slot dt st.pid i _ _ _ ∙ first)

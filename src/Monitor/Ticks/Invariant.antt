-- ===== src/Monitor/Ticks/Invariant.antt =====
-- What every tick of final/src/monitor_final.c keeps.
use capstone_monitor.Base.{
  ℕ, ◌%◌, ◌≤◌, ◌≡◌, refl, sym, ap, ◌∙◌, inl, inr, not, Option, some, List, [], ◌∷◌, ◌==◌,
  Bool-cases, if_both, for_below-keeps, arith,
}
use capstone_monitor.Double.{Double}
use capstone_monitor.Os.{Os}
use capstone_monitor.Monitor.{max_cores, Tables, CoreConfig, Tracer, Daemon}
use capstone_monitor.Monitor.Deadline.{Timespec}
use capstone_monitor.Monitor.Eviction.Sifted.{IsUnaffected}
use capstone_monitor.Monitor.FastPath.{fast_core, fast_slot, fast_path, is_selected, is_stale}
use capstone_monitor.Monitor.SlowPath.{exit_slot, slow_dt}
use capstone_monitor.Monitor.SlowPath.Kept.{pids, pids-slow_slot}
use capstone_monitor.Monitor.SlowPath.Visits.{Visits, stop, exited, sampled, slow_path-Visits}
use capstone_monitor.Monitor.SyncPids.{Selection, Processes}
use capstone_monitor.Monitor.SyncPids.Valid.{IsValid, remove_slot-IsValid}
use capstone_monitor.Monitor.SyncPids.Total.{sync_pids-IsValid}
use capstone_monitor.Monitor.Ticks.{
  Loop, Tick, sync_of, after_sync, slow_slots, slow_tick, end_tick, tick, run_sampling_loop, now_ns,
}

-- The invariant is one of the pids alone.
pids-IsValid : {D : Type 0} (t u : Tables D) → pids u ≡ pids t → IsValid t → IsValid u
pids-IsValid t u e v =
    let n = ap (λ p. p.0) e in
    let same = λ (j : ℕ). ap (λ p. p.1 j) e in
    record {
      few = omega (arith, n, v.few);
      distinct = λ j k hj hk h.
          v.distinct j k (omega (arith, n, hj)) (omega (arith, n, hk)) (sym (same j) ∙ h ∙ same k);
    }

module _ {D : Type 0} (cfg : CoreConfig) (now : ℕ) where
  pids-fast_core : (i c : ℕ) (s : Daemon D) → pids (fast_core cfg now i c s).tables ≡ pids s.tables
  unfolding fast_core
  pids-fast_core i c s =
      let P = λ (u : Daemon D). pids u.tables ≡ pids s.tables in
      if_both P (not (is_selected cfg.per_core_mask c)) refl
        (if_both P ((s.tables.last_sm_pc i c).pid == 0) refl (if_both P _ refl refl))

  pids-fast_slot : (i : ℕ) (s : Daemon D) → pids (fast_slot cfg now i s).tables ≡ pids s.tables
  unfolding fast_slot
  pids-fast_slot i s =
      let P = λ (u : Daemon D). pids u.tables ≡ pids s.tables in
      if_both P (not (s.tables.last_sm_valid i)) refl (
        if_both P (is_stale now (s.tables.last_sm_timestamp i)) refl (
          if_both P cfg.per_core
            (for_below-keeps (λ (u : Daemon D). pids u.tables) (fast_core cfg now i) cfg.ncores _
              (λ c u. pids-fast_core i c u))
            refl))

  pids-fast_path : (s : Daemon D) → pids (fast_path cfg now s).tables ≡ pids s.tables
  unfolding fast_path
  pids-fast_path s =
      for_below-keeps (λ (u : Daemon D). pids u.tables) (fast_slot cfg now) s.tables.n_active s
        (λ i u. pids-fast_slot i u)

module _ (d : Double) (os : Os) (cfg : CoreConfig) (tracer : Tracer os.World)
    (few : cfg.ncores ≤ max_cores) (now : ℕ) where
  open os use {World}
  open d use {Carrier}

  exit_slot-IsValid :
      (i : ℕ) (s : Daemon Carrier × World)
      → IsValid s.0.tables
      → IsValid (exit_slot d os cfg tracer now i s).0.tables
  unfolding exit_slot
  exit_slot-IsValid i (s, w) v = remove_slot-IsValid os cfg few i (s.tables, w) v

  Visits-IsValid :
      (dt : Carrier) (limit : ℕ) {i displayed : ℕ} {s s' : Daemon Carrier × World} {ps : List ℕ}
      → Visits d os cfg tracer now dt limit i displayed s s' ps
      → IsValid s.0.tables
      → IsValid s'.0.tables
  Visits-IsValid dt limit (stop i displayed s e) v = v
  Visits-IsValid dt limit (exited i displayed s s' ps lt gone r) v =
      Visits-IsValid dt limit r (exit_slot-IsValid i s v)
  Visits-IsValid dt limit (sampled i displayed cur s s' ps lt read r) v =
      Visits-IsValid dt limit r
        (pids-IsValid s.0.tables _ (pids-slow_slot d os cfg tracer now dt i cur s) v)

module _ (d : Double) (os : Os) (cfg : CoreConfig) (tracer : Tracer os.World)
    (procs : Processes os.World) (few : cfg.ncores ≤ max_cores)
    (unaffected : IsUnaffected d.Carrier os cfg (λ st w. procs.is_gone st.pid w)) (sel : Selection)
    (interval_ms : ℕ) where
  open os use {World}
  open d use {Carrier}

  -- what a tick returns: a state with valid slots
  abbrev Returns : Option (Loop Carrier × World) → Type 0
  Returns o = (r : Loop Carrier × World) × (o ≡ some r) × IsValid r.0.daemon.tables

  slow_slots-Returns :
      (t_start last_slow : Timespec) (s : Loop Carrier × World)
      → IsValid s.0.daemon.tables
      → Returns (slow_slots d os cfg tracer procs sel interval_ms t_start last_slow s)
  unfolding slow_slots
  slow_slots-Returns t_start last_slow (l, w) v =
      let now = now_ns t_start in
      let r = slow_path-Visits d os cfg tracer now t_start last_slow sel.top_n (l.daemon, w) in
      rw (slow_slots, r.2)
        (
          (record l { daemon = r.0.0 }, r.0.1),
          refl,
          Visits-IsValid d os cfg tracer few now (slow_dt d t_start last_slow) _ r.3 v,
        )

  slow_tick-Returns :
      (c : Tick World) (s : Loop Carrier × World)
      → IsValid s.0.daemon.tables
      → Returns (slow_tick d os cfg tracer procs sel interval_ms c s)
  unfolding slow_tick after_sync
  slow_tick-Returns c (l, w) v =
      let r =
        sync_pids-IsValid d os cfg tracer procs few unaffected sel c.sync_now (sync_of l) w v in
      rw (slow_tick, r.1)
        (slow_slots-Returns c.t_start l.last_slow (after_sync c.t_start r.0.0 l, r.0.1) r.2)

  end_tick-IsValid :
      (c : Tick World) (s : Loop Carrier × World)
      → IsValid s.0.daemon.tables
      → IsValid (end_tick d os cfg tracer procs sel interval_ms c s).0.daemon.tables
  unfolding end_tick
  end_tick-IsValid c (l, w) v = pids-IsValid l.daemon.tables _ (pids-fast_path cfg _ l.daemon) v

  tick-Returns :
      (c : Tick World) (s : Loop Carrier × World)
      → IsValid s.0.daemon.tables
      → Returns (tick d os cfg tracer procs sel interval_ms c s)
  unfolding tick
  tick-Returns c s v =
      let r = slow_tick-Returns c s v in
      let done = λ (u : Loop Carrier × World). end_tick d os cfg tracer procs sel interval_ms c u in
      elim (Bool-cases (s.0.sample_num % 4 == 0)) [
        | inl e ↦ rw (e, r.1) (done r.0, refl, end_tick-IsValid c r.0 r.2)
        | inr e ↦ rw e (done s, refl, end_tick-IsValid c s v)
      ]

  -- With at most MAX_CORES cores and a kill(2) whose answers do not depend on what a removal closes,
  -- and whatever the clock, the processes and the counters do, every tick of the loop ends, and
  -- behind any number of ticks at most MAX_PIDS slots are in use, for distinct pids, if that held
  -- before.
  pub run_sampling_loop-IsValid :
      (cs : List (Tick World)) (s : Loop Carrier × World)
      → IsValid s.0.daemon.tables
      → (r : Loop Carrier × World) × (run_sampling_loop d os cfg tracer procs sel interval_ms cs s
          ≡ some r)
        × IsValid r.0.daemon.tables
  unfolding run_sampling_loop
  run_sampling_loop-IsValid [] s v = (s, refl, v)
  run_sampling_loop-IsValid (c ∷ cs) s v =
      let r = tick-Returns c s v in
      rw (run_sampling_loop, r.1) (run_sampling_loop-IsValid cs r.0 r.2)

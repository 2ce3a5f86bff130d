-- ===== src/Monitor/Ownership/Returned.antt =====
-- The loop of final/src/monitor_final.c and `cleanup` behind it give back every descriptor.
use capstone_monitor.Base.{
  ℕ, ◌%◌, ◌≤◌, ◌≡◌, refl, ap, Bool, not, Option, none, some, List, [], ◌∷◌, ◌==◌, if_both,
  for_below-keeps, Array,
}
use capstone_monitor.Double.{Double}
use capstone_monitor.Os.{Os, IsKernel}
use capstone_monitor.PerfCounter.{PerfCounter}
use capstone_monitor.Monitor.{max_cores, CoreConfig, Tracer, Daemon}
use capstone_monitor.Monitor.Deadline.{Timespec, deadline}
use capstone_monitor.Monitor.FastPath.{fast_slot, fast_path, is_stale}
use capstone_monitor.Monitor.Ownership.Changes.{aggregate, Owned, Owned-keeps}
use capstone_monitor.Monitor.Ownership.Loop.{slow_loop-Owned}
use capstone_monitor.Monitor.Ownership.Sync.{AllOf, AllOf-some, AllOf-none, sync_pids-Owned}
use capstone_monitor.Monitor.SlowPath.{slow_path}
use capstone_monitor.Monitor.SyncPids.{Selection, Processes, Sync}
use capstone_monitor.Monitor.Ticks.{
  Loop, Tick, sync_of, after_sync, slow_slots, slow_tick, end_tick, tick, run_sampling_loop, now_ns,
}

AllOf-bind :
    {R S : Type 0} (P : R → Type 0) (Q : S → Type 0) (g : R → Option S) (o : Option R)
    → ((r : R) → P r → AllOf Q (g r))
    → AllOf P o
    → AllOf Q (elim o [ none ↦ none | some r ↦ g r ])
AllOf-bind P Q g none h a = AllOf-none Q
AllOf-bind P Q g (some r) h a = h r (a r refl)

-- the part of the state that ownership is about
abbrev counters : {D : Type 0} → Daemon D → ℕ × Array PerfCounter
counters s = (s.tables.n_active, s.tables.perf)

counters-fast_path :
    {D : Type 0} (mask ncores now : ℕ) (s : Daemon D)
    → counters (fast_path (aggregate mask ncores) now s) ≡ counters s
unfolding fast_path fast_slot
counters-fast_path {D = D} mask ncores now s =
    for_below-keeps (λ (u : Daemon D). counters u) (fast_slot (aggregate mask ncores) now)
      s.tables.n_active s
      (λ i u.
        let P = λ (v : Daemon D). counters v ≡ counters u in
        if_both P (not (u.tables.last_sm_valid i)) refl
          (if_both P (is_stale now (u.tables.last_sm_timestamp i)) refl refl))

-- Nothing of the daemon's is opened or closed during the sleeps.
pub data Calm (os : Os) : List (Tick os.World) → Type 0 where
  over : Calm os []
  and_calm :
      (c : Tick os.World) (cs : List (Tick os.World))
      → ((t : Timespec) (w : os.World) (f : ℕ) → os.is_open (c.sleep t w) f ≡ os.is_open w f)
      → Calm os cs
      → Calm os (c ∷ cs)

module _ (d : Double) (os : Os) (kernel : IsKernel os) (mask ncores : ℕ) (few : ncores ≤ max_cores)
    (before : ℕ → Bool) (tracer : Tracer os.World)
    (quiet : (pid : ℕ) (w : os.World) (f : ℕ)
      → os.is_open (tracer.pop_exec_comm pid w).1 f ≡ os.is_open w f)
    (procs : Processes os.World) (sel : Selection) (interval_ms : ℕ) where
  open os use {World, is_open}
  open d use {Carrier}

  abbrev pub cfg : CoreConfig
  cfg = aggregate mask ncores

  abbrev LoopOwned : Loop Carrier × World → Type 0
  LoopOwned s = Owned os before (s.0.daemon.tables, s.1)

  slow_tick-Owned :
      (c : Tick World) (s : Loop Carrier × World)
      → LoopOwned s
      → AllOf LoopOwned (slow_tick d os cfg tracer procs sel interval_ms c s)
  unfolding slow_tick after_sync slow_slots slow_path
  slow_tick-Owned c (l, w) o =
      AllOf-bind (λ (r : Sync Carrier × World). Owned os before (r.0.tables, r.1)) LoopOwned
        (λ r.
          slow_slots d os cfg tracer procs sel interval_ms c.t_start l.last_slow
            (after_sync c.t_start r.0 l, r.1))
        _
        (λ r p.
          AllOf-bind (λ (q : Daemon Carrier × World). Owned os before (q.0.tables, q.1)) LoopOwned
            (λ q. some (record (after_sync c.t_start r.0 l) { daemon = q.0 }, q.1)) _
            (λ q h. AllOf-some LoopOwned _ h)
            (slow_loop-Owned d os kernel mask ncores few before tracer quiet procs
              (now_ns c.t_start) _ _ _ 0 0 ((after_sync c.t_start r.0 l).daemon, r.1) p))
        (sync_pids-Owned d os kernel mask ncores few before tracer quiet procs sel c.sync_now
          (sync_of l) w o)

  end_tick-Owned :
      (c : Tick World) (s : Loop Carrier × World)
      → ((t : Timespec) (w : World) (f : ℕ) → is_open (c.sleep t w) f ≡ is_open w f)
      → LoopOwned s
      → LoopOwned (end_tick d os cfg tracer procs sel interval_ms c s)
  unfolding end_tick
  end_tick-Owned c (l, w) calm o =
      let e = counters-fast_path mask ncores (now_ns c.t_start) l.daemon in
      Owned-keeps os kernel mask ncores few before (l.daemon.tables, w)
        (
          (fast_path cfg (now_ns c.t_start) l.daemon).tables,
          c.sleep (deadline interval_ms c.t_start) w,
        )
        (ap (λ (q : ℕ × Array PerfCounter). q.0) e)
        (λ i lt. ap (λ (q : ℕ × Array PerfCounter). q.1 i) e)
        (calm (deadline interval_ms c.t_start) w) o

  tick-Owned :
      (c : Tick World) (s : Loop Carrier × World)
      → ((t : Timespec) (w : World) (f : ℕ) → is_open (c.sleep t w) f ≡ is_open w f)
      → LoopOwned s
      → AllOf LoopOwned (tick d os cfg tracer procs sel interval_ms c s)
  unfolding tick
  tick-Owned c s calm o =
      if_both (AllOf LoopOwned) (s.0.sample_num % 4 == 0)
        (AllOf-bind LoopOwned LoopOwned
          (λ r. some (end_tick d os cfg tracer procs sel interval_ms c r)) _
          (λ r p. AllOf-some LoopOwned _ (end_tick-Owned c r calm p)) (slow_tick-Owned c s o))
        (AllOf-some LoopOwned _ (end_tick-Owned c s calm o))

  pub run_sampling_loop-Owned :
      (cs : List (Tick World)) (s : Loop Carrier × World)
      → Calm os cs
      → Owned os before (s.0.daemon.tables, s.1)
      → AllOf
          (λ (r : Loop Carrier × World). Owned os before (r.0.daemon.tables, r.1))
          (run_sampling_loop d os cfg tracer procs sel interval_ms cs s)
  unfolding run_sampling_loop
  run_sampling_loop-Owned [] s over o = AllOf-some LoopOwned s o
  run_sampling_loop-Owned (c ∷ cs) s (and_calm _ _ calm more) o =
      AllOf-bind LoopOwned LoopOwned
        (λ r. run_sampling_loop d os cfg tracer procs sel interval_ms cs r) _
        (λ r p. run_sampling_loop-Owned cs r more p) (tick-Owned c s calm o)

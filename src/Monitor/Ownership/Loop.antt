-- ===== src/Monitor/Ownership/Loop.antt =====
-- The descriptors that the slots of final/src/monitor_final.c own, through the slow path.
use capstone_monitor.Base.{
  ℕ, zero, suc, ◌+◌, ◌≤◌, ◌<◌, ◌≡◌, refl, Bool, true, ◌&&◌, Option, none, some, ltb, if_both,
  if_each, arith,
}
use capstone_monitor.Double.{Double}
use capstone_monitor.Os.{Os, IsKernel}
use capstone_monitor.PerfCounter.{RawCounters, perf_counter_read}
use capstone_monitor.Monitor.{max_cores, CoreConfig, Tracer, Daemon}
use capstone_monitor.Monitor.AddPid.{seed_comm}
use capstone_monitor.Monitor.Ownership.{IsOwned-keeps}
use capstone_monitor.Monitor.Ownership.Changes.{aggregate, Owned, remove_slot-Owned}
use capstone_monitor.Monitor.Ownership.Sync.{AllOf, AllOf-some, AllOf-none}
use capstone_monitor.Monitor.SlowPath.{
  active_slot, slow_slot, exit_slot, slow_loop, cache_sample, push_dash, sample_windows,
}
use capstone_monitor.Monitor.SyncPids.{Processes}

in_use_and : (i n : ℕ) (b : Bool) → (ltb i n && b) ≡ true → i < n
in_use_and i n b h = ground (arith, h)

module _ (d : Double) (os : Os) (kernel : IsKernel os) (mask ncores : ℕ) (few : ncores ≤ max_cores)
    (before : ℕ → Bool) (tracer : Tracer os.World)
    (quiet : (pid : ℕ) (w : os.World) (f : ℕ)
      → os.is_open (tracer.pop_exec_comm pid w).1 f ≡ os.is_open w f)
    (procs : Processes os.World) where
  open os use {World, is_open}
  open d use {Carrier}

  abbrev pub cfg : CoreConfig
  cfg = aggregate mask ncores

  abbrev pub DaemonOwned : Daemon Carrier × World → Type 0
  DaemonOwned s = Owned os before (s.0.tables, s.1)

  slow_slot-Owned :
      (now : ℕ) (dt : Carrier) (i : ℕ) (cur : RawCounters) (s : Daemon Carrier × World)
      → Owned os before (s.0.tables, s.1)
      → let r = slow_slot d os cfg tracer now dt i cur s in Owned os before (r.0.tables, r.1)
  unfolding slow_slot active_slot cache_sample push_dash sample_windows seed_comm
  slow_slot-Owned now dt i cur (s, w) o = if_both DaemonOwned _ o (
      IsOwned-keeps before s.tables.n_active s.tables.perf s.tables.perf (is_open w) _
        (λ j lt. refl) (quiet (s.tables.states i).pid w) o)

  pub slow_loop-Owned :
      (now : ℕ) (dt : Carrier) (limit fuel i displayed : ℕ) (s : Daemon Carrier × World)
      → Owned os before (s.0.tables, s.1)
      → AllOf DaemonOwned (slow_loop d os cfg tracer now dt limit fuel i displayed s)
  unfolding slow_loop exit_slot
  slow_loop-Owned now dt limit zero i displayed s o =
      let P = λ (r : Daemon Carrier × World). Owned os before (r.0.tables, r.1) in
      if_both (AllOf DaemonOwned) _ (AllOf-none DaemonOwned) (AllOf-some DaemonOwned s o)
  slow_loop-Owned now dt limit (suc fuel) i displayed s o =
      let P = λ (r : Daemon Carrier × World). Owned os before (r.0.tables, r.1) in
      let more = ltb i s.0.tables.n_active && ltb displayed limit in
      if_each (λ b (q : Option (Daemon Carrier × World)). more ≡ b → AllOf DaemonOwned q) more
        (λ e.
          by_reading (perf_counter_read os (s.0.tables.perf i) s.1)
            (slow_loop-Owned now dt limit fuel i displayed (exit_slot d os cfg tracer now i s) (
              remove_slot-Owned os kernel mask ncores few before i (s.0.tables, s.1)
                (in_use_and i s.0.tables.n_active (ltb displayed limit) e) o))
            (λ cur.
              slow_loop-Owned now dt limit fuel (i + 1) (displayed + 1)
                (slow_slot d os cfg tracer now dt i cur s) (slow_slot-Owned now dt i cur s o)))
        (λ e. AllOf-some DaemonOwned s o) refl
    where
      gone : Option (Daemon Carrier × World)
      gone =
          slow_loop d os cfg tracer now dt limit fuel i displayed
            (exit_slot d os cfg tracer now i s)

      next : RawCounters → Option (Daemon Carrier × World)
      next cur =
          slow_loop d os cfg tracer now dt limit fuel (i + 1) (displayed + 1)
            (slow_slot d os cfg tracer now dt i cur s)

      by_reading :
          (c : Option RawCounters)
          → AllOf DaemonOwned gone
          → ((cur : RawCounters) → AllOf DaemonOwned (next cur))
          → AllOf DaemonOwned (elim c [ none ↦ gone | some cur ↦ next cur ])
      by_reading none g h = g
      by_reading (some cur) g h = h cur

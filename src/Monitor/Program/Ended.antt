-- ===== src/Monitor/Program/Ended.antt =====
-- How the program of final/src/monitor_final.c ends.
use capstone_monitor.Base.{ℕ, ◌≤◌, ◌<◌, ◌≡◌, refl, ◌∙◌, Option, none, some, List, [], ◌∷◌, arith}
use capstone_monitor.Double.{Double}
use capstone_monitor.LibBpf.{LibBpf, LibBpfLaws}
use capstone_monitor.Metrics.{SmoothedMetrics, zero_metrics}
use capstone_monitor.Os.{Os, IsKernel}
use capstone_monitor.Shm.{Shm, ShmLaws}
use capstone_monitor.EbpfTracer.Lifecycle.{Handle}
use capstone_monitor.EbpfTracer.Lifecycle.Held.{IsHeld}
use capstone_monitor.Monitor.{max_cores, CoreConfig, Tracer}
use capstone_monitor.Monitor.Args.{DaemonConfig, parse_args}
use capstone_monitor.Monitor.Eviction.Sifted.{IsUnaffected}
use capstone_monitor.Monitor.Lifetime.{Started, exited, running, count_cores, start_daemon}
use capstone_monitor.Monitor.Lifetime.Start.{IsStarted, start_daemon-IsStarted}
use capstone_monitor.Monitor.Lifetime.Stop.{IsGone, cleanup-IsDestroyed}
use capstone_monitor.Monitor.Program.{
  failed, printed, stopped, core_config, selection, zero_tables, loop_start, Run, Ending,
  run_daemon, run_started, csv_ready, main,
}
use capstone_monitor.Monitor.SyncPids.{Processes}
use capstone_monitor.Monitor.SyncPids.Valid.{IsValid}
use capstone_monitor.Monitor.Ticks.Invariant.{run_sampling_loop-IsValid}

-- Whatever sysconf returns, the number of cores is from 1 to MAX_CORES.
pub count_cores_lem : (online : ℕ) → (0 < count_cores online) × (count_cores online ≤ max_cores)
unfolding count_cores
count_cores_lem online = ground arith

zero_tables-IsValid : (d : Double) → IsValid (zero_tables d)
unfolding zero_tables
zero_tables-IsValid d = record { few = omega arith; distinct = λ j k hj hk h. omega arith }

module _ (d : Double) (os : Os) (kernel : IsKernel os) (tracer : Tracer os.World)
    (procs : Processes os.World) (lib : LibBpf) (lib_laws : LibBpfLaws lib)
    (shm : Shm (SmoothedMetrics d.Carrier)) (shm_laws : ShmLaws shm) (run : Run os lib shm)
    (unaffected : (cfg : CoreConfig)
      → IsUnaffected d.Carrier os cfg (λ st w. procs.is_gone st.pid w))
    (kept : (w : lib.World) (k : ℕ)
      → (lib.is_open (run.lib_meanwhile w) k ≡ lib.is_open w k)
        × (lib.is_attached (run.lib_meanwhile w) k ≡ lib.is_attached w k)) where
  -- The state of libbpf and of shared memory at the start and at the end.
  abbrev pub IsEnded : lib.World → shm.World → Ending d os tracer procs lib shm run → Type 0
  IsEnded lw sw (failed, ow', lw', sw') = (shm.view sw').fds ≡ (shm.view sw).fds
  IsEnded lw sw (printed, ow', lw', sw') = (lw' ≡ lw) × (sw' ≡ sw)
  IsEnded lw sw (stopped, ow', lw', sw') =
      ((k : ℕ)
        → (lib.is_open lw' k ≡ lib.is_open lw k) × (lib.is_attached lw' k ≡ lib.is_attached lw k))
      × IsGone shm shm_laws sw'

  -- A program that ends, in the way that the states tell.
  Ends : lib.World → shm.World → Option (Ending d os tracer procs lib shm run) → Type 0
  Ends lw sw o = (r : Ending d os tracer procs lib shm run) × (o ≡ some r) × IsEnded lw sw r

  run_daemon-Ends :
      (cfg : DaemonConfig) (et : Handle) (a b : ℕ) (ow : os.World) (v lw : lib.World)
      (sv sw : shm.World)
      → IsHeld lib lib_laws et v lw
      → Ends v sv (run_daemon d os tracer procs lib shm run cfg et a b ow lw sw)
  unfolding run_daemon Ends
  run_daemon-Ends cfg et a b ow v lw sv sw held =
      let cores = core_config cfg run.online in
      let r =
        run_sampling_loop-IsValid d os cores tracer procs (count_cores_lem run.online).1
          (unaffected cores) (selection cfg) cfg.interval_ms run.ticks
          (loop_start d run.last_slow, ow) (zero_tables-IsValid d) in
      let held' : IsHeld lib lib_laws et v (run.lib_meanwhile lw) = record {
        links = λ k. (kept lw k).1 ∙ held.links k;
        new_links = held.new_links;
        objects = λ k. (kept lw k).0 ∙ held.objects k;
        new_objects = held.new_objects;
      } in
      let c =
        cleanup-IsDestroyed os kernel lib lib_laws shm shm_laws cores et a b r.0.0.daemon.tables
          r.0.1 v (run.lib_meanwhile lw) (run.shm_meanwhile sw) held' in
      rw (r.1, run_daemon) (_, refl, (c.1, c.2.gone))

  run_started-Ends :
      (cfg : DaemonConfig) (ow : os.World) (lw : lib.World) (sw : shm.World)
      (r : Started × lib.World × shm.World)
      → IsStarted lib lib_laws shm shm_laws (zero_metrics (d.of_ℕ 0)) lw sw r
      → Ends lw sw (run_started d os tracer procs lib shm run cfg ow r)
  unfolding run_started Ends
  run_started-Ends cfg ow lw sw (exited, lw', sw') h = (_, refl, h)
  run_started-Ends cfg ow lw sw (running et a b, lw', sw') h =
      run_daemon-Ends cfg et a b ow lw lw' sw sw' h.1

  -- Two conditions: the answers of kill(2) do not depend on what the removal of a slot closes, and
  -- between the start and the cleanup nothing of libbpf is opened or closed, attached or detached.
  -- Then, whatever the arguments, the program ends: in any number of ticks no eviction and no slow
  -- path runs out of rounds. Behind a return from `main` neither ring can be attached to, and of
  -- libbpf is open and attached what was before the start; behind exit(1) no descriptor of a ring is
  -- left; behind --version nothing has changed.
  pub main-IsEnded :
      (argv : List (List ℕ)) (ow : os.World) (lw : lib.World) (sw : shm.World)
      → (r : Ending d os tracer procs lib shm run) × (main d os tracer procs lib shm run argv ow lw
            sw
          ≡ some r)
        × IsEnded lw sw r
  unfolding main Ends
  main-IsEnded [] ow lw sw = (_, refl, refl)
  main-IsEnded (path ∷ args) ow lw sw = by_args (parse_args args)
    where
      by_args :
          (o : Option DaemonConfig)
          → Ends lw sw (elim o [
            | none ↦ some (printed, ow, lw, sw)
            | some cfg ↦ run_started d os tracer procs lib shm run cfg ow (
                start_daemon lib shm
                  (zero_metrics (d.of_ℕ 0))
                  (csv_ready d os tracer procs lib shm run cfg)
                  path
                  lw
                  sw)
          ])
      by_args none = (_, refl, (refl, refl))
      by_args (some cfg) = run_started-Ends cfg ow lw sw _ (
          start_daemon-IsStarted lib lib_laws shm shm_laws (zero_metrics (d.of_ℕ 0))
            (csv_ready d os tracer procs lib shm run cfg) path lw sw)

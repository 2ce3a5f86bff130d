-- ===== src/Tests/Lives.antt =====
-- The start and the end of a small daemon.
use capstone_monitor.Base.{
  ℕ, ◌≡◌, refl, Bool, true, false, ◌&&◌, not, some, List, [], ◌∷◌, codes, set, arith,
}
use capstone_monitor.Metrics.{SmoothedMetrics, zero_metrics}
use capstone_monitor.Shm.{Shm}
use capstone_monitor.EbpfTracer.Lifecycle.{Handle, ebpf_tracer_load, ebpf_tracer_attach}
use capstone_monitor.EbpfTracer.Lifecycle.Loading.{load-IsHeld, load-unlinked}
use capstone_monitor.EbpfTracer.Lifecycle.Attaching.{attach-IsHeld}
use capstone_monitor.RingBuffer.Shared.{shm_name, rb_create, rb_create_dash}
use capstone_monitor.Monitor.Lifetime.{
  exited, init_ebpf, init_shm, start_daemon, handle_fatal_signal, close_slots, cleanup,
}
use capstone_monitor.Monitor.Lifetime.Counters.{tables_hold}
use capstone_monitor.Monitor.Lifetime.Start.{
  IsStarted, IsShared, start_daemon-IsStarted, start_daemon-csv,
}
use capstone_monitor.Monitor.Lifetime.Stop.{
  IsGone, IsDestroyed, handle_fatal_signal-IsGone, cleanup-IsDestroyed,
}
use capstone_monitor.Monitor.Ownership.Changes.{aggregate}
use capstone_monitor.Monitor.Ownership.Returned.{over, and_calm}
use capstone_monitor.Monitor.Ownership.Closed.{close_slots-run_sampling_loop}
use capstone_monitor.Monitor.Program.{Run, Ending, main, loop_start}
use capstone_monitor.Monitor.Program.Ended.{IsEnded, main-IsEnded}
use capstone_monitor.Monitor.SyncPids.{Selection}
use capstone_monitor.Monitor.Ticks.{Loop, Tick, run_sampling_loop}
use capstone_monitor.Tests.Counters.{fake, fake-IsKernel, Kernel, machine}
use capstone_monitor.Tests.Loops.{procs, t_start, before}
use capstone_monitor.Tests.Memory.{State, small, small_laws}
use capstone_monitor.Tests.Slots.{three, cores, steady}
use capstone_monitor.Tests.Tracers
use capstone_monitor.Tests.Windows.{whole}

abbrev blank : SmoothedMetrics ℕ
blank = zero_metrics 0

abbrev shm : Shm (SmoothedMetrics ℕ)
shm = small blank

-- a ring of an earlier run still has its name
abbrev stale : State (SmoothedMetrics ℕ)
stale = record {
  fds = (0, some 0) ∷ [];
  names = (shm_name, some 3) ∷ [];
  maps = (5, some 3) ∷ [];
  rings = λ _. record { slots = λ n. blank; head = 4; tail = 2 };
}

abbrev path : List ℕ
path = codes "ctx_switch.bpf.o"

start_daemon-IsStarted_example :
    IsStarted Tracers.small Tracers.small_laws shm
      (small_laws blank)
      blank
      Tracers.others
      stale
      (start_daemon Tracers.small shm blank true path Tracers.others stale)
start_daemon-IsStarted_example =
    start_daemon-IsStarted Tracers.small Tracers.small_laws shm (small_laws blank) blank true path
      Tracers.others stale

handle_fatal_signal-IsGone_example :
    let u = handle_fatal_signal shm stale in
    IsGone shm (small_laws blank) u
    × ((shm.view u).fds ≡ (shm.view stale).fds)
    × ((shm.view u).maps ≡ (shm.view stale).maps)
    × ((shm.view u).rings ≡ stale.rings)
handle_fatal_signal-IsGone_example = handle_fatal_signal-IsGone shm (small_laws blank) stale

abbrev loaded : Bool × Handle × Tracers.State
loaded = ebpf_tracer_load Tracers.small path Tracers.others

abbrev attached : Bool × Handle × Tracers.State
attached = ebpf_tracer_attach Tracers.small loaded.1 loaded.2

cleanup-IsDestroyed_example :
    let r =
      cleanup Tracers.small shm fake cores attached.1
        (some 5)
        (some 6)
        (three, machine)
        attached.2
        stale in
    ((f : ℕ) → fake.is_open r.0.1 f ≡ (fake.is_open machine f && not (tables_hold cores three f)))
    × ((k : ℕ)
        → (Tracers.small.is_open r.1 k ≡ Tracers.small.is_open Tracers.others k)
          × (Tracers.small.is_attached r.1 k ≡ Tracers.small.is_attached Tracers.others k))
    × IsDestroyed shm (small_laws blank) 5 6 stale r.2
cleanup-IsDestroyed_example =
    cleanup-IsDestroyed fake fake-IsKernel Tracers.small Tracers.small_laws shm (small_laws blank)
      cores attached.1 5 6 three machine Tracers.others attached.2 stale
      (attach-IsHeld Tracers.small Tracers.small_laws loaded.1 Tracers.others loaded.2
        (load-IsHeld Tracers.small Tracers.small_laws path Tracers.others)
        (load-unlinked Tracers.small Tracers.small_laws path Tracers.others))

start_daemon-csv_example :
    let r = start_daemon Tracers.small shm blank false path Tracers.others stale in
    (r.0 ≡ exited) × IsShared blank 6 12 (shm.view r.2)
unfolding init_ebpf init_shm ebpf_tracer_load ebpf_tracer_attach rb_create rb_create_dash set
start_daemon-csv_example =
    start_daemon-csv Tracers.small Tracers.small_laws shm (small_laws blank) blank path
      Tracers.others stale attached.1 6 12 refl refl

abbrev first : Tick Kernel
first = record { t_start = t_start; sync_now = t_start; sleep = λ t w. w }

abbrev two : Selection
two = record { pids = 101 ∷ 200 ∷ []; top_n = 0; min_uid = 1000 }

abbrev run : Run fake Tracers.small shm
run = record {
  csv_opens = λ p. false;
  online = 4;
  last_slow = before;
  ticks = first ∷ first ∷ [];
  lib_meanwhile = λ w. w;
  shm_meanwhile = λ w. w;
}

abbrev argv : List (List ℕ)
argv = path ∷ codes "--pids" ∷ codes "101,102" ∷ []

main-IsEnded_example :
    (r : Ending whole fake steady procs Tracers.small shm run) × (main whole fake steady procs
        Tracers.small shm run argv machine Tracers.others stale
      ≡ some r)
    × IsEnded whole fake fake-IsKernel steady procs Tracers.small Tracers.small_laws shm
        (small_laws blank)
        run
        (λ cfg st i s. refl)
        (λ w k. (refl, refl))
        Tracers.others
        stale
        r
main-IsEnded_example =
    main-IsEnded whole fake fake-IsKernel steady procs Tracers.small Tracers.small_laws shm
      (small_laws blank) run (λ cfg st i s. refl) (λ w k. (refl, refl)) argv machine Tracers.others
      stale

-- The daemon without --per-core opens the counters of two processes that are given.
close_slots-run_sampling_loop_example :
    (r : Loop ℕ × Kernel) × (run_sampling_loop whole fake
        (aggregate 0 4)
        steady
        procs
        two
        50
        run.ticks
        (loop_start whole before, machine)
      ≡ some r)
    × ((f : ℕ)
        → fake.is_open (close_slots fake (aggregate 0 4) (r.0.daemon.tables, r.1)).1 f
          ≡ fake.is_open machine f)
close_slots-run_sampling_loop_example =
    close_slots-run_sampling_loop whole fake fake-IsKernel 0 4 (omega arith) steady
      (λ pid w f. refl) procs (λ st i s. refl) two 50 before run.ticks machine
      (and_calm first (first ∷ []) (λ t w f. refl) (and_calm first [] (λ t w f. refl) over))

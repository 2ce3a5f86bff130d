-- ===== src/Monitor/Lifetime.antt =====
-- The start and the end of the daemon, in final/src/monitor_final.c: `init_ebpf`, `init_shm`, what
-- `main` does around the loop, `cleanup` and the handler of fatal signals. An exit is a value. The
-- opening of the CSV file is a Boolean; it is `true` without --csv. Messages are left out.
pub mod Counters
pub mod Start
pub mod Stop
use capstone_monitor.Base.{
  ℕ, ◌^◌, Bool, true, false, ◌||◌, not, Option, none, some, List, [], ◌∷◌, for_below, if◌then◌else◌,
  ◌==◌,
}
use capstone_monitor.LibBpf.{LibBpf}
use capstone_monitor.Os.{Os}
use capstone_monitor.Shm.{Shm}
use capstone_monitor.EbpfTracer.Lifecycle.{
  Handle, cleared, ebpf_tracer_load, ebpf_tracer_attach, ebpf_tracer_destroy,
}
use capstone_monitor.RingBuffer.Shared.{
  shm_name, shm_name_dash, rb_create, rb_create_dash, rb_destroy, rb_destroy_dash,
}
use capstone_monitor.Monitor.{max_cores, Tables, CoreConfig}
use capstone_monitor.Monitor.Args.{not_positive, above}
use capstone_monitor.Monitor.Slots.{close_slot}

-- `g_ncores`, from what sysconf returns as an `int`
unfoldable pub count_cores : ℕ → ℕ
count_cores online = if not_positive online || above online max_cores then 2 else online

-- what `main` starts with: `exited` is exit(1)
pub data Started : Type 0 where
  exited : Started
  running : Handle → ℕ → ℕ → Started

module _ (lib : LibBpf) where
  -- `none` is exit(1)
  unfoldable pub init_ebpf : List ℕ → lib.World → Option Handle × lib.World
  init_ebpf path w =
      let l = ebpf_tracer_load lib path w in
      let a = ebpf_tracer_attach lib l.1 l.2 in
      if not l.0
      then (none, l.2)
      else if not a.0
      then (none, (ebpf_tracer_destroy lib a.1 a.2).1)
      else (some a.1, a.2)

module _ {A : Type 0} (shm : Shm A) where
  -- behind the first ring
  unfoldable pub init_dash : A → ℕ → shm.World → Option (ℕ × ℕ) × shm.World
  init_dash blank rb w =
      let r = rb_create_dash shm blank w in
      elim r.0 [ none ↦ (none, r.1) | some rb_dash ↦ (some (rb, rb_dash), r.1) ]

  -- `none` is exit(1)
  unfoldable pub init_shm : A → shm.World → Option (ℕ × ℕ) × shm.World
  unfolding init_dash
  init_shm blank w =
      let r = rb_create shm blank w in
      elim r.0 [ none ↦ (none, r.1) | some rb ↦ init_dash blank rb r.1 ]

  -- what becomes of the names before the signal is raised again
  unfoldable pub handle_fatal_signal : shm.World → shm.World
  handle_fatal_signal w = shm.shm_unlink shm_name_dash (shm.shm_unlink shm_name w)

  -- the end of `cleanup`: a ring that is NULL is left out
  unfoldable pub destroy_ring : (ℕ → shm.World → shm.World) → Option ℕ → shm.World → shm.World
  destroy_ring destroy none w = w
  destroy_ring destroy (some rb) w = destroy rb w

  unfoldable pub destroy_rings : Option ℕ → Option ℕ → shm.World → shm.World
  unfolding destroy_ring
  destroy_rings rb rb_dash w =
      destroy_ring (rb_destroy_dash shm) rb_dash (destroy_ring (rb_destroy shm) rb w)

-- the counters that `cleanup` closes
unfoldable pub close_slots :
    {D : Type 0} (os : Os) → CoreConfig → Tables D × os.World → Tables D × os.World
close_slots os cfg s = for_below s.0.n_active (close_slot os cfg) s

module _ {A : Type 0} (lib : LibBpf) (shm : Shm A) where
  -- behind `init_ebpf`
  unfoldable pub start_rings :
      A → Bool → Handle → lib.World → shm.World → Started × lib.World × shm.World
  unfolding init_shm
  start_rings blank csv_opens et lw sw =
      let r = init_shm shm blank sw in
      elim r.0 [
        | none ↦ (exited, lw, r.1)
        | some (rb, rb_dash) ↦
            if csv_opens then (running et rb rb_dash, lw, r.1) else (exited, lw, r.1)
      ]

  -- `main` from `init_ebpf` to `run_sampling_loop`
  unfoldable pub start_daemon :
      A → Bool → List ℕ → lib.World → shm.World → Started × lib.World × shm.World
  unfolding init_ebpf start_rings
  start_daemon blank csv_opens path lw sw =
      let r = init_ebpf lib path lw in
      elim r.0 [ none ↦ (exited, r.1, sw) | some et ↦ start_rings blank csv_opens et r.1 sw ]

  unfoldable pub cleanup :
      {D : Type 0} (os : Os)
      → CoreConfig
      → Handle
      → Option ℕ
      → Option ℕ
      → Tables D × os.World
      → lib.World
      → shm.World
      → (Tables D × os.World) × lib.World × shm.World
  unfolding close_slots destroy_rings
  cleanup os cfg et rb rb_dash s lw sw =
      (close_slots os cfg s, (ebpf_tracer_destroy lib et lw).1, destroy_rings shm rb rb_dash sw)

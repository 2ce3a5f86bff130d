-- ===== src/Monitor/Lifetime/Start.antt =====
-- What the start of the daemon, in `main` of final/src/monitor_final.c, leaves on every path.
use capstone_monitor.Base.{
  ℕ, ◌≡◌, ◌≢◌, refl, ap, ◌∙◌, inl, inr, Bool, false, ◌||◌, ◌&&◌, not, Option, none, some, List,
  same_text, if_both, if◌then◌else◌, Bool-cases, arith,
}
use mathlib.Core.Path.{subst}
use capstone_monitor.LibBpf.{LibBpf, LibBpfLaws, vol_ctx_switches, active_pids}
use capstone_monitor.Shm.{View, Shm, ShmLaws}
use capstone_monitor.EbpfTracer.Lifecycle.{
  Handle, cleared, is_some, find_maps, load_object, ebpf_tracer_load, ebpf_tracer_attach,
}
use capstone_monitor.EbpfTracer.Lifecycle.Held.{holds, IsHeld}
use capstone_monitor.EbpfTracer.Lifecycle.Loading.{load-IsHeld, load-unlinked}
use capstone_monitor.EbpfTracer.Lifecycle.Attaching.{attach-IsHeld}
use capstone_monitor.EbpfTracer.Lifecycle.Resources.{destroy-attach-load}
use capstone_monitor.RingBuffer.{rb_init}
use capstone_monitor.RingBuffer.Shared.{shm_name, shm_name_dash, rb_create, rb_create_dash}
use capstone_monitor.RingBuffer.Shared.Created.{IsCreated, rb_create_named-IsCreated}
use capstone_monitor.Monitor.Lifetime.{
  Started, exited, running, init_ebpf, init_dash, init_shm, start_rings, start_daemon,
}

not_missing : {B : Type 0} {x : B} → none ≡ some x → ⊥
not_missing e = grind arith

same_pair : {p q : ℕ × ℕ} → some p ≡ some q → p ≡ q
same_pair e = grind arith

module _ (lib : LibBpf) (laws : LibBpfLaws lib) where
  open lib use {World, is_open, is_attached}

  find_maps-failed :
      (o : ℕ) (w : World) → (find_maps lib o w).0 ≡ false → (find_maps lib o w).1.obj ≡ none
  unfolding find_maps
  find_maps-failed o w =
      let found =
        is_some (lib.map_fd o vol_ctx_switches w) && is_some (lib.map_fd o active_pids w) in
      elim (Bool-cases (not found)) [
        | inl m ↦ rw m (λ h. refl)
        | inr m ↦ rw m (λ h. absurd (grind (arith, h)))
      ]

  -- A tracer that could not be loaded holds no object.
  load-failed :
      (path : List ℕ) (w : World)
      → (ebpf_tracer_load lib path w).0 ≡ false
      → (ebpf_tracer_load lib path w).1.obj ≡ none
  unfolding ebpf_tracer_load load_object
  load-failed path w = by_object (lib.object_open path w).0
    where
      w1 : World
      w1 = (lib.object_open path w).1

      P : Bool × Handle × World → Type 0
      P r = r.0 ≡ false → r.1.obj ≡ none

      by_object :
          (o : Option ℕ)
          → P (elim o [ none ↦ (false, cleared, w1) | some o ↦ load_object lib o w1 ])
      by_object none = λ h. refl
      by_object (some o) =
          if_both P (not (lib.object_load o w1).0) (λ h. refl)
            (find_maps-failed o (lib.object_load o w1).1)

  -- what `init_ebpf` returns and leaves: with exit(1) all is as before
  abbrev pub IsInited : World → Option Handle × World → Type 0
  IsInited v (none, w) = (k : ℕ) → (is_open w k ≡ is_open v k) × (is_attached w k ≡ is_attached v k)
  IsInited v (some et, w) = IsHeld lib laws et v w

  pub init_ebpf-IsInited : (path : List ℕ) (v : World) → IsInited v (init_ebpf lib path v)
  unfolding init_ebpf
  init_ebpf-IsInited path v =
      let l = ebpf_tracer_load lib path v in
      let a = ebpf_tracer_attach lib l.1 l.2 in
      let loaded = load-IsHeld lib laws path v in
      let attached = attach-IsHeld lib laws l.1 v l.2 loaded (load-unlinked lib laws path v) in
      elim (Bool-cases l.0) [
        | inl e ↦
            rw e
              (if_both (IsInited v) (not a.0) (λ k. destroy-attach-load lib laws path v k) attached)
        | inr e ↦ rw e (λ k. (
          loaded.objects k ∙ ap (λ o. holds k o || is_open v k) (load-failed path v e),
          loaded.links k ∙ ap (λ b. b || is_attached v k) (load-unlinked lib laws path v k),
        ))
      ]

-- Both rings are there: each is empty and mapped, under its name, and they are two objects.
pub record IsShared {A : Type 0} (blank : A) (a b : ℕ) (u : View A) : Type 0 where
  pub object : ℕ
  pub object_dash : ℕ
  pub named : u.names shm_name ≡ some object
  pub named_dash : u.names shm_name_dash ≡ some object_dash
  pub at_a : u.maps a ≡ some object
  pub at_b : u.maps b ≡ some object_dash
  pub empty : u.rings object ≡ rb_init blank
  pub empty_dash : u.rings object_dash ≡ rb_init blank
  pub apart : object ≢ object_dash

module _ {A : Type 0} (shm : Shm A) (laws : ShmLaws shm) (blank : A) where
  open shm use {World, view}

  init_shm-made :
      (v u r : View A) (a b : ℕ)
      → IsCreated blank shm_name v (some a) u
      → IsCreated blank shm_name_dash u (some b) r
      → IsShared blank a b r
  unfolding same_text
  init_shm-made v u r a b first second =
      let p = first.made a refl in
      let q = second.made b refl in
      let kept = second.mapped a p.0 p.4 in
      record {
        object = p.0;
        object_dash = q.0;
        named = second.names shm_name refl ∙ p.3;
        named_dash = q.3;
        at_a = kept.0;
        at_b = q.4;
        empty = kept.1 ∙ p.5;
        empty_dash = q.5;
        apart = λ e. q.2 a (p.4 ∙ ap some e);
      }

  -- what `init_shm` returns and leaves: no descriptor stays open, and with both rings, they are there
  pub record IsReady (v : View A) (r : Option (ℕ × ℕ) × World) : Type 0 where
    pub fds : (view r.1).fds ≡ v.fds
    pub shared : (a b : ℕ) → r.0 ≡ some (a, b) → IsShared blank a b (view r.1)

  init_dash-IsReady :
      (v : View A) (a : ℕ) (w : World)
      → IsCreated blank shm_name v (some a) (view w)
      → IsReady v (init_dash shm blank a w)
  unfolding init_dash rb_create_dash
  init_dash-IsReady v a w first =
      by_dash (rb_create_dash shm blank w).0
        (rb_create_named-IsCreated shm laws blank shm_name_dash w)
    where
      w1 : World
      w1 = (rb_create_dash shm blank w).1

      by_dash :
          (x : Option ℕ)
          → IsCreated blank shm_name_dash (view w) x (view w1)
          → IsReady v (elim x [ none ↦ (none, w1) | some d ↦ (some (a, d), w1) ])
      by_dash none second = record {
        fds = second.fds ∙ first.fds;
        shared = λ c b h. absurd (not_missing h);
      }
      by_dash (some d) second = record {
        fds = second.fds ∙ first.fds;
        shared = λ c b h.
            subst (λ (q : ℕ × ℕ). IsShared blank q.0 q.1 (view w1)) (same_pair h)
              (init_shm-made v (view w) (view w1) a d first second);
      }

  pub init_shm-IsReady : (w : World) → IsReady (view w) (init_shm shm blank w)
  unfolding init_shm rb_create
  init_shm-IsReady w =
      by_first (rb_create shm blank w).0 (rb_create_named-IsCreated shm laws blank shm_name w)
    where
      w1 : World
      w1 = (rb_create shm blank w).1

      by_first :
          (x : Option ℕ)
          → IsCreated blank shm_name (view w) x (view w1)
          → IsReady (view w) (elim x [ none ↦ (none, w1) | some a ↦ init_dash shm blank a w1 ])
      by_first none first = record { fds = first.fds; shared = λ a b h. absurd (not_missing h) }
      by_first (some a) first = init_dash-IsReady (view w) a w1 first

module _ {A : Type 0} (lib : LibBpf) (lib_laws : LibBpfLaws lib) (shm : Shm A)
    (shm_laws : ShmLaws shm) (blank : A) where
  open shm use {view}

  -- the states behind a start that exits, and behind one that goes on
  abbrev pub IsStarted : lib.World → shm.World → Started × lib.World × shm.World → Type 0
  IsStarted lw sw (exited, lw', sw') = (view sw').fds ≡ (view sw).fds
  IsStarted lw sw (running et a b, lw', sw') =
      ((view sw').fds ≡ (view sw).fds)
      × IsHeld lib lib_laws et lw lw'
      × IsShared blank a b (view sw')

  start_rings-IsStarted :
      (csv_opens : Bool) (et : Handle) (lw lw' : lib.World) (sw : shm.World)
      → IsHeld lib lib_laws et lw lw'
      → IsStarted lw sw (start_rings lib shm blank csv_opens et lw' sw)
  unfolding start_rings
  start_rings-IsStarted csv_opens et lw lw' sw held =
      let h = init_shm-IsReady shm shm_laws blank sw in by_rings (init_shm shm blank sw).0 h.shared
    where
      sw' : shm.World
      sw' = (init_shm shm blank sw).1

      by_rings :
          (r : Option (ℕ × ℕ))
          → ((a b : ℕ) → r ≡ some (a, b) → IsShared blank a b (view sw'))
          → IsStarted lw sw (elim r [
            | none ↦ (exited, lw', sw')
            | some (a, b) ↦ if csv_opens then (running et a b, lw', sw') else (exited, lw', sw')
          ])
      by_rings none shared = (init_shm-IsReady shm shm_laws blank sw).fds
      by_rings (some (a, b)) shared =
          let fds = (init_shm-IsReady shm shm_laws blank sw).fds in
          if_both (IsStarted lw sw) csv_opens (fds, held, shared a b refl) fds

  -- The start of the daemon keeps no descriptor of a ring open, however it ends. If it goes on to the
  -- loop, the tracer holds exactly what is open and attached besides what was, and both rings are
  -- there: empty, mapped, under their names, and two objects.
  pub start_daemon-IsStarted :
      (csv_opens : Bool) (path : List ℕ) (lw : lib.World) (sw : shm.World)
      → IsStarted lw sw (start_daemon lib shm blank csv_opens path lw sw)
  unfolding start_daemon
  start_daemon-IsStarted csv_opens path lw sw =
      let r = init_ebpf lib path lw in by_tracer r.0 (init_ebpf-IsInited lib lib_laws path lw)
    where
      lw' : lib.World
      lw' = (init_ebpf lib path lw).1

      by_tracer :
          (o : Option Handle)
          → IsInited lib lib_laws lw (o, lw')
          → IsStarted lw sw (elim o [
            | none ↦ (exited, lw', sw)
            | some et ↦ start_rings lib shm blank csv_opens et lw' sw
          ])
      by_tracer none h = refl
      by_tracer (some et) h = start_rings-IsStarted csv_opens et lw lw' sw h

  -- If the tracer and both rings are there and only the CSV file cannot be opened, the daemon exits
  -- and leaves both rings under their names.
  pub start_daemon-csv :
      (path : List ℕ) (lw : lib.World) (sw : shm.World) (et : Handle) (a b : ℕ)
      → (init_ebpf lib path lw).0 ≡ some et
      → (init_shm shm blank sw).0 ≡ some (a, b)
      → let r = start_daemon lib shm blank false path lw sw in
        (r.0 ≡ exited) × IsShared blank a b (view r.2)
  unfolding start_daemon start_rings
  start_daemon-csv path lw sw et a b e h =
      rw (e, start_daemon, h, start_rings)
        (refl, (init_shm-IsReady shm shm_laws blank sw).shared a b h)

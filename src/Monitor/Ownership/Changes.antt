-- ===== src/Monitor/Ownership/Changes.antt =====
-- What `add_pid` and `remove_slot` of final/src/monitor_final.c do to the descriptors that the slots own.
use capstone_monitor.Base.{
  ℕ, suc, ◌+◌, ◌≤◌, ◌<◌, ◌≡◌, refl, sym, ap, ◌∙◌, Bool, false, ◌||◌, ◌&&◌, not, Option, none, leb,
  set, set_self, set_ne, if_both, if_each, arith,
}
use mathlib.Core.Path.{subst}
use capstone_monitor.Double.{Double}
use capstone_monitor.Os.{Os, IsKernel}
use capstone_monitor.PerfCounter.{PerfCounter, zeroed, perf_counter_open}
use capstone_monitor.PerfCounter.Descriptors.{holds, perf_counter_close-is_open}
use capstone_monitor.PerfCounter.Opening.{perf_counter_open-is_open}
use capstone_monitor.Monitor.{max_pids, max_cores, Tables, CoreConfig, Tracer}
use capstone_monitor.Monitor.AddPid.{
  add_pid, clear_counters, fill_slot, open_cores, reset_slot, seed_slot, seed_comm,
}
use capstone_monitor.Monitor.Ownership.{IsOwned, IsOwned-keeps, IsOwned-add}
use capstone_monitor.Monitor.Ownership.Removed.{IsOwned-remove}
use capstone_monitor.Monitor.Removal.{remove_slot-IsMoved, n_active-remove_slot}
use capstone_monitor.Monitor.Slots.{remove_slot, close_slot}

-- the configuration without --per-core
abbrev pub aggregate : ℕ → ℕ → CoreConfig
aggregate mask ncores = record { per_core = false; per_core_mask = mask; ncores = ncores }

-- Every open descriptor that was not open before belongs to one slot in use.
abbrev pub Owned : {D : Type 0} (os : Os) → (ℕ → Bool) → Tables D × os.World → Type 0
Owned os before s = IsOwned before s.0.n_active s.0.perf (os.is_open s.1)

module _ {D : Type 0} (os : Os) (kernel : IsKernel os) (mask ncores : ℕ) (few : ncores ≤ max_cores)
    (before : ℕ → Bool) where
  open os use {World, is_open}

  -- A step that leaves the counters and what is open.
  pub Owned-keeps :
      (s s' : Tables D × World)
      → s'.0.n_active ≡ s.0.n_active
      → ((i : ℕ) → i < s.0.n_active → s'.0.perf i ≡ s.0.perf i)
      → ((f : ℕ) → is_open s'.1 f ≡ is_open s.1 f)
      → Owned os before s
      → Owned os before s'
  Owned-keeps s s' n e h o =
      subst (λ m. IsOwned before m s'.0.perf (is_open s'.1)) (sym n)
        (IsOwned-keeps before s.0.n_active s.0.perf s'.0.perf (is_open s.1) (is_open s'.1) e h o)

  close_slot-is_open :
      (i : ℕ) (s : Tables D × World) (f : ℕ)
      → is_open (remove_slot os (aggregate mask ncores) i s).1 f
        ≡ (is_open s.1 f && not (holds (s.0.perf i) f))
  unfolding remove_slot close_slot
  close_slot-is_open i (t, w) f = (perf_counter_close-is_open os kernel (t.perf i) w f).0

  pub remove_slot-Owned :
      (i : ℕ) (s : Tables D × World)
      → i < s.0.n_active
      → Owned os before s
      → Owned os before (remove_slot os (aggregate mask ncores) i s)
  remove_slot-Owned i s lt o =
      let cfg = aggregate mask ncores in
      let s' = remove_slot os cfg i s in
      subst (λ m. IsOwned before m s'.0.perf (is_open s'.1)) (sym (n_active-remove_slot os cfg i s))
        (IsOwned-remove before s.0.n_active i s.0.perf s'.0.perf (is_open s.1) (is_open s'.1) lt
          (λ j lj. (remove_slot-IsMoved os cfg i j s few lj).1.perf) (close_slot-is_open i s) o)

module _ (d : Double) (os : Os) (kernel : IsKernel os) (mask ncores : ℕ) (few : ncores ≤ max_cores)
    (before : ℕ → Bool) (tracer : Tracer os.World)
    (quiet : (pid : ℕ) (w : os.World) (f : ℕ)
      → os.is_open (tracer.pop_exec_comm pid w).1 f ≡ os.is_open w f) where
  open os use {World, is_open}
  open d use {Carrier}

  -- behind the open: the slot comes into use with its counter
  fill_slot-Owned :
      (pid : ℕ) (t : Tables Carrier) (w : World)
      → IsOwned before (suc t.n_active) t.perf (is_open w)
      → Owned os before (fill_slot d os (aggregate mask ncores) tracer pid t.n_active (t, w))
  unfolding fill_slot open_cores reset_slot seed_slot seed_comm
  fill_slot-Owned pid t w o =
      let n : t.n_active + 1 ≡ suc t.n_active = omega arith in
      subst (λ m. IsOwned before m t.perf (is_open (tracer.pop_exec_comm pid w).1)) (sym n)
        (IsOwned-keeps before (suc t.n_active) t.perf t.perf (is_open w) _ (λ i lt. refl)
          (λ f. quiet pid w f) o)

  pub add_pid-Owned :
      (pid : ℕ) (s : Tables Carrier × World)
      → Owned os before s
      → let r = add_pid d os (aggregate mask ncores) tracer pid s in Owned os before (r.1, r.2)
  unfolding add_pid clear_counters
  add_pid-Owned pid (t, w) o =
      let P = λ (q : Option ℕ × Tables Carrier × World). Owned os before (q.1, q.2) in
      if_both P (leb max_pids i) o (
        if_each (λ b q. r.0 ≡ b → P q) r.0
          (λ e. fill_slot-Owned pid t2 r.2 (
            IsOwned-add before i t.perf t2.perf (is_open w) (is_open r.2) below
              (λ f. (opens f).0 ∙ ap (λ p. is_open w f || holds p f) (sym at))
              (λ f. ap (λ p. holds p f && is_open w f) at ∙ (opens f).1) o))
          (λ e.
            Owned-keeps os kernel mask ncores few before (t, w) (t2, r.2) refl below
              (λ f.
                (opens f).0
                ∙ ap (λ b. is_open w f || b) ((opens f).2 ∙ ap (λ b. b && holds r.1 f) e)
                ∙ or_none (is_open w f))
              o)
          refl)
    where
      i : ℕ
      i = t.n_active

      r : Bool × PerfCounter × World
      r = perf_counter_open os pid none w

      t2 : Tables Carrier
      t2 = record t { perf = set (set t.perf i zeroed) i r.1 }

      at : t2.perf i ≡ r.1
      at = set_self (set t.perf i zeroed) i r.1

      below : (j : ℕ) → j < i → t2.perf j ≡ t.perf j
      below j lt =
          set_ne (set t.perf i zeroed) i j r.1 (λ e. omega (arith, e, lt))
          ∙ set_ne t.perf i j zeroed (λ e. omega (arith, e, lt))

      opens :
          (f : ℕ)
          → (is_open r.2 f ≡ (is_open w f || holds r.1 f))
            × ((holds r.1 f && is_open w f) ≡ false)
            × (holds r.1 f ≡ (r.0 && holds r.1 f))
      opens f = perf_counter_open-is_open os kernel pid none w f

      or_none : (b : Bool) → (b || false) ≡ b
      or_none b = ground arith

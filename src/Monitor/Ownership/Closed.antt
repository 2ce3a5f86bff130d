-- ===== src/Monitor/Ownership/Closed.antt =====
-- The loop of final/src/monitor_final.c from its start, and `cleanup` behind it: what is open at the
-- end.
use capstone_monitor.Base.{
  ℕ, zero, suc, ◌≤◌, ◌≡◌, refl, ap, ap₂, ◌∙◌, inl, inr, Bool, false, ◌⊎◌, ◌||◌, ◌&&◌, not, some,
  List, arith,
}
use capstone_monitor.Double.{Double}
use capstone_monitor.Os.{Os, IsKernel}
use capstone_monitor.PerfCounter.{PerfCounter}
use capstone_monitor.PerfCounter.Descriptors.{holds}
use capstone_monitor.Monitor.{max_cores, Tracer}
use capstone_monitor.Monitor.Deadline.{Timespec}
use capstone_monitor.Monitor.Eviction.Sifted.{IsUnaffected}
use capstone_monitor.Monitor.Lifetime.{close_slots}
use capstone_monitor.Monitor.Lifetime.Counters.{any_below, close_slots-is_open}
use capstone_monitor.Monitor.Ownership.{IsOwned, any_below-cases, any_below-false}
use capstone_monitor.Monitor.Ownership.Changes.{aggregate, Owned}
use capstone_monitor.Monitor.Ownership.Returned.{Calm, run_sampling_loop-Owned}
use capstone_monitor.Monitor.Program.{zero_tables, loop_start}
use capstone_monitor.Monitor.SyncPids.{Selection, Processes}
use capstone_monitor.Monitor.SyncPids.Valid.{IsValid}
use capstone_monitor.Monitor.Ticks.{Loop, Tick, run_sampling_loop}
use capstone_monitor.Monitor.Ticks.Invariant.{run_sampling_loop-IsValid}

-- With no cores apart, a slot holds what its counter holds.
any_below-slot :
    (n : ℕ) (p : ℕ → Bool) (q : ℕ → Bool) → any_below n (λ i. p i || (false && q i)) ≡ any_below n p
any_below-slot zero p q = refl
any_below-slot (suc n) p q = ap₂ ◌||◌ (any_below-slot n p q) (left (p n) (q n))
  where
    left : (a b : Bool) → (a || (false && b)) ≡ a
    left a b = ground arith

-- What a slot holds was not open before.
owned-new :
    (before : ℕ → Bool) (n : ℕ) (perf : ℕ → PerfCounter) (opened : ℕ → Bool) (f : ℕ)
    → IsOwned before n perf opened
    → (opened f && not (any_below n (λ i. holds (perf i) f))) ≡ before f
owned-new before n perf opened f o = elim (any_below-cases n (λ i. holds (perf i) f)) [
  | inl (i, lt, h) ↦ minus (before f) _ _ (o.exact f) (inl (o.new i f lt h))
  | inr none_held ↦ minus (before f) _ _ (o.exact f) (inr (any_below-false n _ none_held))
]
  where
    minus : (a b c : Bool) → c ≡ (a || b) → ((a ≡ false) ⊎ (b ≡ false)) → (c && not b) ≡ a
    minus a b c e (inl h) = ground (arith, e, h)
    minus a b c e (inr h) = ground (arith, e, h)

module _ (d : Double) (os : Os) (kernel : IsKernel os) (mask ncores : ℕ) (few : ncores ≤ max_cores)
    (tracer : Tracer os.World)
    (quiet : (pid : ℕ) (w : os.World) (f : ℕ)
      → os.is_open (tracer.pop_exec_comm pid w).1 f ≡ os.is_open w f)
    (procs : Processes os.World)
    (unaffected : IsUnaffected d.Carrier os
      (aggregate mask ncores)
      (λ st w. procs.is_gone st.pid w))
    (sel : Selection) (interval_ms : ℕ) where
  open os use {World, is_open}
  open d use {Carrier}

  started-Owned :
      (last_slow : Timespec) (w : World)
      → Owned os (is_open w) ((loop_start d last_slow).daemon.tables, w)
  unfolding loop_start zero_tables
  started-Owned last_slow w = record {
    exact = λ f. or_none (is_open w f);
    new = λ i f lt h. absurd (omega (arith, lt));
    apart = λ i j f li lj ne h. absurd (omega (arith, li));
  }
    where
      or_none : (b : Bool) → b ≡ (b || false)
      or_none b = ground arith

  started-IsValid : (last_slow : Timespec) → IsValid (loop_start d last_slow).daemon.tables
  unfolding loop_start zero_tables
  started-IsValid last_slow = record { few = omega arith; distinct = λ j k hj hk h. omega arith }

  -- Without --per-core, if a sleep of the loop and a read of the tracer's queue open and close
  -- nothing: the loop that starts with no slots ends, and behind it and `cleanup` exactly those
  -- descriptors are open that were open before. No counter that the loop has opened is lost, whether
  -- its process was evicted, has exited or runs on, and no descriptor of another owner is closed.
  pub close_slots-run_sampling_loop :
      (last_slow : Timespec) (cs : List (Tick World)) (w : World)
      → Calm os cs
      → (r : Loop Carrier × World) × (run_sampling_loop d os
            (aggregate mask ncores)
            tracer
            procs
            sel
            interval_ms
            cs
            (loop_start d last_slow, w)
          ≡ some r)
        × ((f : ℕ)
            → is_open (close_slots os (aggregate mask ncores) (r.0.daemon.tables, r.1)).1 f
              ≡ is_open w f)
  close_slots-run_sampling_loop last_slow cs w calm =
      let cfg = aggregate mask ncores in
      let s : Loop Carrier × World = (loop_start d last_slow, w) in
      let r =
        run_sampling_loop-IsValid d os cfg tracer procs few unaffected sel interval_ms cs s
          (started-IsValid last_slow) in
      let t = r.0.0.daemon.tables in
      let o =
        run_sampling_loop-Owned d os kernel mask ncores few (is_open w) tracer quiet procs sel
          interval_ms cs s calm (started-Owned last_slow w) r.0 r.1 in
      (
        r.0,
        r.1,
        λ f.
            close_slots-is_open os kernel cfg t r.0.1 f
            ∙ ap (λ b. is_open r.0.1 f && not b)
                (any_below-slot t.n_active (λ i. holds (t.perf i) f)
                  (λ i. any_below ncores (λ c. holds (t.perf_pc i c) f)))
            ∙ owned-new (is_open w) t.n_active t.perf (is_open r.0.1) f o,
      )

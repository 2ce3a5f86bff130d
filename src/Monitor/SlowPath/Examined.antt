-- ===== src/Monitor/SlowPath/Examined.antt =====
-- The slow path of final/src/monitor_final.c skips no slot.
use capstone_monitor.Base.{
  ℕ, suc, ◌+◌, ◌-◌, ◌≤◌, ◌<◌, ◌≡◌, refl, sym, ap, ◌∙◌, List, ◌==◌, if◌then◌else◌, eq→==, ne→==,
  arith,
}
use capstone_monitor.Double.{Double}
use capstone_monitor.Os.{Os}
use capstone_monitor.Monitor.{max_cores, CoreConfig, Tracer, Daemon}
use capstone_monitor.Monitor.Removal.{remove_slot-IsMoved}
use capstone_monitor.Monitor.SlowPath.SlotCounts.{hit, slots_of, slots_of-same, slots_of-removed}
use capstone_monitor.Monitor.SlowPath.Kept.{pids-slow_slot}
use capstone_monitor.Monitor.SlowPath.{slow_slot, exit_slot}
use capstone_monitor.Monitor.SlowPath.Visits.{
  count, Visits, stop, exited, sampled, n_active-exit_slot, n_active-slow_slot,
}

module _ (d : Double) (os : Os) (cfg : CoreConfig) (tracer : Tracer os.World) (now : ℕ)
    (dt : d.Carrier) (limit : ℕ) where
  open os use {World}
  open d use {Carrier}

  exit_slot-IsMoved :
      (i j : ℕ) (s : Daemon Carrier × World)
      → cfg.ncores ≤ max_cores
      → j < s.0.tables.n_active - 1
      → (exit_slot d os cfg tracer now i s).0.tables.states j
        ≡ s.0.tables.states (if i == j then s.0.tables.n_active - 1 else j)
  unfolding exit_slot
  exit_slot-IsMoved i j (s, w) few h = (remove_slot-IsMoved os cfg i j (s.tables, w) few h).1.states

  exit_slot-stays :
      (i j : ℕ) (s : Daemon Carrier × World)
      → cfg.ncores ≤ max_cores
      → i < j
      → j < s.0.tables.n_active - 1
      → (exit_slot d os cfg tracer now i s).0.tables.states j ≡ s.0.tables.states j
  exit_slot-stays i j s few lt h =
      let e : (if i == j then s.0.tables.n_active - 1 else j) ≡ j =
        rw (ne→== i j (λ p. omega (arith, p, lt))) in
      exit_slot-IsMoved i j s few h ∙ ap s.0.tables.states e

  exit_slot-comes :
      (i k : ℕ) (s : Daemon Carrier × World)
      → cfg.ncores ≤ max_cores
      → i < s.0.tables.n_active - 1
      → i + k ≡ s.0.tables.n_active - 1
      → (exit_slot d os cfg tracer now i s).0.tables.states i ≡ s.0.tables.states (i + k)
  exit_slot-comes i k s few h at =
      let e : (if i == i then s.0.tables.n_active - 1 else i) ≡ i + k =
        rw (eq→== i i refl) (sym at) in
      exit_slot-IsMoved i i s few h ∙ ap s.0.tables.states e

  -- With at most MAX_CORES cores, and rounds from slot `i` that the display limit does not cut short,
  -- the loop of the slow path examines each slot from `i` on exactly once, also behind removals: every
  -- pid is examined as often as slots are for it at the start.
  pub count-Visits :
      (p : ℕ) {i displayed : ℕ} {s s' : Daemon Carrier × World} {ps : List ℕ}
      → cfg.ncores ≤ max_cores
      → s.0.tables.n_active + displayed ≤ limit + i
      → Visits d os cfg tracer now dt limit i displayed s s' ps
      → count p ps ≡ slots_of p s.0.tables.states i (s.0.tables.n_active - i)
  count-Visits p few enough (stop i displayed s e) =
      let z : 0 ≡ s.0.tables.n_active - i = ground arith in ap (slots_of p s.0.tables.states i) z
  count-Visits p few enough (exited i displayed s s' ps lt gone v) =
      let u = exit_slot d os cfg tracer now i s in
      let k = u.0.tables.n_active - i in
      let less = n_active-exit_slot d os cfg tracer now dt limit i s in
      let rest = count-Visits p few (omega (arith, less, enough, lt)) v in
      let size : suc k ≡ s.0.tables.n_active - i = omega (arith, less, lt) in
      let moved =
        slots_of-removed p s.0.tables.states u.0.tables.states i k
          (λ j a b. exit_slot-stays i j s few a (omega (arith, b, less, a)))
          (λ pos.
            exit_slot-comes i k s few (omega (arith, pos, less)) (omega (arith, pos, less))) in
      ap (λ (c : ℕ). hit p (s.0.tables.states i).pid + c) rest
      ∙ sym moved
      ∙ ap (slots_of p s.0.tables.states i) size
  count-Visits p few enough (sampled i displayed cur s s' ps lt read v) =
      let u = slow_slot d os cfg tracer now dt i cur s in
      let k = u.0.tables.n_active - (i + 1) in
      let same = n_active-slow_slot d os cfg tracer now dt limit i cur s in
      let rest = count-Visits p few (omega (arith, same, enough)) v in
      let size : suc k ≡ s.0.tables.n_active - i = omega (arith, same, lt) in
      let pids_same = slots_of-same p s.0.tables.states u.0.tables.states (i + 1) k (λ j a b.
        ap (λ (v : ℕ × (ℕ → ℕ)). v.1 j) (pids-slow_slot d os cfg tracer now dt i cur s)) in
      ap (λ (c : ℕ). hit p (s.0.tables.states i).pid + c) (rest ∙ pids_same)
      ∙ ap (slots_of p s.0.tables.states i) size

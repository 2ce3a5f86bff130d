-- ===== src/Monitor/Removal.antt =====
-- `remove_slot` of final/src/monitor_final.c keeps the parallel arrays in step: whatever is stored
-- of a slot moves together.
use capstone_monitor.Base.{
  ℕ, ◌-◌, ◌≤◌, ◌<◌, ◌≡◌, ◌≢◌, refl, inl, inr, set, set_ne, for_below-keeps, for_below_inv,
  set_cell-ne_row, arith, Bool-cases, ◌==◌, if◌then◌else◌,
}
use mathlib.Core.Path.{subst}
use capstone_monitor.Os.{Os}
use capstone_monitor.PerfCounter.{perf_counter_close}
use capstone_monitor.Monitor.{max_cores, Tables, CoreConfig}
use capstone_monitor.Monitor.Slots.{close_core, close_slot, move_last, remove_slot}
use capstone_monitor.Monitor.Moved.{
  IsMoved, IsMoved-trans, count-IsMoved, perf-IsMoved, perf_pc-IsMoved,
}
use capstone_monitor.Monitor.MoveLast.{source-ne, n_active-move_last, move_last-IsMoved}

module _ {D : Type 0} (os : Os) (cfg : CoreConfig) where
  open os use {World}

  close_core-IsMoved :
      (i j c : ℕ) (s : Tables D × World)
      → i ≢ j
      → IsMoved cfg.ncores s.0 j (close_core os cfg i c s).0 j
  unfolding close_core
  close_core-IsMoved i j c (t, w) h =
      perf_pc-IsMoved cfg.ncores t j _ (set_cell-ne_row t.perf_pc i j c _ h)

  -- Closing the counters of slot `i` leaves the other slots where they are.
  close_slot-IsMoved :
      (i j : ℕ) (s : Tables D × World)
      → i ≢ j
      → IsMoved cfg.ncores s.0 j (close_slot os cfg i s).0 j
  unfolding close_slot
  close_slot-IsMoved i j (t, w) h =
      let r = perf_counter_close os (t.perf i) w in
      let t' : Tables D = record t { perf = set t.perf i r.0 } in
      let first = perf-IsMoved cfg.ncores t i j (set t.perf i r.0) (set_ne t.perf i j r.0 h) in
      elim (Bool-cases cfg.per_core) [
        | inl e ↦ rw e (
            for_below_inv (λ s. IsMoved cfg.ncores t j s.0 j) (close_core os cfg i) cfg.ncores
              (t', r.1)
              (λ c s m. IsMoved-trans cfg.ncores t s.0 _ j j j m (close_core-IsMoved i j c s h))
              first)
        | inr e ↦ rw e first
      ]

  n_active-close_slot :
      (i : ℕ) (s : Tables D × World) → (close_slot os cfg i s).0.n_active ≡ s.0.n_active
  unfolding close_slot close_core
  n_active-close_slot i (t, w) =
      let r = perf_counter_close os (t.perf i) w in
      let t' : Tables D = record t { perf = set t.perf i r.0 } in
      elim (Bool-cases cfg.per_core) [
        | inl e ↦ rw e (
            for_below-keeps (λ s. s.0.n_active) (close_core os cfg i) cfg.ncores (t', r.1)
              (λ c s. refl))
        | inr e ↦ rw e
      ]

  pub n_active-remove_slot :
      (i : ℕ) (s : Tables D × World) → (remove_slot os cfg i s).0.n_active ≡ s.0.n_active - 1
  unfolding remove_slot
  n_active-remove_slot i s =
      omega (arith, n_active-move_last cfg i (close_slot os cfg i s).0, n_active-close_slot i s)

  -- After `remove_slot(i)` one slot less is in use, every slot below the old
  -- last one but `i` is where it was, and slot `i`, unless it was the last, is the old last slot,
  -- with all that the parallel arrays store of it and of its cores (at most MAX_CORES).
  pub remove_slot-IsMoved :
      (i j : ℕ) (s : Tables D × World)
      → cfg.ncores ≤ max_cores
      → j < s.0.n_active - 1
      → let t' = (remove_slot os cfg i s).0 in
        (t'.n_active ≡ s.0.n_active - 1)
        × IsMoved cfg.ncores s.0 (if i == j then s.0.n_active - 1 else j) t' j
  unfolding remove_slot
  remove_slot-IsMoved i j s few hj =
      let same = n_active-close_slot i s in
      let u = (close_slot os cfg i s).0 in
      let k = if i == j then s.0.n_active - 1 else j in
      let move : IsMoved cfg.ncores u k (move_last cfg i u) j =
        subst (λ m. IsMoved cfg.ncores u (if i == j then m - 1 else j) (move_last cfg i u) j) same
          (move_last-IsMoved cfg i j u few (omega (arith, same, hj))) in
      (
        omega (arith, n_active-move_last cfg i u, same),
        count-IsMoved cfg.ncores s.0 (move_last cfg i u) k j _ (
            IsMoved-trans cfg.ncores s.0 u (move_last cfg i u) k k j
              (close_slot-IsMoved i k s (source-ne i j (s.0.n_active - 1) hj)) move),
      )

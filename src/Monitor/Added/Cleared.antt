-- ===== src/Monitor/Added/Cleared.antt =====
-- The counters of the cores that `add_pid` of final/src/monitor_final.c clears and does not open, and
-- what `remove_slot` then closes.
use capstone_monitor.Base.{
  ℕ, zero, suc, ◌≤◌, ◌<◌, ◌≡◌, refl, ap, ◌∙◌, inl, inr, Bool, true, false, none, some, leb, ◌&&◌,
  ◌||◌, not, Array, set, set_self, set_cell, set_cell_self, set_cell-ne_col, for_below,
  for_below-field, eq_cases, arith,
}
use capstone_monitor.Double.{Double}
use capstone_monitor.Os.{Os, IsKernel}
use capstone_monitor.PerfCounter.{PerfCounter, zeroed, perf_counter_open}
use capstone_monitor.PerfCounter.Descriptors.{holds}
use capstone_monitor.PerfCounter.Opening.{perf_counter_open-is_open}
use capstone_monitor.Monitor.{max_pids, max_cores, Tables, CoreConfig, Tracer}
use capstone_monitor.Monitor.AddPid.{
  clear_counters, open_cores, reset_slot, seed_slot, seed_comm, fill_slot, add_pid,
}
use capstone_monitor.Monitor.Added.Stored.{perf-fill_slot}
use capstone_monitor.Monitor.Lifetime.Counters.{any_below, close_slot-SlotClosed}
use capstone_monitor.Monitor.Ownership.{any_below-true}
use capstone_monitor.Monitor.Slots.{remove_slot}

cells_cleared :
    (i c n : ℕ) (a : Array (Array PerfCounter))
    → c < n
    → for_below n (λ k b. set_cell b i k zeroed) a i c ≡ zeroed
unfolding for_below
cells_cleared i c zero a lt = absurd (omega (arith, lt))
cells_cleared i c (suc n) a lt =
    let b = for_below n (λ k b. set_cell b i k zeroed) a in
    elim (eq_cases n c) [
      | inl e ↦ rw (← e) (set_cell_self b i n zeroed)
      | inr ne ↦ set_cell-ne_col b i n c zeroed ne ∙ cells_cleared i c n a (omega (arith, lt, ne))
    ]

and_false : (a b : Bool) → (a && b) ≡ false → b ≡ true → a ≡ false
and_false a b h e = ground (arith, h, e)

nothing_left : (a b c k : Bool) → k ≡ true → c ≡ true → (a && not (b || (k && c))) ≡ false
nothing_left a b c k e h = ground (arith, e, h)

module _ (d : Double) (os : Os) (kernel : IsKernel os) (cfg : CoreConfig) (tracer : Tracer os.World)
    (few : cfg.ncores ≤ max_cores) where
  open os use {World, is_open}
  open d use {Carrier}

  perf_pc-clear_counters :
      (i c : ℕ) (t : Tables Carrier)
      → cfg.per_core ≡ true
      → c < cfg.ncores
      → (clear_counters d os cfg tracer i t).perf_pc i c ≡ zeroed
  unfolding clear_counters
  perf_pc-clear_counters i c t per_core lt = rw per_core (
      ap (λ (a : Array (Array PerfCounter)). a i c)
        (for_below-field (λ (u : Tables Carrier). u.perf_pc) _ (λ k b. set_cell b i k zeroed)
          cfg.ncores (record t { perf = set t.perf i zeroed }) (λ k u. refl))
      ∙ cells_cleared i c cfg.ncores t.perf_pc lt)

  perf_pc-fill_slot :
      (pid i : ℕ) (s : Tables Carrier × World)
      → (s.0.perf i).hw_available ≡ false
      → (fill_slot d os cfg tracer pid i s).0.perf_pc ≡ s.0.perf_pc
  unfolding fill_slot reset_slot seed_slot seed_comm open_cores
  perf_pc-fill_slot pid i s e = rw (e, and_nothing cfg.per_core) refl
    where
      and_nothing : (a : Bool) → (a && false) ≡ false
      and_nothing a = ground arith

  -- With --per-core, from one to MAX_CORES cores, and a free slot: let standard input be open, and the
  -- counter of a process open as a software clock only. Then `add_pid` fills the slot, whose own
  -- counter does not hold descriptor 0; but `remove_slot` of that slot, in whatever state of the
  -- kernel, closes descriptor 0.
  pub remove_slot-add_pid :
      (pid : ℕ) (t : Tables Carrier) (w w' : World)
      → cfg.per_core ≡ true
      → 0 < cfg.ncores
      → t.n_active < max_pids
      → is_open w 0 ≡ true
      → (perf_counter_open os pid none w).0 ≡ true
      → (perf_counter_open os pid none w).1.hw_available ≡ false
      → let r = add_pid d os cfg tracer pid (t, w) in
        (r.0 ≡ some t.n_active)
        × (holds (r.1.perf t.n_active) 0 ≡ false)
        × (is_open (remove_slot os cfg t.n_active (r.1, w')).1 0 ≡ false)
  unfolding add_pid remove_slot
  remove_slot-add_pid pid t w w' per_core cores room input opened soft =
      let i = t.n_active in
      let o = perf_counter_open os pid none w in
      let t1 = clear_counters d os cfg tracer i t in
      let t2 : Tables Carrier = record t1 { perf = set t1.perf i o.1 } in
      let u = (fill_slot d os cfg tracer pid i (t2, o.2)).0 in
      let free : leb max_pids i ≡ false = ground (arith, room) in
      let at : t2.perf i ≡ o.1 = set_self t1.perf i o.1 in
      let own : u.perf i ≡ o.1 =
        ap (λ a. a i) (perf-fill_slot d os cfg tracer few pid i (t2, o.2)) ∙ at in
      let core : u.perf_pc i 0 ≡ zeroed =
        ap (λ (a : Array (Array PerfCounter)). a i 0)
          (perf_pc-fill_slot pid i (t2, o.2) (ap (λ (p : PerfCounter). p.hw_available) at ∙ soft))
        ∙ perf_pc-clear_counters i 0 t per_core cores in
      let held : any_below cfg.ncores (λ c. holds (u.perf_pc i c) 0) ≡ true =
        any_below-true cfg.ncores 0 _ cores (ap (λ p. holds p 0) core) in
      rw (free, opened)
        (
          refl,
          ap (λ p. holds p 0) own
              ∙ and_false _ (is_open w 0) (perf_counter_open-is_open os kernel pid none w 0).1
                  input,
          (close_slot-SlotClosed os kernel cfg i u w').opened 0
              ∙ nothing_left (is_open w' 0) (holds (u.perf i) 0)
                  (any_below cfg.ncores (λ c. holds (u.perf_pc i c) 0)) cfg.per_core per_core held,
        )

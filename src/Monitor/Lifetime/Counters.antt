-- ===== src/Monitor/Lifetime/Counters.antt =====
-- Which descriptors `cleanup` of final/src/monitor_final.c closes.
use capstone_monitor.Base.{
  ℕ, zero, suc, ◌≤◌, ◌≡◌, ◌≢◌, refl, ap, ap₂, ◌∙◌, Bool, false, ◌||◌, ◌&&◌, not, set, set_ne,
  set_cell-ne_row, set_cell-ne_col, for_below, if_each, arith,
}
use capstone_monitor.Os.{Os, IsKernel}
use capstone_monitor.PerfCounter.{perf_counter_close}
use capstone_monitor.PerfCounter.Descriptors.{holds, or-false, perf_counter_close-is_open}
use capstone_monitor.Monitor.{Tables, CoreConfig}
use capstone_monitor.Monitor.Lifetime.{close_slots}
use capstone_monitor.Monitor.Slots.{close_core, close_slot}

-- whether one of the numbers below `n` passes the test
abbrev pub any_below : ℕ → (ℕ → Bool) → Bool
any_below zero p = false
any_below (suc n) p = any_below n p || p n

-- whether a slot, and whether one of the slots in use, holds the descriptor
abbrev pub slot_holds : {D : Type 0} → CoreConfig → Tables D → ℕ → ℕ → Bool
slot_holds cfg t f i =
    holds (t.perf i) f || (cfg.per_core && any_below cfg.ncores (λ c. holds (t.perf_pc i c) f))

abbrev pub tables_hold : {D : Type 0} → CoreConfig → Tables D → ℕ → Bool
tables_hold cfg t f = any_below t.n_active (slot_holds cfg t f)

minus_both : (a b c : Bool) → ((a && not b) && not c) ≡ (a && not (b || c))
minus_both a b c = ground arith

module _ {D : Type 0} (os : Os) (kernel : IsKernel os) (cfg : CoreConfig) where
  open os use {World, is_open}

  -- The counters of one slot for the cores below `n` are closed, the others stay.
  record CoresClosed (i n : ℕ) (t : Tables D) (w : World) (r : Tables D × World) : Type 0 where
    opened :
        (f : ℕ) → is_open r.1 f ≡ (is_open w f && not (any_below n (λ c. holds (t.perf_pc i c) f)))
    cells : (c : ℕ) → n ≤ c → r.0.perf_pc i c ≡ t.perf_pc i c
    rows : (j : ℕ) → i ≢ j → r.0.perf_pc j ≡ t.perf_pc j
    perf : r.0.perf ≡ t.perf

  close_cores-CoresClosed :
      (i n : ℕ) (t : Tables D) (w : World)
      → CoresClosed i n t w (for_below n (close_core os cfg i) (t, w))
  unfolding for_below close_core
  close_cores-CoresClosed i zero t w = record {
    opened = λ f. ground arith;
    cells = λ c h. refl;
    rows = λ j h. refl;
    perf = refl;
  }
  close_cores-CoresClosed i (suc n) t w =
      let s = for_below n (close_core os cfg i) (t, w) in
      let h = close_cores-CoresClosed i n t w in
      let closed = perf_counter_close os (s.0.perf_pc i n) s.1 in
      record {
        opened = λ f.
            (perf_counter_close-is_open os kernel (s.0.perf_pc i n) s.1 f).0
            ∙ ap₂ (λ a b. a && not b) (h.opened f) (ap (λ p. holds p f) (h.cells n (omega arith)))
            ∙ minus_both (is_open w f) (any_below n (λ c. holds (t.perf_pc i c) f))
                (holds (t.perf_pc i n) f);
        cells = λ c le.
            set_cell-ne_col s.0.perf_pc i n c closed.0 (λ e. omega arith) ∙ h.cells c (omega arith);
        rows = λ j ne. set_cell-ne_row s.0.perf_pc i j n closed.0 ne ∙ h.rows j ne;
        perf = h.perf;
      }

  -- The counters of the slot are closed, those of the cores with `per_core` only; those of the other
  -- slots stay.
  pub record SlotClosed (per_core : Bool) (i : ℕ) (t : Tables D) (w : World) (r : Tables D × World)
      : Type 0 where
    pub opened :
        (f : ℕ)
        → is_open r.1 f ≡ (
            is_open w f
            && not (
                holds (t.perf i) f
                || (per_core && any_below cfg.ncores (λ c. holds (t.perf_pc i c) f))))
    pub perf : (j : ℕ) → i ≢ j → r.0.perf j ≡ t.perf j
    pub rows : (j : ℕ) → i ≢ j → r.0.perf_pc j ≡ t.perf_pc j

  pub close_slot-SlotClosed :
      (i : ℕ) (t : Tables D) (w : World)
      → SlotClosed cfg.per_core i t w (close_slot os cfg i (t, w))
  unfolding close_slot
  close_slot-SlotClosed i t w =
      let r = perf_counter_close os (t.perf i) w in
      let t' : Tables D = record t { perf = set t.perf i r.0 } in
      let closed = λ (f : ℕ). (perf_counter_close-is_open os kernel (t.perf i) w f).0 in
      let h = close_cores-CoresClosed i cfg.ncores t' r.1 in
      if_each (λ b q. SlotClosed b i t w q) cfg.per_core
        (record {
          opened = λ f.
              h.opened f
              ∙ ap (λ a. a && not (any_below cfg.ncores (λ c. holds (t.perf_pc i c) f))) (closed f)
              ∙ minus_both (is_open w f) (holds (t.perf i) f)
                  (any_below cfg.ncores (λ c. holds (t.perf_pc i c) f));
          perf = λ j n. ap (λ p. p j) h.perf ∙ set_ne t.perf i j r.0 n;
          rows = h.rows;
        })
        (record {
          opened = λ f. closed f ∙ ap (λ b. is_open w f && not b) (or-false (holds (t.perf i) f));
          perf = λ j n. set_ne t.perf i j r.0 n;
          rows = λ j n. refl;
        })

  -- The counters of the slots below `n` are closed, those of the others stay.
  record SlotsClosed (n : ℕ) (t : Tables D) (w : World) (r : Tables D × World) : Type 0 where
    opened : (f : ℕ) → is_open r.1 f ≡ (is_open w f && not (any_below n (slot_holds cfg t f)))
    perf : (j : ℕ) → n ≤ j → r.0.perf j ≡ t.perf j
    rows : (j : ℕ) → n ≤ j → r.0.perf_pc j ≡ t.perf_pc j

  close_slots-SlotsClosed :
      (n : ℕ) (t : Tables D) (w : World)
      → SlotsClosed n t w (for_below n (close_slot os cfg) (t, w))
  unfolding for_below
  close_slots-SlotsClosed zero t w = record {
    opened = λ f. ground arith;
    perf = λ j h. refl;
    rows = λ j h. refl;
  }
  close_slots-SlotsClosed (suc n) t w =
      let s = for_below n (close_slot os cfg) (t, w) in
      let h = close_slots-SlotsClosed n t w in
      let k = close_slot-SlotClosed n s.0 s.1 in
      record {
        opened = λ f.
            k.opened f
            ∙ ap₂ (λ a b. a && not b) (h.opened f)
                (ap₂
                  (λ p q. holds p f || (cfg.per_core && any_below cfg.ncores (λ c. holds (q c) f)))
                  (h.perf n (omega arith)) (h.rows n (omega arith)))
            ∙ minus_both (is_open w f) (any_below n (slot_holds cfg t f)) (slot_holds cfg t f n);
        perf = λ j le. k.perf j (λ e. omega arith) ∙ h.perf j (omega arith);
        rows = λ j le. k.rows j (λ e. omega arith) ∙ h.rows j (omega arith);
      }

  -- `cleanup` closes every descriptor that a counter of a slot in use holds, those of the cores
  -- with `per_core` only, and no other one.
  pub close_slots-is_open :
      (t : Tables D) (w : World) (f : ℕ)
      → is_open (close_slots os cfg (t, w)).1 f ≡ (is_open w f && not (tables_hold cfg t f))
  unfolding close_slots
  close_slots-is_open t w f = (close_slots-SlotsClosed t.n_active t w).opened f

-- ===== src/Monitor/MoveLast.antt =====
-- The move of the last slot in `remove_slot` of final/src/monitor_final.c, array by array.
use capstone_monitor.Base.{
  ℕ, ◌-◌, ◌≤◌, ◌<◌, ◌≡◌, ◌≢◌, refl, sym, ap, ◌∙◌, inl, inr, false, set, set_self, set_ne, for_below,
  for_below-keeps, for_below-field, copy_cell, copy-row, copy-other_row, arith, eq_cases, ◌==◌,
  if◌then◌else◌, eq→==, ne→==,
}
use mathlib.Core.Path.{subst}
use capstone_monitor.Monitor.{max_cores, pc_idx, Tables, CoreConfig}
use capstone_monitor.Monitor.Slots.{swap_timestamps, move_core, move_slot, move_last}
use capstone_monitor.Monitor.Moved.{IsMoved, IsMoved-refl}
use capstone_monitor.Monitor.Timestamps.{swap-moved, swap-other_slot}

module _ {D : Type 0} (n : ℕ) (i last : ℕ) (ne : i ≢ last) (few : n ≤ max_cores)
    (t : Tables D) where
  -- the arrays behind the loop over the cores
  moved : Tables D
  moved = for_below n (move_core i last) (move_slot i last t)

  moved-keeps :
      {A : Type 0} (field : Tables D → A)
      → ((c : ℕ) (u : Tables D) → field (move_core i last c u) ≡ field u)
      → field moved ≡ field (move_slot i last t)
  unfolding moved
  moved-keeps field h = for_below-keeps field (move_core i last) n (move_slot i last t) h

  -- The slot that was last stands at `i`.
  moved-IsMoved : IsMoved n t last moved i
  unfolding move_core move_slot moved
  moved-IsMoved = record {
    states = ap (λ f. f i) (moved-keeps (λ u. u.states) (λ c u. refl)) ∙ set_self t.states i _;
    win_ipc = ap (λ f. f i) (moved-keeps (λ u. u.win_ipc) (λ c u. refl)) ∙ set_self t.win_ipc i _;
    win_llc = ap (λ f. f i) (moved-keeps (λ u. u.win_llc) (λ c u. refl)) ∙ set_self t.win_llc i _;
    win_ctx = ap (λ f. f i) (moved-keeps (λ u. u.win_ctx) (λ c u. refl)) ∙ set_self t.win_ctx i _;
    win_io = ap (λ f. f i) (moved-keeps (λ u. u.win_io) (λ c u. refl)) ∙ set_self t.win_io i _;
    perf = ap (λ f. f i) (moved-keeps (λ u. u.perf) (λ c u. refl)) ∙ set_self t.perf i _;
    last_sm = ap (λ f. f i) (moved-keeps (λ u. u.last_sm) (λ c u. refl)) ∙ set_self t.last_sm i _;
    last_sm_pc =
        ap (λ f. f i) (moved-keeps (λ u. u.last_sm_pc) (λ c u. refl)) ∙ set_self t.last_sm_pc i _;
    comm = ap (λ f. f i) (moved-keeps (λ u. u.comm) (λ c u. refl)) ∙ set_self t.comm i _;
    last_sm_valid =
        ap (λ f. f i) (moved-keeps (λ u. u.last_sm_valid) (λ c u. refl))
        ∙ set_ne (set t.last_sm_valid i _) last i false (λ e. ne (sym e))
        ∙ set_self t.last_sm_valid i _;
    last_sm_timestamp =
        ap (λ f. f i) (moved-keeps (λ u. u.last_sm_timestamp) (λ c u. refl))
        ∙ set_ne (set t.last_sm_timestamp i _) last i 0 (λ e. ne (sym e))
        ∙ set_self t.last_sm_timestamp i _;
    perf_pc = λ c h.
        ap (λ f. f i c)
          (for_below-field (λ u. u.perf_pc) (move_core i last) (copy_cell i last) n
            (move_slot i last t) (λ k u. refl))
        ∙ copy-row i last n c t.perf_pc ne h;
    win_ipc_pc = λ c h.
        ap (λ f. f i c)
          (for_below-field (λ u. u.win_ipc_pc) (move_core i last) (copy_cell i last) n
            (move_slot i last t) (λ k u. refl))
        ∙ copy-row i last n c t.win_ipc_pc ne h;
    win_llc_pc = λ c h.
        ap (λ f. f i c)
          (for_below-field (λ u. u.win_llc_pc) (move_core i last) (copy_cell i last) n
            (move_slot i last t) (λ k u. refl))
        ∙ copy-row i last n c t.win_llc_pc ne h;
    core_prev = λ c h.
        ap (λ f. f i c)
          (for_below-field (λ u. u.core_prev) (move_core i last) (copy_cell i last) n
            (move_slot i last t) (λ k u. refl))
        ∙ copy-row i last n c t.core_prev ne h;
    last_sm_pc_timestamp = λ c h.
        ap (λ f. f (pc_idx i c))
          (for_below-field (λ u. u.last_sm_pc_timestamp) (move_core i last) (swap_timestamps i last)
            n (move_slot i last t) (λ k u. refl))
        ∙ swap-moved i last ne n c t.last_sm_pc_timestamp few h;
  }

  -- The other slots stay.
  moved-others : (j : ℕ) → i ≢ j → last ≢ j → IsMoved n t j moved j
  unfolding move_core move_slot moved
  moved-others j hi hl = record {
    states = ap (λ f. f j) (moved-keeps (λ u. u.states) (λ c u. refl)) ∙ set_ne t.states i j _ hi;
    win_ipc =
        ap (λ f. f j) (moved-keeps (λ u. u.win_ipc) (λ c u. refl)) ∙ set_ne t.win_ipc i j _ hi;
    win_llc =
        ap (λ f. f j) (moved-keeps (λ u. u.win_llc) (λ c u. refl)) ∙ set_ne t.win_llc i j _ hi;
    win_ctx =
        ap (λ f. f j) (moved-keeps (λ u. u.win_ctx) (λ c u. refl)) ∙ set_ne t.win_ctx i j _ hi;
    win_io = ap (λ f. f j) (moved-keeps (λ u. u.win_io) (λ c u. refl)) ∙ set_ne t.win_io i j _ hi;
    perf = ap (λ f. f j) (moved-keeps (λ u. u.perf) (λ c u. refl)) ∙ set_ne t.perf i j _ hi;
    last_sm =
        ap (λ f. f j) (moved-keeps (λ u. u.last_sm) (λ c u. refl)) ∙ set_ne t.last_sm i j _ hi;
    last_sm_pc =
        ap (λ f. f j) (moved-keeps (λ u. u.last_sm_pc) (λ c u. refl))
        ∙ set_ne t.last_sm_pc i j _ hi;
    comm = ap (λ f. f j) (moved-keeps (λ u. u.comm) (λ c u. refl)) ∙ set_ne t.comm i j _ hi;
    last_sm_valid =
        ap (λ f. f j) (moved-keeps (λ u. u.last_sm_valid) (λ c u. refl))
        ∙ set_ne (set t.last_sm_valid i _) last j false hl
        ∙ set_ne t.last_sm_valid i j _ hi;
    last_sm_timestamp =
        ap (λ f. f j) (moved-keeps (λ u. u.last_sm_timestamp) (λ c u. refl))
        ∙ set_ne (set t.last_sm_timestamp i _) last j 0 hl
        ∙ set_ne t.last_sm_timestamp i j _ hi;
    perf_pc = λ c h.
        ap (λ f. f j c)
          (for_below-field (λ u. u.perf_pc) (move_core i last) (copy_cell i last) n
            (move_slot i last t) (λ k u. refl))
        ∙ ap (λ r. r c) (copy-other_row i last n j t.perf_pc hi);
    win_ipc_pc = λ c h.
        ap (λ f. f j c)
          (for_below-field (λ u. u.win_ipc_pc) (move_core i last) (copy_cell i last) n
            (move_slot i last t) (λ k u. refl))
        ∙ ap (λ r. r c) (copy-other_row i last n j t.win_ipc_pc hi);
    win_llc_pc = λ c h.
        ap (λ f. f j c)
          (for_below-field (λ u. u.win_llc_pc) (move_core i last) (copy_cell i last) n
            (move_slot i last t) (λ k u. refl))
        ∙ ap (λ r. r c) (copy-other_row i last n j t.win_llc_pc hi);
    core_prev = λ c h.
        ap (λ f. f j c)
          (for_below-field (λ u. u.core_prev) (move_core i last) (copy_cell i last) n
            (move_slot i last t) (λ k u. refl))
        ∙ ap (λ r. r c) (copy-other_row i last n j t.core_prev hi);
    last_sm_pc_timestamp = λ c h.
        ap (λ f. f (pc_idx j c))
          (for_below-field (λ u. u.last_sm_pc_timestamp) (move_core i last) (swap_timestamps i last)
            n (move_slot i last t) (λ k u. refl))
        ∙ swap-other_slot i last ne n j c t.last_sm_pc_timestamp few (omega (arith, few, h)) hi hl;
  }

-- The slot that comes to `j` is not the one removed.
pub source-ne : (i j last : ℕ) → j < last → i ≢ (if i == j then last else j)
source-ne i j last h = ground arith

module _ {D : Type 0} (cfg : CoreConfig) where
  pub n_active-move_last : (i : ℕ) (t : Tables D) → (move_last cfg i t).n_active ≡ t.n_active
  unfolding move_last move_slot move_core
  n_active-move_last i t = elim (eq_cases i (t.n_active - 1)) [
    | inl e ↦ rw (eq→== i (t.n_active - 1) e)
    | inr ne ↦ rw (ne→== i (t.n_active - 1) ne) (
        for_below-keeps (λ u. u.n_active) (move_core i (t.n_active - 1)) cfg.ncores
          (move_slot i (t.n_active - 1) t) (λ c u. refl))
  ]

  -- Behind the swap, slot `j` below the last is the old last one or itself.
  pub move_last-IsMoved :
      (i j : ℕ) (t : Tables D)
      → cfg.ncores ≤ max_cores
      → j < t.n_active - 1
      → IsMoved cfg.ncores t (if i == j then t.n_active - 1 else j) (move_last cfg i t) j
  unfolding move_last moved
  move_last-IsMoved i j t few hj = elim (eq_cases i (t.n_active - 1)) [
    | inl e ↦
        rw (eq→== i (t.n_active - 1) e, ne→== i j (λ p. omega arith)) (IsMoved-refl cfg.ncores t j)
    | inr ne ↦ rw (ne→== i (t.n_active - 1) ne) (elim (eq_cases i j) [
      | inl e ↦ rw (eq→== i j e) (
          subst
            (λ k.
              IsMoved cfg.ncores t (t.n_active - 1) (moved cfg.ncores i (t.n_active - 1) ne few t)
                k)
            e (moved-IsMoved cfg.ncores i (t.n_active - 1) ne few t))
      | inr other ↦
          rw (ne→== i j other)
            (moved-others cfg.ncores i (t.n_active - 1) ne few t j other (λ p. omega arith))
    ])
  ]

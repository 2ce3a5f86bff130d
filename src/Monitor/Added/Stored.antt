-- ===== src/Monitor/Added/Stored.antt =====
-- When `add_pid` of final/src/monitor_final.c fails, which counter it stores, and that it touches no
-- other slot.
use capstone_monitor.Base.{
  ℕ, zero, suc, ◌≤◌, ◌<◌, ◌≡◌, ◌≢◌, refl, ap, ◌∙◌, ◌⊎◌, inl, inr, true, false, Option, none, some,
  leb, ◌&&◌, Array, set, set_self, set_ne, set_cell-ne_row, for_below, for_below-keeps,
  for_below_inv, if_both, if_each, arith,
}
use capstone_monitor.Double.{Double}
use capstone_monitor.Os.{Os}
use capstone_monitor.PerfCounter.{zeroed, perf_counter_open}
use capstone_monitor.Monitor.{max_pids, max_cores, Tables, CoreConfig, Tracer, pc_idx}
use capstone_monitor.Monitor.AddPid.{
  fresh_state, clear_counters, open_core, open_cores, reset_slot, seed_slot, seed_comm, fill_slot,
  add_pid,
}
use capstone_monitor.Monitor.Added.{IsAdded, IsKept, view, view-clear_counters, fill_slot-IsAdded}
use capstone_monitor.Monitor.Moved.{
  IsMoved, IsMoved-refl, IsMoved-trans, perf-IsMoved, perf_pc-IsMoved,
}
use capstone_monitor.Monitor.Timestamps.{pc_idx-ne_row}

-- Every slot but `n` is what it was, with all that belongs to it.
abbrev pub Untouched : {D : Type 0} → ℕ → ℕ → Tables D → Tables D → Type 0
Untouched ncores n t t' = (j : ℕ) → n ≢ j → IsMoved ncores t j t' j

-- the timestamps of the cores of slot `i` are cleared
cleared-other :
    (i j c n : ℕ) (a : Array ℕ)
    → n ≤ max_cores
    → c < max_cores
    → i ≢ j
    → for_below n (λ k b. set b (pc_idx i k) 0) a (pc_idx j c) ≡ a (pc_idx j c)
unfolding for_below
cleared-other i j c zero a hn hc ne = refl
cleared-other i j c (suc n) a hn hc ne =
    set_ne (for_below n (λ k b. set b (pc_idx i k) 0) a) (pc_idx i n) (pc_idx j c) 0
      (pc_idx-ne_row i j n c (omega (arith, hn)) hc ne)
    ∙ cleared-other i j c n a (omega (arith, hn)) hc ne

module _ (d : Double) (os : Os) (cfg : CoreConfig) (tracer : Tracer os.World)
    (few : cfg.ncores ≤ max_cores) where
  open os use {World}
  open d use {Carrier}

  clear_counters-Untouched :
      (i : ℕ) (t : Tables Carrier) → Untouched cfg.ncores i t (clear_counters d os cfg tracer i t)
  unfolding clear_counters
  clear_counters-Untouched i t j ne =
      let first =
        perf-IsMoved cfg.ncores t i j (set t.perf i zeroed) (set_ne t.perf i j zeroed ne) in
      if_both (λ (u : Tables Carrier). IsMoved cfg.ncores t j u j) cfg.per_core
        (for_below_inv (λ (u : Tables Carrier). IsMoved cfg.ncores t j u j) _ cfg.ncores _
          (λ c u m.
            IsMoved-trans cfg.ncores t u _ j j j m
              (perf_pc-IsMoved cfg.ncores u j _ (set_cell-ne_row u.perf_pc i j c zeroed ne)))
          first)
        first

  open_core-Untouched :
      (pid i c : ℕ) (s : Tables Carrier × World)
      → Untouched cfg.ncores i s.0 (open_core d os cfg tracer pid i c s).0
  unfolding open_core
  open_core-Untouched pid i c (t, w) j ne =
      if_both (λ (u : Tables Carrier × World). IsMoved cfg.ncores t j u.0 j)
        (perf_counter_open os pid (some c) w).0
        (record {
          states = refl;
          win_ipc = refl;
          win_llc = refl;
          win_ctx = refl;
          win_io = refl;
          perf = refl;
          last_sm = refl;
          last_sm_pc = refl;
          comm = refl;
          last_sm_valid = refl;
          last_sm_timestamp = refl;
          core_prev = λ k h. refl;
          last_sm_pc_timestamp = λ k h. refl;
          perf_pc = λ k h. ap (λ r. r k) (set_cell-ne_row t.perf_pc i j c _ ne);
          win_ipc_pc = λ k h. ap (λ r. r k) (set_cell-ne_row t.win_ipc_pc i j c _ ne);
          win_llc_pc = λ k h. ap (λ r. r k) (set_cell-ne_row t.win_llc_pc i j c _ ne);
        })
        (perf_pc-IsMoved cfg.ncores t j _ (set_cell-ne_row t.perf_pc i j c _ ne))

  open_cores-Untouched :
      (pid i : ℕ) (s : Tables Carrier × World)
      → Untouched cfg.ncores i s.0 (open_cores d os cfg tracer pid i s).0
  unfolding open_cores
  open_cores-Untouched pid i s j ne =
      let P = λ (u : Tables Carrier × World). IsMoved cfg.ncores s.0 j u.0 j in
      if_both P (cfg.per_core && (s.0.perf i).hw_available)
        (for_below_inv P (open_core d os cfg tracer pid i) cfg.ncores s
          (λ c u m. IsMoved-trans cfg.ncores s.0 u.0 _ j j j m (open_core-Untouched pid i c u j ne))
          (IsMoved-refl cfg.ncores s.0 j))
        (IsMoved-refl cfg.ncores s.0 j)

  fill_slot-Untouched :
      (pid i : ℕ) (s : Tables Carrier × World)
      → Untouched cfg.ncores i s.0 (fill_slot d os cfg tracer pid i s).0
  unfolding fill_slot reset_slot seed_slot seed_comm
  fill_slot-Untouched pid i s j ne =
      let t = (open_cores d os cfg tracer pid i s).0 in
      IsMoved-trans cfg.ncores s.0 t _ j j j (open_cores-Untouched pid i s j ne) (record {
        states =
            set_ne (set t.states i (fresh_state pid)) i j _ ne
            ∙ set_ne t.states i j (fresh_state pid) ne;
        win_ipc = set_ne t.win_ipc i j _ ne;
        win_llc = set_ne t.win_llc i j _ ne;
        win_ctx = set_ne t.win_ctx i j _ ne;
        win_io = set_ne t.win_io i j _ ne;
        perf = refl;
        last_sm = set_ne t.last_sm i j _ ne;
        last_sm_pc = set_ne t.last_sm_pc i j _ ne;
        comm = set_ne (set t.comm i _) i j _ ne ∙ set_ne t.comm i j _ ne;
        last_sm_valid = set_ne t.last_sm_valid i j _ ne;
        last_sm_timestamp = set_ne t.last_sm_timestamp i j _ ne;
        perf_pc = λ c h. refl;
        win_ipc_pc = λ c h. refl;
        win_llc_pc = λ c h. refl;
        core_prev = λ c h. ap (λ r. r c) (set_ne t.core_prev i j _ ne);
        last_sm_pc_timestamp = λ c h.
            cleared-other i j c max_cores t.last_sm_pc_timestamp (omega arith)
              (omega (arith, h, few)) ne;
      })

  pub perf-fill_slot :
      (pid i : ℕ) (s : Tables Carrier × World)
      → (fill_slot d os cfg tracer pid i s).0.perf ≡ s.0.perf
  unfolding fill_slot reset_slot seed_slot seed_comm open_cores open_core
  perf-fill_slot pid i s =
      let field = λ (u : Tables Carrier × World). u.0.perf in
      if_both (λ (u : Tables Carrier × World). field u ≡ field s)
        (cfg.per_core && (s.0.perf i).hw_available)
        (for_below-keeps field (open_core d os cfg tracer pid i) cfg.ncores s (λ c u.
          if_both (λ (v : Tables Carrier × World). field v ≡ field u)
            (perf_counter_open os pid (some c) u.1).0 refl refl))
        refl

  -- With at most MAX_CORES cores: `add_pid` fails just if all slots are in use or the counter of the
  -- process cannot be opened. If it returns -1, as many slots are in use as before and for the same
  -- pids. Else it returns `n`, the number of slots that were in use; slot `n` is then the one of the
  -- pid and holds the counter that was opened, and `n + 1` slots are in use, at most MAX_PIDS. Either
  -- way every slot but `n` keeps its state, windows, counters, cached metrics, name and timestamps,
  -- and the same of each of its cores.
  pub add_pid-IsStored :
      (pid : ℕ) (t : Tables Carrier) (w : World)
      → let n = t.n_active in
        let opened = perf_counter_open os pid none w in
        let r = add_pid d os cfg tracer pid (t, w) in
        Untouched cfg.ncores n t r.1
        × (((r.0 ≡ none) × ((max_pids ≤ n) ⊎ (opened.0 ≡ false)) × IsKept t r.1)
            ⊎ ((r.0 ≡ some n) × (opened.0 ≡ true) × (r.1.perf n ≡ opened.1) × IsAdded pid n t r.1))
  unfolding add_pid
  add_pid-IsStored pid t w =
      let n = t.n_active in
      let t1 = clear_counters d os cfg tracer n t in
      let o = perf_counter_open os pid none w in
      let t2 : Tables Carrier = record t1 { perf = set t1.perf n o.1 } in
      let opened : Untouched cfg.ncores n t t2 = λ j ne.
        IsMoved-trans cfg.ncores t t1 t2 j j j (clear_counters-Untouched n t j ne)
          (perf-IsMoved cfg.ncores t1 n j _ (set_ne t1.perf n j o.1 ne)) in
      let same : view t2 ≡ view t = view-clear_counters d os cfg tracer n t in
      let P = λ (r : Option ℕ × Tables Carrier × World).
        Untouched cfg.ncores n t r.1
        × (((r.0 ≡ none) × ((max_pids ≤ n) ⊎ (o.0 ≡ false)) × IsKept t r.1)
            ⊎ ((r.0 ≡ some n) × (o.0 ≡ true) × (r.1.perf n ≡ o.1) × IsAdded pid n t r.1)) in
      if_each (λ b q. leb max_pids n ≡ b → P q) (leb max_pids n)
        (λ full. (
          λ j ne. IsMoved-refl cfg.ncores t j,
          inl (refl, inl (ground (arith, full)), record { n_active = refl; states = λ j. refl }),
        ))
        (λ room.
          if_each (λ b q. o.0 ≡ b → P q) o.0
            (λ yes. (
              λ j ne.
                  IsMoved-trans cfg.ncores t t2 _ j j j (opened j ne)
                    (fill_slot-Untouched pid n (t2, o.2) j ne),
              inr (
                refl,
                yes,
                ap (λ a. a n) (perf-fill_slot pid n (t2, o.2)) ∙ set_self t1.perf n o.1,
                fill_slot-IsAdded d os cfg tracer pid t (t2, o.2) same room,
              ),
            ))
            (λ no. (
              opened,
              inl (
                refl,
                inr no,
                record {
                  n_active = ap (λ v. v.n_active) same;
                  states = λ j. ap (λ v. v.states j) same;
                },
              ),
            ))
            refl)
        refl

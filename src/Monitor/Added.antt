-- ===== src/Monitor/Added.antt =====
-- What `add_pid` of final/src/monitor_final.c does to the slots.
pub mod Stored
pub mod Cleared
use capstone_monitor.Base.{
  ℕ, ◌+◌, ◌≤◌, ◌≡◌, ◌≢◌, refl, ap, ◌∙◌, ◌⊎◌, inl, inr, false, Option, none, some, leb, ◌&&◌, Array,
  set, set_self, set_ne, for_below-keeps, if_both, Bool-cases, arith,
}
use capstone_monitor.Double.{Double}
use capstone_monitor.Os.{Os}
use capstone_monitor.PerfCounter.{RawCounters, perf_counter_open}
use capstone_monitor.Monitor.{max_pids, PidState, Tables, CoreConfig, Tracer}
use capstone_monitor.Monitor.AddPid.{
  fresh_state, seed_counters, clear_counters, open_core, open_cores, reset_slot, seed_slot,
  seed_comm, fill_slot, add_pid,
}

-- the part of the arrays that tells which slots are in use, for which pids
pub record View : Type 0 where
  pub n_active : ℕ
  pub states : Array PidState

abbrev pub view : {D : Type 0} → Tables D → View
view t = record { n_active = t.n_active; states = t.states }

pid-seed_counters : (o : Option RawCounters) (s : PidState) → (seed_counters o s).pid ≡ s.pid
unfolding seed_counters
pid-seed_counters none s = refl
pid-seed_counters (some r) s = refl

-- Slot `n` is the new one, for the pid, and has no sample yet; the other slots are for the pids that
-- they were for, with the same baselines.
pub record IsAdded {D : Type 0} (pid n : ℕ) (t t' : Tables D) : Type 0 where
  pub n_active : t'.n_active ≡ n + 1
  pub few : t'.n_active ≤ max_pids
  pub new_pid : (t'.states n).pid ≡ pid
  pub unsampled : t'.last_sm_valid n ≡ false
  pub others : (j : ℕ) → n ≢ j → t'.states j ≡ t.states j

-- As many slots are in use as before, and each for what it was.
pub record IsKept {D : Type 0} (t t' : Tables D) : Type 0 where
  pub n_active : t'.n_active ≡ t.n_active
  pub states : (j : ℕ) → t'.states j ≡ t.states j

module _ (d : Double) (os : Os) (cfg : CoreConfig) (tracer : Tracer os.World) where
  open os use {World}
  open d use {Carrier}

  pub view-clear_counters :
      (i : ℕ) (t : Tables Carrier) → view (clear_counters d os cfg tracer i t) ≡ view t
  unfolding clear_counters
  view-clear_counters i t =
      if_both (λ (u : Tables Carrier). view u ≡ view t) cfg.per_core
        (for_below-keeps (λ (u : Tables Carrier). view u) _ cfg.ncores _ (λ c u. refl)) refl

  view-open_core :
      (pid i c : ℕ) (s : Tables Carrier × World)
      → view (open_core d os cfg tracer pid i c s).0 ≡ view s.0
  unfolding open_core
  view-open_core pid i c s =
      if_both (λ (u : Tables Carrier × World). view u.0 ≡ view s.0)
        (perf_counter_open os pid (some c) s.1).0 refl refl

  view-open_cores :
      (pid i : ℕ) (s : Tables Carrier × World)
      → view (open_cores d os cfg tracer pid i s).0 ≡ view s.0
  unfolding open_cores
  view-open_cores pid i s =
      if_both (λ (u : Tables Carrier × World). view u.0 ≡ view s.0)
        (cfg.per_core && (s.0.perf i).hw_available)
        (for_below-keeps (λ (u : Tables Carrier × World). view u.0)
          (open_core d os cfg tracer pid i) cfg.ncores s (view-open_core pid i))
        refl

  pub fill_slot-IsAdded :
      (pid : ℕ) (t : Tables Carrier) (s : Tables Carrier × World)
      → view s.0 ≡ view t
      → leb max_pids t.n_active ≡ false
      → IsAdded pid t.n_active t (fill_slot d os cfg tracer pid t.n_active s).0
  unfolding fill_slot reset_slot seed_slot seed_comm
  fill_slot-IsAdded pid t s e room =
      let i = t.n_active in
      let same = view-open_cores pid i s ∙ e in
      let u = (open_cores d os cfg tracer pid i s).0 in
      let count : u.n_active ≡ i = ap (λ v. v.n_active) same in
      record {
        n_active = ap (λ n. n + 1) count;
        few = ground (arith, count);
        new_pid =
            ap (λ (x : PidState). x.pid) (set_self (set u.states i (fresh_state pid)) i _)
            ∙ pid-seed_counters _ _
            ∙ ap (λ (x : PidState). x.pid) (set_self u.states i (fresh_state pid));
        unsampled = set_self u.last_sm_valid i false;
        others = λ j ne.
            set_ne (set u.states i (fresh_state pid)) i j _ ne
            ∙ set_ne u.states i j (fresh_state pid) ne
            ∙ ap (λ v. v.states j) same;
      }

  -- `add_pid` either returns -1 and leaves the slots in use as they are, or returns the number of
  -- slots that were in use, which is then the slot of the pid; at most MAX_PIDS slots are in use.
  pub add_pid-IsAdded :
      (pid : ℕ) (t : Tables Carrier) (w : World)
      → let r = add_pid d os cfg tracer pid (t, w) in
        ((r.0 ≡ none) × IsKept t r.1) ⊎ ((r.0 ≡ some t.n_active) × IsAdded pid t.n_active t r.1)
  unfolding add_pid
  add_pid-IsAdded pid t w =
      let i = t.n_active in
      let t1 = clear_counters d os cfg tracer i t in
      let r = perf_counter_open os pid none w in
      let t2 : Tables Carrier = record t1 { perf = set t1.perf i r.1 } in
      let same : view t2 ≡ view t = view-clear_counters i t in
      elim (Bool-cases (leb max_pids i)) [
        | inl full ↦ rw full (inl (refl, record { n_active = refl; states = λ j. refl }))
        | inr room ↦
            let added = fill_slot-IsAdded pid t (t2, r.2) same room in
            rw room (
              if_both
                (λ (u : Option ℕ × Tables Carrier × World).
                  ((u.0 ≡ none) × IsKept t u.1) ⊎ ((u.0 ≡ some i) × IsAdded pid i t u.1))
                r.0 (inr (refl, added))
                (inl (
                  refl,
                  record {
                    n_active = ap (λ v. v.n_active) same;
                    states = λ j. ap (λ v. v.states j) same;
                  },
                )))
      ]

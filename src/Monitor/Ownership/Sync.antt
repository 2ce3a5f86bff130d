-- ===== src/Monitor/Ownership/Sync.antt =====
-- The descriptors that the slots of final/src/monitor_final.c own, through `sync_pids`.
use capstone_monitor.Base.{
  ℕ, zero, suc, ◌+◌, ◌≤◌, ◌<◌, ◌≡◌, refl, ap, Bool, false, not, Option, none, some, List, [], ◌∷◌,
  length, ltb, if_both, if_each, for_below-keeps, arith,
}
use mathlib.Core.Path.{subst}
use capstone_monitor.Double.{Double}
use capstone_monitor.Os.{Os, IsKernel}
use capstone_monitor.PerfCounter.{PerfCounter}
use capstone_monitor.ProcScanner.{ProcScanner}
use capstone_monitor.Monitor.{max_cores, Tables, CoreConfig, Tracer, PidState}
use capstone_monitor.Monitor.AddPid.{add_pid}
use capstone_monitor.Monitor.Deadline.{Timespec}
use capstone_monitor.Monitor.Eviction.{evict, evict_from}
use capstone_monitor.Monitor.Ownership.Changes.{
  aggregate, Owned, Owned-keeps, remove_slot-Owned, add_pid-Owned,
}
use capstone_monitor.Monitor.Slots.{find_slot, remove_slot}
use capstone_monitor.Monitor.SyncPids.{
  Selection, Processes, Sync, set_active, mark_inactive, add_missing, add_all, explicit_mode,
  mark_active, keep_pid, keep_all, top_mode, top_pids, sync_scan, sync_slots, sync_pids, sync_end,
  is_throttled,
}

-- What every value has that an option can hold.
abbrev pub AllOf : {S : Type 0} → (S → Type 0) → Option S → Type 0
AllOf {S = S} P o = (s : S) → o ≡ some s → P s

pub AllOf-some : {S : Type 0} (P : S → Type 0) (s : S) → P s → AllOf P (some s)
AllOf-some {S = S} P s p t e = subst P (some-eq e) p
  where
    some-eq : {a b : S} → some a ≡ some b → a ≡ b
    some-eq e = grind arith

pub AllOf-none : {S : Type 0} (P : S → Type 0) → AllOf P none
AllOf-none {S = S} P t e = absurd (missing e)
  where
    missing : {a : S} → none ≡ some a → ⊥
    missing e = grind arith

in_use : (i n : ℕ) → not (ltb i n) ≡ false → i < n
in_use i n h = ground (arith, h)

module _ (d : Double) (os : Os) (kernel : IsKernel os) (mask ncores : ℕ) (few : ncores ≤ max_cores)
    (before : ℕ → Bool) (tracer : Tracer os.World)
    (quiet : (pid : ℕ) (w : os.World) (f : ℕ)
      → os.is_open (tracer.pop_exec_comm pid w).1 f ≡ os.is_open w f)
    (procs : Processes os.World) where
  open os use {World, is_open}
  open d use {Carrier}

  abbrev pub cfg : CoreConfig
  cfg = aggregate mask ncores

  abbrev pub SlotsOwned : Tables Carrier × World → Type 0
  SlotsOwned s = Owned os before s

  evict_from-Owned :
      (test : PidState → World → Bool) (fuel i : ℕ) (s : Tables Carrier × World)
      → Owned os before s
      → AllOf SlotsOwned (evict_from os cfg test fuel i s)
  unfolding evict_from
  evict_from-Owned test zero i s o =
      if_both (AllOf SlotsOwned) (ltb i s.0.n_active) (AllOf-none SlotsOwned)
        (AllOf-some SlotsOwned s o)
  evict_from-Owned test (suc fuel) i s o =
      if_each
        (λ b (q : Option (Tables Carrier × World)).
          not (ltb i s.0.n_active) ≡ b → AllOf SlotsOwned q)
        (not (ltb i s.0.n_active)) (λ e. AllOf-some SlotsOwned s o)
        (λ e.
          if_both (AllOf SlotsOwned) (test (s.0.states i) s.1)
            (evict_from-Owned test fuel i (remove_slot os cfg i s)
              (remove_slot-Owned os kernel mask ncores few before i s (in_use i s.0.n_active e) o))
            (evict_from-Owned test fuel (i + 1) s o))
        refl

  evict-Owned :
      (test : PidState → World → Bool) (s : Tables Carrier × World)
      → SlotsOwned s
      → AllOf SlotsOwned (evict os cfg test s)
  unfolding evict
  evict-Owned test s o = evict_from-Owned test s.0.n_active 0 s o

  add_missing-Owned :
      (pid : ℕ) (s : Tables Carrier × World)
      → SlotsOwned s
      → SlotsOwned (add_missing d os cfg tracer procs pid s)
  unfolding add_missing
  add_missing-Owned pid s o = by_slot (find_slot s.0 pid)
    where
      by_slot :
          (q : Option ℕ)
          → SlotsOwned (elim q [
            | some slot ↦ s
            | none ↦ let r = add_pid d os cfg tracer pid s in (r.1, r.2)
          ])
      by_slot none = add_pid-Owned d os kernel mask ncores few before tracer quiet pid s o
      by_slot (some slot) = o

  add_all-Owned :
      (pids : List ℕ) (s : Tables Carrier × World)
      → SlotsOwned s
      → SlotsOwned (add_all d os cfg tracer procs pids s)
  unfolding add_all
  add_all-Owned [] s o = o
  add_all-Owned (pid ∷ pids) s o =
      add_all-Owned pids (add_missing d os cfg tracer procs pid s) (add_missing-Owned pid s o)

  mark_active-Owned :
      (q : Option ℕ × Tables Carrier × World)
      → SlotsOwned (q.1, q.2)
      → SlotsOwned (mark_active d os cfg tracer procs q)
  unfolding mark_active
  mark_active-Owned (none, t, w) o = o
  mark_active-Owned (some slot, t, w) o = o

  keep_pid-Owned :
      (pid : ℕ) (s : Tables Carrier × World)
      → SlotsOwned s
      → SlotsOwned (keep_pid d os cfg tracer procs pid s)
  unfolding keep_pid
  keep_pid-Owned pid s o = by_slot (find_slot s.0 pid)
    where
      by_slot :
          (q : Option ℕ)
          → SlotsOwned (elim q [
            | some slot ↦ mark_active d os cfg tracer procs (some slot, s.0, s.1)
            | none ↦ mark_active d os cfg tracer procs (add_pid d os cfg tracer pid s)
          ])
      by_slot none =
          mark_active-Owned (add_pid d os cfg tracer pid s)
            (add_pid-Owned d os kernel mask ncores few before tracer quiet pid s o)
      by_slot (some slot) = mark_active-Owned (some slot, s.0, s.1) o

  keep_all-Owned :
      (pids : List ℕ) (s : Tables Carrier × World)
      → SlotsOwned s
      → SlotsOwned (keep_all d os cfg tracer procs pids s)
  unfolding keep_all
  keep_all-Owned [] s o = o
  keep_all-Owned (pid ∷ pids) s o =
      keep_all-Owned pids (keep_pid d os cfg tracer procs pid s) (keep_pid-Owned pid s o)

  mark_inactive-Owned :
      (t : Tables Carrier) (w : World) → SlotsOwned (t, w) → SlotsOwned (mark_inactive t, w)
  unfolding mark_inactive
  mark_inactive-Owned t w o =
      Owned-keeps os kernel mask ncores few before (t, w) (mark_inactive t, w)
        (for_below-keeps (λ (u : Tables Carrier). u.n_active) (set_active false) t.n_active t
          (λ c u. refl))
        (λ i lt.
          ap (λ (p : ℕ → PerfCounter). p i)
            (for_below-keeps (λ (u : Tables Carrier). u.perf) (set_active false) t.n_active t
              (λ c u. refl)))
        (λ f. refl) o

  sync_slots-Owned :
      (sel : Selection) (scanner : ProcScanner) (s : Tables Carrier × World)
      → SlotsOwned s
      → AllOf SlotsOwned (sync_slots d os cfg tracer procs sel scanner s)
  unfolding sync_slots explicit_mode top_mode
  sync_slots-Owned sel scanner (t, w) o =
      if_both (AllOf SlotsOwned) (ltb 0 (length sel.pids))
        (evict-Owned (λ st w. procs.is_gone st.pid w)
          (add_all d os cfg tracer procs sel.pids (t, w)) (add_all-Owned sel.pids (t, w) o))
        (evict-Owned (λ st w. not st.active)
          (keep_all d os cfg tracer procs (top_pids d os cfg tracer procs sel scanner)
            (mark_inactive t, w))
          (keep_all-Owned (top_pids d os cfg tracer procs sel scanner) (mark_inactive t, w)
            (mark_inactive-Owned t w o)))

  pub sync_pids-Owned :
      (sel : Selection) (now : Timespec) (s : Sync Carrier) (w : World)
      → SlotsOwned (s.tables, w)
      → AllOf
          (λ (r : Sync Carrier × World). SlotsOwned (r.0.tables, r.1))
          (sync_pids d os cfg tracer procs sel now (s, w))
  unfolding sync_pids sync_end
  sync_pids-Owned sel now s w o =
      let P = λ (r : Sync Carrier × World). SlotsOwned (r.0.tables, r.1) in
      if_both (AllOf P) (is_throttled now s) (AllOf-some P (s, w) o) (
        by_slots _ (sync_slots-Owned sel (sync_scan d os cfg tracer procs now s w) (s.tables, w) o))
    where
      by_slots :
          (q : Option (Tables Carrier × World))
          → AllOf SlotsOwned q
          → AllOf
              (λ (r : Sync Carrier × World). SlotsOwned (r.0.tables, r.1))
              (elim q [
                | none ↦ none
                | some r ↦ some (sync_end now (sync_scan d os cfg tracer procs now s w) s r.0, r.1)
              ])
      by_slots none h = AllOf-none _
      by_slots (some r) h = AllOf-some _ _ (h r refl)

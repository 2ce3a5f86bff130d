-- ===== src/Monitor/FastPath/Pushes.antt =====
-- The fast path as pushes of one list.
use capstone_monitor.Base.{
  ℕ, zero, suc, ◌≡◌, refl, sym, ap, ap₂, ◌∙◌, Bool, true, false, ◌&&◌, ◌||◌, not, ltb, leb, arith,
  bit_and_pow, List, [], ◌∷◌, ◌++◌, if◌then◌else◌, ◌==◌, for_below, set,
}
use capstone_monitor.Metrics.{SmoothedMetrics}
use mathlib.Core.Path.{subst, fun_ext}
use capstone_monitor.PerfCounter.{sub64}
use capstone_monitor.RingBuffer.{RingBuffer}
use capstone_monitor.RingBuffer.Burst.{push_all, push_all-append}
use capstone_monitor.Monitor.{Tables, CoreConfig, Daemon, pc_idx}
use capstone_monitor.Monitor.FastPath.{
  stale_threshold, is_stale, is_selected, stamp, push_rb, fast_core, fast_slot, fast_path,
}
use capstone_monitor.Monitor.FastPath.Entries.{
  is_recent, is_wanted, concat_below, core_entry, slot_entry, core_entries, slot_entries, entries,
}
use capstone_monitor.Monitor.FastPath.Entries

is_stale-is_recent : (now timestamp : ℕ) → not (is_stale now timestamp) ≡ is_recent now timestamp
is_stale-is_recent now timestamp = threshold (sub64 now timestamp)
  where
    threshold : (a : ℕ) → not (ltb stale_threshold a) ≡ leb a 500000000
    threshold a = ground arith

is_selected-is_wanted : (mask c : ℕ) → is_selected mask c ≡ is_wanted mask c
unfolding is_selected is_wanted
is_selected-is_wanted mask c = ap (λ b. mask == 0 || not b) (bit_and_pow c mask)

module _ {D : Type 0} (cfg : CoreConfig) (now : ℕ) where
  -- What a part of the fast path has done: pushed a list, and nothing that the rest would notice.
  pub record Pushed (s : Daemon D) (ms : List (SmoothedMetrics D)) (s' : Daemon D) : Type 0 where
    pub ring : (s'.rb, s'.rb_drops) ≡ push_all s.rb s.rb_drops ms
    pub same : Entries.Same cfg now s.tables s'.tables

  -- one push of a stamped entry
  push_rb-Pushed :
      (s : Daemon D) (u : Tables D) (m : SmoothedMetrics D)
      → Entries.Same cfg now s.tables u
      → Pushed s (m ∷ []) (push_rb m (record s { tables = u }))
  unfolding push_rb push_all
  push_rb-Pushed s u m h = record { ring = refl; same = h }

  Pushed-nil : (s : Daemon D) → Pushed s [] s
  unfolding push_all
  Pushed-nil s = record { ring = refl; same = Entries.Same-refl cfg now s.tables }

  Same-trans :
      (t u v : Tables D)
      → Entries.Same cfg now t u
      → Entries.Same cfg now u v
      → Entries.Same cfg now t v
  Same-trans t u v p q = record {
    n_active = q.n_active ∙ p.n_active;
    valid = q.valid ∙ p.valid;
    timestamp = q.timestamp ∙ p.timestamp;
    pc_timestamp = q.pc_timestamp ∙ p.pc_timestamp;
    metrics = λ i. q.metrics i ∙ p.metrics i;
    pc_metrics = λ i c. q.pc_metrics i c ∙ p.pc_metrics i c;
  }

  Pushed-append :
      (s u v : Daemon D) (xs ys : List (SmoothedMetrics D))
      → Pushed s xs u
      → Pushed u ys v
      → Pushed s (xs ++ ys) v
  Pushed-append s u v xs ys p q = record {
    ring =
        q.ring
        ∙ ap (λ (r : RingBuffer (SmoothedMetrics D) × ℕ). push_all r.0 r.1 ys) p.ring
        ∙ sym (push_all-append s.rb s.rb_drops xs ys);
    same = Same-trans s.tables u.tables v.tables p.same q.same;
  }

  -- A loop whose rounds push the lists that the state at its start gives pushes them in order.
  Pushed-loop :
      (body : ℕ → Daemon D → Daemon D) (f : Tables D → ℕ → List (SmoothedMetrics D)) (n : ℕ)
      (s : Daemon D)
      → ((c : ℕ) (u : Daemon D) → Pushed u (f u.tables c) (body c u))
      → ((t u : Tables D) (c : ℕ) → Entries.Same cfg now t u → f u c ≡ f t c)
      → Pushed s (concat_below n (f s.tables)) (for_below n body s)
  unfolding for_below concat_below
  Pushed-loop body f zero s h k = Pushed-nil s
  Pushed-loop body f (suc c) s h k =
      let u = for_below c body s in
      let p = Pushed-loop body f c s h k in
      Pushed-append s u (body c u) (concat_below c (f s.tables)) (f s.tables c) p
        (subst (λ ms. Pushed u ms (body c u)) (k s.tables u.tables c p.same) (h c u))

  branch_core :
      (selected zero_pid stale : Bool) (s s' : Daemon D) (m : SmoothedMetrics D)
      → Pushed s (m ∷ []) s'
      → Pushed s
          (if (selected && not zero_pid) && not stale then m ∷ [] else [])
          (if not selected then s else if zero_pid then s else if stale then s else s')
  branch_core false z st s s' m p = Pushed-nil s
  branch_core true true st s s' m p = Pushed-nil s
  branch_core true false true s s' m p = Pushed-nil s
  branch_core true false false s s' m p = p

  fast_core-Pushed :
      (i c : ℕ) (s : Daemon D)
      → Pushed s (core_entries cfg now s.tables i c) (fast_core cfg now i c s)
  unfolding fast_core core_entry
  fast_core-Pushed i c s =
      let timestamp = s.tables.last_sm_pc_timestamp (pc_idx i c) in
      let m = stamp now (s.tables.last_sm_pc i c) in
      subst (λ ms. Pushed s ms (fast_core cfg now i c s))
        (ap₂ (λ (a b : Bool). if (a && not (m.pid == 0)) && b then m ∷ [] else [])
          (is_selected-is_wanted cfg.per_core_mask c) (is_stale-is_recent now timestamp))
        (branch_core (is_selected cfg.per_core_mask c) ((s.tables.last_sm_pc i c).pid == 0)
          (is_stale now timestamp) s _ m
          (push_rb-Pushed s _ (stamp now (s.tables.last_sm_pc i c)) (
            Entries.stamp_core-Same cfg now s.tables s.tables i c
              (Entries.Same-refl cfg now s.tables))))

  branch_slot :
      (valid stale cores : Bool) (s s' s'' : Daemon D) (m : SmoothedMetrics D)
      (ms : List (SmoothedMetrics D))
      → Pushed s (m ∷ []) s'
      → Pushed s (m ∷ ms) s''
      → Pushed s
          (if valid && not stale then m ∷ (if cores then ms else []) else [])
          (if not valid then s else if stale then s else if cores then s'' else s')
  branch_slot false st pc s s' s'' m ms p q = Pushed-nil s
  branch_slot true true pc s s' s'' m ms p q = Pushed-nil s
  branch_slot true false true s s' s'' m ms p q = q
  branch_slot true false false s s' s'' m ms p q = p

  fast_slot-Pushed :
      (i : ℕ) (s : Daemon D) → Pushed s (slot_entries cfg now s.tables i) (fast_slot cfg now i s)
  unfolding fast_slot slot_entry
  fast_slot-Pushed i s =
      let t = s.tables in
      let m = stamp now (t.last_sm i) in
      let u : Tables D = record t { last_sm = set t.last_sm i m } in
      let s' = push_rb m (record s { tables = u }) in
      let p =
        push_rb-Pushed s u m
          (Entries.stamp_slot-Same cfg now t t i (Entries.Same-refl cfg now t)) in
      let q =
        Pushed-loop (fast_core cfg now i) (λ t c. core_entries cfg now t i c) cfg.ncores s'
          (λ c v. fast_core-Pushed i c v)
          (λ t v c h. Entries.core_entries-Same cfg now t v i c h) in
      let same : concat_below cfg.ncores (core_entries cfg now s'.tables i)
          ≡ concat_below cfg.ncores (core_entries cfg now t i) =
        ap (concat_below cfg.ncores)
          (fun_ext (λ c. Entries.core_entries-Same cfg now t s'.tables i c p.same)) in
      subst (λ ms. Pushed s ms (fast_slot cfg now i s))
        (ap
          (λ (b : Bool).
            if t.last_sm_valid i && b
            then m
              ∷ (if cfg.per_core then concat_below cfg.ncores (core_entries cfg now t i) else [])
            else [])
          (is_stale-is_recent now (t.last_sm_timestamp i)))
        (branch_slot (t.last_sm_valid i) (is_stale now (t.last_sm_timestamp i)) cfg.per_core s s' _
          m (concat_below cfg.ncores (core_entries cfg now t i)) p
          (subst (λ ms. Pushed s (m ∷ ms) (for_below cfg.ncores (fast_core cfg now i) s')) same
            (Pushed-append s s' _ (m ∷ []) _ p q)))

  -- The fast path pushes to the classifier's ring, in order, exactly the entries of the slots in use
  -- that have been sampled at all and at most half a second ago: each slot's own entry and, with
  -- --per-core, those of its selected cores that were sampled as lately and whose entry is for a pid
  -- other than 0, all stamped with the tick's time. The age is taken modulo 2^64. The count of drops
  -- is that of these pushes.
  pub fast_path-push_all :
      (s : Daemon D)
      → ((fast_path cfg now s).rb, (fast_path cfg now s).rb_drops)
        ≡ push_all s.rb s.rb_drops (entries cfg now s.tables)
  unfolding fast_path entries
  fast_path-push_all s =
      (Pushed-loop (fast_slot cfg now) (slot_entries cfg now) s.tables.n_active s
        (λ i u. fast_slot-Pushed i u) (λ t u i h. Entries.slot_entries-Same cfg now t u i h)).ring

-- ===== src/Monitor/Eviction/Sifted.antt =====
-- What the eviction loops of final/src/monitor_final.c leave.
use capstone_monitor.Base.{
  ℕ, zero, suc, ◌+◌, ◌-◌, ◌≤◌, ◌<◌, ◌≡◌, ◌≢◌, refl, sym, ap, ◌∙◌, inl, inr, Bool, true, false, some,
  ltb, ltb→lt, ◌==◌, if◌then◌else◌, eq→==, ne→==, eq_cases, Bool-cases, arith,
}
use mathlib.Core.Path.{subst}
use capstone_monitor.Os.{Os}
use capstone_monitor.Monitor.{max_cores, PidState, Tables, CoreConfig}
use capstone_monitor.Monitor.Slots.{remove_slot}
use capstone_monitor.Monitor.Moved.{IsMoved, IsMoved-refl, IsMoved-trans}
use capstone_monitor.Monitor.Removal.{remove_slot-IsMoved, n_active-remove_slot}
use capstone_monitor.Monitor.Eviction.{evict_from, evict}

module _ {D : Type 0} (ncores : ℕ) (drop : PidState → Bool) where
  -- Slot `j` of the new arrays is, as a whole, a slot of the old ones.
  pub record IsFrom (t t' : Tables D) (j : ℕ) : Type 0 where
    pub from : ℕ
    pub in_use : from < t.n_active
    pub moved : IsMoved ncores t from t' j

  -- Slot `k` of the old arrays is, as a whole, a slot in use of the new ones.
  pub record IsKeptAs (t t' : Tables D) (k : ℕ) : Type 0 where
    pub to : ℕ
    pub in_use : to < t'.n_active
    pub moved : IsMoved ncores t k t' to

  -- The slots in use of the new arrays are those of the old ones that are not to be dropped.
  pub record IsSifted (t t' : Tables D) : Type 0 where
    pub fewer : t'.n_active ≤ t.n_active
    pub wanted : (j : ℕ) → j < t'.n_active → drop (t'.states j) ≡ false
    pub from : (j : ℕ) → j < t'.n_active → IsFrom t t' j
    pub kept : (k : ℕ) → k < t.n_active → drop (t.states k) ≡ false → IsKeptAs t t' k

  -- the invariant of the loop at slot `i`, from the arrays `t` before it
  record IsSifting (t u : Tables D) (i : ℕ) : Type 0 where
    fewer : u.n_active ≤ t.n_active
    index : i ≤ u.n_active
    wanted : (j : ℕ) → j < i → drop (u.states j) ≡ false
    from : (j : ℕ) → j < u.n_active → IsFrom t u j
    kept : (k : ℕ) → k < t.n_active → drop (t.states k) ≡ false → IsKeptAs t u k

  start-IsSifting : (t : Tables D) → IsSifting t t 0
  start-IsSifting t = record {
    fewer = omega arith;
    index = omega arith;
    wanted = λ j h. absurd (omega (arith, h));
    from = λ j h. record { from = j; in_use = h; moved = IsMoved-refl ncores t j };
    kept = λ k h d. record { to = k; in_use = h; moved = IsMoved-refl ncores t k };
  }

  end-IsSifted :
      (t u : Tables D) (i : ℕ) → ltb i u.n_active ≡ false → IsSifting t u i → IsSifted t u
  end-IsSifted t u i e s = record {
    fewer = s.fewer;
    wanted = λ j h. s.wanted j (ground arith);
    from = s.from;
    kept = s.kept;
  }

  next-IsSifting :
      (t u : Tables D) (i : ℕ)
      → ltb i u.n_active ≡ true
      → drop (u.states i) ≡ false
      → IsSifting t u i
      → IsSifting t u (i + 1)
  next-IsSifting t u i e d s = record {
    fewer = s.fewer;
    index = ground arith;
    wanted =
        λ j h. elim (eq_cases j i) [ inl p ↦ rw p d | inr ne ↦ s.wanted j (omega (arith, h, ne)) ];
    from = s.from;
    kept = s.kept;
  }

  -- A removal of slot `i`, by what remove_slot-IsMoved says of it.
  module _ (t u v : Tables D) (i : ℕ) (lt : i < u.n_active) (unwanted : drop (u.states i) ≡ true)
      (less : v.n_active ≡ u.n_active - 1)
      (moved : (j : ℕ)
        → j < u.n_active - 1
        → IsMoved ncores u (if i == j then u.n_active - 1 else j) v j) where
    stays : (j : ℕ) → i ≢ j → j < u.n_active - 1 → IsMoved ncores u j v j
    stays j ne h =
        let e : (if i == j then u.n_active - 1 else j) ≡ j = rw (ne→== i j ne) in
        subst (λ k. IsMoved ncores u k v j) e (moved j h)

    comes : i < u.n_active - 1 → IsMoved ncores u (u.n_active - 1) v i
    comes h =
        let e : (if i == i then u.n_active - 1 else i) ≡ u.n_active - 1 = rw (eq→== i i refl) in
        subst (λ k. IsMoved ncores u k v i) e (moved i h)

    source_lt : (j : ℕ) → j < u.n_active - 1 → (if i == j then u.n_active - 1 else j) < u.n_active
    source_lt j h = ground arith

    source_kept :
        ((j : ℕ) → j < u.n_active → IsFrom t u j) → (j : ℕ) → j < v.n_active → IsFrom t v j
    source_kept from j h =
        let lt' : j < u.n_active - 1 = omega (arith, h, less) in
        let k = if i == j then u.n_active - 1 else j in
        let f = from k (source_lt j lt') in
        record {
          from = f.from;
          in_use = f.in_use;
          moved = IsMoved-trans ncores t u v f.from k j f.moved (moved j lt');
        }

    not_removed : (k : ℕ) → drop (t.states k) ≡ false → (q : IsKeptAs t u k) → i ≢ q.to
    not_removed k w q e =
        let same : drop (u.states q.to) ≡ false = ap drop q.moved.states ∙ w in
        let gone : drop (u.states q.to) ≡ true = subst (λ j. drop (u.states j) ≡ true) e unwanted in
        cc

    kept-removed : (k : ℕ) → drop (t.states k) ≡ false → IsKeptAs t u k → IsKeptAs t v k
    kept-removed k w q =
        let ne = not_removed k w q in
        elim (eq_cases q.to (u.n_active - 1)) [
          | inl e ↦
              let lt' : i < u.n_active - 1 = omega (arith, lt, ne, e) in
              record {
                to = i;
                in_use = omega (arith, lt', less);
                moved =
                    IsMoved-trans ncores t u v k (u.n_active - 1) i
                      (subst (λ j. IsMoved ncores t k u j) e q.moved) (comes lt');
              }
          | inr other ↦
              let lt' : q.to < u.n_active - 1 = omega (arith, other, q.in_use) in
              record {
                to = q.to;
                in_use = omega (arith, lt', less);
                moved = IsMoved-trans ncores t u v k q.to q.to q.moved (stays q.to ne lt');
              }
        ]

    removed-IsSifting : IsSifting t u i → IsSifting t v i
    removed-IsSifting s = record {
      fewer = omega (arith, less, s.fewer);
      index = omega (arith, less, lt);
      wanted = λ j h.
          let m = stays j (λ e. omega (arith, h, e)) (omega (arith, h, lt)) in
          ap drop m.states ∙ s.wanted j h;
      from = source_kept s.from;
      kept = λ k h w. kept-removed k w (s.kept k h w);
    }

-- Which slots are to be dropped does not depend on what a removal closes.
abbrev pub IsUnaffected :
    (D : Type 0) (os : Os) → CoreConfig → (PidState → os.World → Bool) → Type 0
IsUnaffected D os cfg test =
    (st : PidState) (i : ℕ) (s : Tables D × os.World)
    → test st (remove_slot os cfg i s).1 ≡ test st s.1

module _ {D : Type 0} (os : Os) (cfg : CoreConfig) (test : PidState → os.World → Bool)
    (few : cfg.ncores ≤ max_cores) (unaffected : IsUnaffected D os cfg test) where
  open os use {World}

  removal-IsSifting :
      (drop : PidState → Bool) (t : Tables D) (i : ℕ) (s : Tables D × World)
      → i < s.0.n_active
      → drop (s.0.states i) ≡ true
      → IsSifting cfg.ncores drop t s.0 i
      → IsSifting cfg.ncores drop t (remove_slot os cfg i s).0 i
  removal-IsSifting drop t i s lt d inv =
      let v = (remove_slot os cfg i s).0 in
      removed-IsSifting cfg.ncores drop t s.0 v i lt d (n_active-remove_slot os cfg i s)
        (λ j h. (remove_slot-IsMoved os cfg i j s few h).1) inv

  evict_from-IsSifted :
      (drop : PidState → Bool) (t : Tables D) (fuel i : ℕ) (s : Tables D × World)
      → s.0.n_active ≤ fuel + i
      → ((st : PidState) → test st s.1 ≡ drop st)
      → IsSifting cfg.ncores drop t s.0 i
      → (s' : Tables D × World) × (evict_from os cfg test fuel i s ≡ some s')
        × IsSifted cfg.ncores drop t s'.0
  unfolding evict_from
  evict_from-IsSifted drop t zero i s enough same inv =
      let e : ltb i s.0.n_active ≡ false = ground arith in
      (s, rw e, end-IsSifted cfg.ncores drop t s.0 i e inv)
  evict_from-IsSifted drop t (suc fuel) i s enough same inv =
      elim (Bool-cases (ltb i s.0.n_active)) [
        | inr e ↦ (s, rw e, end-IsSifted cfg.ncores drop t s.0 i e inv)
        | inl e ↦ elim (Bool-cases (test (s.0.states i) s.1)) [
          | inl gone ↦
              let r = remove_slot os cfg i s in
              let less = n_active-remove_slot os cfg i s in
              let lt = ltb→lt i s.0.n_active e in
              rw (e, gone)
                (evict_from-IsSifted drop t fuel i r (omega (arith, less, lt, enough))
                  (λ st. unaffected st i s ∙ same st)
                  (removal-IsSifting drop t i s lt (sym (same (s.0.states i)) ∙ gone) inv))
          | inr stays ↦
              rw (e, stays)
                (evict_from-IsSifted drop t fuel (i + 1) s (omega (arith, enough)) same (
                  next-IsSifting cfg.ncores drop t s.0 i e (sym (same (s.0.states i)) ∙ stays) inv))
        ]
      ]

  -- With at most MAX_CORES cores and a test that removals do not affect, an eviction loop ends within
  -- one round for each slot in use, and leaves in use exactly the slots that the test does not name,
  -- each with all that the arrays store of it.
  pub evict-IsSifted :
      (s : Tables D × World)
      → (s' : Tables D × World) × (evict os cfg test s ≡ some s')
        × IsSifted cfg.ncores (λ st. test st s.1) s.0 s'.0
  unfolding evict
  evict-IsSifted s =
      evict_from-IsSifted (λ st. test st s.1) s.0 s.0.n_active 0 s (omega arith) (λ st. refl)
        (start-IsSifting cfg.ncores (λ st. test st s.1) s.0)

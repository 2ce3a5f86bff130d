-- ===== src/Monitor/SyncPids/Marking.antt =====
-- Which slots the top-N mode of `sync_pids` in final/src/monitor_final.c marks active.
use capstone_monitor.Base.{
  ℕ, zero, suc, ◌≤◌, ◌<◌, ◌≡◌, ◌≢◌, refl, sym, ap, ◌∙◌, inl, inr, Bool, true, false, ◌||◌, Option,
  none, some, List, [], ◌∷◌, elem, ◌==◌, eq→==, ne→==, set_self, set_ne, eq_cases, Option-cases,
  for_below, for_below-keeps, arith,
}
use mathlib.Core.Path.{subst}
use capstone_monitor.Double.{Double}
use capstone_monitor.Os.{Os}
use capstone_monitor.Monitor.{PidState, Tables, CoreConfig, Tracer}
use capstone_monitor.Monitor.Slots.{find_slot}
use capstone_monitor.Monitor.AddPid.{add_pid}
use capstone_monitor.Monitor.Added.{IsAdded, IsKept, add_pid-IsAdded}
use capstone_monitor.Monitor.SyncPids.{
  Processes, set_active, mark_inactive, mark_active, keep_pid, keep_all,
}
use capstone_monitor.Monitor.SyncPids.Valid.{
  IsValid, IsFound, find_slot-some, find_slot-none, added-IsValid, kept-IsValid,
}

-- a state but for its mark
abbrev unmarked : PidState → PidState
unmarked st = record st { active = false }

-- From the arrays `t`, the slots in use are still there, for the same pids and with the same
-- baselines, and a slot is active just if its pid is wanted.
pub record IsMarked {D : Type 0} (want : ℕ → Bool) (t u : Tables D) : Type 0 where
  pub valid : IsValid u
  pub more : t.n_active ≤ u.n_active
  pub old : (j : ℕ) → j < t.n_active → unmarked (u.states j) ≡ unmarked (t.states j)
  pub active : (j : ℕ) → j < u.n_active → (u.states j).active ≡ want (u.states j).pid

abbrev pub also : ℕ → (ℕ → Bool) → ℕ → Bool
also p want q = p == q || want q

also-same : (p q : ℕ) (want : ℕ → Bool) → p ≡ q → also p want q ≡ true
also-same p q want e = ap (λ b. b || want q) (eq→== p q e)

also-other : (p q : ℕ) (want : ℕ → Bool) → p ≢ q → also p want q ≡ want q
also-other p q want ne = ap (λ b. b || want q) (ne→== p q ne)

unmarked-set_active :
    {D : Type 0} (b : Bool) (i j : ℕ) (t : Tables D)
    → unmarked ((set_active b i t).states j) ≡ unmarked (t.states j)
unmarked-set_active b i j t = elim (eq_cases i j) [
  | inl e ↦
      subst (λ k. unmarked ((set_active b i t).states k) ≡ unmarked (t.states k)) e
        (ap unmarked (set_self t.states i (record (t.states i) { active = b })))
  | inr ne ↦ ap unmarked (set_ne t.states i j (record (t.states i) { active = b }) ne)
]

-- Marks leave the pids as they are.
marked-IsValid :
    {D : Type 0} (t u : Tables D)
    → u.n_active ≡ t.n_active
    → ((j : ℕ) → unmarked (u.states j) ≡ unmarked (t.states j))
    → IsValid t
    → IsValid u
marked-IsValid t u n same v =
    let pids = λ (j : ℕ). ap (λ (s : PidState). s.pid) (same j) in
    record {
      few = omega (arith, n, v.few);
      distinct = λ j k hj hk e.
          v.distinct j k (omega (arith, hj, n)) (omega (arith, hk, n)) (sym (pids j) ∙ e ∙ pids k);
    }

-- what `mark_inactive` leaves, behind `n` rounds
inactive_below :
    {D : Type 0} (n j : ℕ) (t : Tables D)
    → j < n
    → ((for_below n (set_active false) t).states j).active ≡ false
unfolding for_below
inactive_below zero j t h = absurd (omega (arith, h))
inactive_below (suc n) j t h =
    let u = for_below n (set_active false) t in
    elim (eq_cases n j) [
      | inl e ↦
          subst (λ k. ((set_active false n u).states k).active ≡ false) e
            (ap (λ (s : PidState). s.active) (set_self u.states n (unmarked (u.states n))))
      | inr ne ↦
          ap (λ (s : PidState). s.active) (set_ne u.states n j (unmarked (u.states n)) ne)
          ∙ inactive_below n j t (omega (arith, h, ne))
    ]

pub mark_inactive-IsMarked :
    {D : Type 0} (t : Tables D) → IsValid t → IsMarked (λ q. false) t (mark_inactive t)
unfolding mark_inactive
mark_inactive-IsMarked {D = D} t v =
    let u = for_below t.n_active (set_active false) t in
    let count : u.n_active ≡ t.n_active =
      for_below-keeps (λ (s : Tables D). s.n_active) (set_active false) t.n_active t
        (λ c s. refl) in
    let same = λ (j : ℕ).
      for_below-keeps (λ (s : Tables D). unmarked (s.states j)) (set_active false) t.n_active t
        (λ c s. unmarked-set_active false c j s) in
    record {
      valid = marked-IsValid t u count same v;
      more = omega (arith, count);
      old = λ j h. same j;
      active = λ j h. inactive_below t.n_active j t (omega (arith, h, count));
    }

-- A mark at the slot of a pid, where the others are marked already.
set_active-IsMarked :
    {D : Type 0} (want : ℕ → Bool) (p k : ℕ) (t u : Tables D)
    → IsValid u
    → IsFound u p k
    → t.n_active ≤ u.n_active
    → ((j : ℕ) → j < t.n_active → unmarked (u.states j) ≡ unmarked (t.states j))
    → ((j : ℕ) → k ≢ j → j < u.n_active → (u.states j).active ≡ want (u.states j).pid)
    → IsMarked (also p want) t (set_active true k u)
set_active-IsMarked want p k t u v f more old others =
    let v' = set_active true k u in
    record {
      valid = marked-IsValid u v' refl (λ j. unmarked-set_active true k j u) v;
      more = more;
      old = λ j h. unmarked-set_active true k j u ∙ old j h;
      active = λ j h. elim (eq_cases k j) [
        | inl e ↦
            let st = record (u.states k) { active = true } in
            subst (λ l. (v'.states l).active ≡ also p want (v'.states l).pid) e
              (subst (λ (s : PidState). s.active ≡ also p want s.pid) (sym (set_self u.states k st))
                (sym (also-same p (u.states k).pid want (sym f.same_pid))))
        | inr ne ↦
            let st = record (u.states k) { active = true } in
            let q = (u.states j).pid in
            let other = λ (e : p ≡ q). ne (v.distinct k j f.in_use h (f.same_pid ∙ e)) in
            subst (λ (s : PidState). s.active ≡ also p want s.pid) (sym (set_ne u.states k j st ne))
              (others j ne h ∙ sym (also-other p q want other))
      ];
    }

-- What `add_pid` leaves, for a pid that no slot is for, with the mark of the new slot.
kept-IsMarked :
    {D : Type 0} (want : ℕ → Bool) (p : ℕ) (t u u' : Tables D)
    → IsMarked want t u
    → find_slot u p ≡ none
    → IsKept u u'
    → IsMarked (also p want) t u'
kept-IsMarked want p t u u' m h k = record {
  valid = kept-IsValid u u' m.valid k;
  more = omega (arith, m.more, k.n_active);
  old = λ j lt. ap unmarked (k.states j) ∙ m.old j lt;
  active = λ j lt.
      let lt' : j < u.n_active = omega (arith, lt, k.n_active) in
      let other = λ (e : p ≡ (u.states j).pid). find_slot-none u p j h lt' (sym e) in
      subst (λ (s : PidState). s.active ≡ also p want s.pid) (sym (k.states j))
        (m.active j lt' ∙ sym (also-other p (u.states j).pid want other));
}

added-IsMarked :
    {D : Type 0} (want : ℕ → Bool) (p : ℕ) (t u u' : Tables D)
    → IsMarked want t u
    → find_slot u p ≡ none
    → IsAdded p u.n_active u u'
    → IsMarked (also p want) t (set_active true u.n_active u')
added-IsMarked want p t u u' m h a =
    let apart = λ (j : ℕ) (lt : j < t.n_active). a.others j (λ e. omega (arith, lt, e, m.more)) in
    set_active-IsMarked want p u.n_active t u' (added-IsValid p u u' m.valid h a)
      (record { in_use = omega (arith, a.n_active); same_pid = a.new_pid })
      (omega (arith, a.n_active, m.more)) (λ j lt. ap unmarked (apart j lt) ∙ m.old j lt)
      (λ j ne lt.
        subst (λ (s : PidState). s.active ≡ want s.pid) (sym (a.others j ne))
          (m.active j (omega (arith, lt, ne, a.n_active))))

module _ (d : Double) (os : Os) (cfg : CoreConfig) (tracer : Tracer os.World)
    (procs : Processes os.World) where
  open os use {World}
  open d use {Carrier}

  mark_active-none :
      (r : Option ℕ × Tables Carrier × World)
      → r.0 ≡ none
      → (mark_active d os cfg tracer procs r).0 ≡ r.1
  unfolding mark_active
  mark_active-none (none, t, w) e = refl
  mark_active-none (some k, t, w) e = absurd (some_none e)
    where
      some_none : {k : ℕ} → some k ≡ none → ⊥
      some_none e = grind arith

  mark_active-some :
      (k : ℕ) (r : Option ℕ × Tables Carrier × World)
      → r.0 ≡ some k
      → (mark_active d os cfg tracer procs r).0 ≡ set_active true k r.1
  unfolding mark_active
  mark_active-some k (none, t, w) e = absurd (none_some e)
    where
      none_some : {k : ℕ} → none ≡ some k → ⊥
      none_some e = grind arith
  mark_active-some k (some l, t, w) e = ap (λ i. set_active true i t) (some_eq e)
    where
      some_eq : {k l : ℕ} → some l ≡ some k → l ≡ k
      some_eq e = grind arith

  keep_pid-IsMarked :
      (want : ℕ → Bool) (p : ℕ) (t : Tables Carrier) (s : Tables Carrier × World)
      → IsMarked want t s.0
      → IsMarked (also p want) t (keep_pid d os cfg tracer procs p s).0
  unfolding keep_pid
  keep_pid-IsMarked want p t (u, w) m = elim (Option-cases (find_slot u p)) [
    | inr (k, e) ↦
        rw (keep_pid, e)
          (set_active-IsMarked want p k t u m.valid (find_slot-some u p k e) m.more m.old
            (λ j ne h. m.active j h))
    | inl e ↦
        let r = add_pid d os cfg tracer p (u, w) in
        rw (keep_pid, e)
          (elim (add_pid-IsAdded d os cfg tracer p u w) [
            | inl (fails, k) ↦
                subst (IsMarked (also p want) t) (sym (mark_active-none r fails))
                  (kept-IsMarked want p t u r.1 m e k)
            | inr (works, a) ↦
                subst (IsMarked (also p want) t) (sym (mark_active-some u.n_active r works))
                  (added-IsMarked want p t u r.1 m e a)
          ])
  ]

  pub keep_all-IsMarked :
      (want : ℕ → Bool) (ps : List ℕ) (t : Tables Carrier) (s : Tables Carrier × World)
      → IsMarked want t s.0
      → IsMarked (λ q. elem q ps || want q) t (keep_all d os cfg tracer procs ps s).0
  unfolding keep_all
  keep_all-IsMarked want [] t s m = m
  keep_all-IsMarked want (p ∷ ps) t s m =
      let r = keep_all d os cfg tracer procs ps (keep_pid d os cfg tracer procs p s) in
      let rest =
        keep_all-IsMarked (also p want) ps t (keep_pid d os cfg tracer procs p s)
          (keep_pid-IsMarked want p t s m) in
      subst (λ f. IsMarked f t r.0) (λ k q. or-swap (elem q ps) (p == q) (want q) k) rest
    where
      or-swap : (a b c : Bool) → (a || (b || c)) ≡ ((b || a) || c)
      or-swap true true c = refl
      or-swap true false c = refl
      or-swap false true c = refl
      or-swap false false c = refl

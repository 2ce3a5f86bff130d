-- ===== src/Monitor/SyncPids/Valid.antt =====
-- The invariant of the slots of final/src/monitor_final.c: at most MAX_PIDS are in use, no two of
-- them for the same pid.
use capstone_monitor.Base.{
  ℕ, zero, suc, ◌+◌, ◌-◌, ◌≤◌, ◌<◌, ◌≡◌, ◌≢◌, refl, sym, ap, ◌∙◌, inl, inr, Bool, true, false,
  Option, none, some, ◌==◌, ==→eq, eq→==, if◌then◌else◌, Array, if_both, eq_cases, Bool-cases, ltb,
  not, arith,
}
use mathlib.Core.Path.{subst}
use capstone_monitor.Double.{Double}
use capstone_monitor.Os.{Os}
use capstone_monitor.Monitor.{max_pids, max_cores, PidState, Tables, CoreConfig, Tracer}
use capstone_monitor.Monitor.Slots.{find_from, find_slot, remove_slot}
use capstone_monitor.Monitor.AddPid.{add_pid}
use capstone_monitor.Monitor.Added.{IsAdded, IsKept, add_pid-IsAdded}
use capstone_monitor.Monitor.Removal.{remove_slot-IsMoved, n_active-remove_slot}
use capstone_monitor.Monitor.Eviction.{evict_from, evict}

pub record IsValid {D : Type 0} (t : Tables D) : Type 0 where
  pub few : t.n_active ≤ max_pids
  pub distinct :
      (j k : ℕ) → j < t.n_active → k < t.n_active → (t.states j).pid ≡ (t.states k).pid → j ≡ k

-- Slot `k` is in use for the pid.
pub record IsFound {D : Type 0} (t : Tables D) (pid k : ℕ) : Type 0 where
  pub in_use : k < t.n_active
  pub same_pid : (t.states k).pid ≡ pid

find_from-some :
    (s : Array PidState) (pid i n k : ℕ)
    → find_from s pid i n ≡ some k
    → (k < i + n) × ((s k).pid ≡ pid)
unfolding find_from
find_from-some s pid i zero k h = absurd (none_some h)
  where
    none_some : none ≡ some k → ⊥
    none_some e = grind arith
find_from-some s pid i (suc n) k h = elim (Bool-cases ((s i).pid == pid)) [
  | inl e ↦
      let at : i ≡ k = some-eq (sym (go e) ∙ h) in
      (omega (arith, at), subst (λ j. (s j).pid ≡ pid) at (==→eq (s i).pid pid e))
  | inr ne ↦
      let r = find_from-some s pid (i + 1) n k (sym (go-next ne) ∙ h) in (omega (arith, r.0), r.1)
]
  where
    some-eq : {a b : ℕ} → some a ≡ some b → a ≡ b
    some-eq e = grind arith

    go : ((s i).pid == pid) ≡ true → find_from s pid i (suc n) ≡ some i
    go e = rw e refl

    go-next : ((s i).pid == pid) ≡ false → find_from s pid i (suc n) ≡ find_from s pid (i + 1) n
    go-next e = rw e refl

find_from-none :
    (s : Array PidState) (pid i n k : ℕ)
    → find_from s pid i n ≡ none
    → i ≤ k
    → k < i + n
    → (s k).pid ≢ pid
unfolding find_from
find_from-none s pid i zero k h lo hi = absurd (omega (arith, lo, hi))
find_from-none s pid i (suc n) k h lo hi = elim (Bool-cases ((s i).pid == pid)) [
  | inl e ↦
      let found : find_from s pid i (suc n) ≡ some i = rw e refl in
      absurd (some_none (sym found ∙ h))
  | inr ne ↦ elim (eq_cases i k) [
    | inl at ↦ subst (λ j. (s j).pid ≢ pid) at (λ e. true_false (sym (eq→== (s i).pid pid e) ∙ ne))
    | inr later ↦
        let next : find_from s pid i (suc n) ≡ find_from s pid (i + 1) n = rw ne refl in
        find_from-none s pid (i + 1) n k (sym next ∙ h) (omega (arith, lo, later))
          (omega (arith, hi))
  ]
]
  where
    some_none : some i ≡ none → ⊥
    some_none e = grind arith

    true_false : true ≡ false → ⊥
    true_false e = grind arith

pub find_slot-some :
    {D : Type 0} (t : Tables D) (pid k : ℕ) → find_slot t pid ≡ some k → IsFound t pid k
unfolding find_slot
find_slot-some t pid k h =
    let r = find_from-some t.states pid 0 t.n_active k h in
    record { in_use = omega (arith, r.0); same_pid = r.1 }

pub find_slot-none :
    {D : Type 0} (t : Tables D) (pid k : ℕ)
    → find_slot t pid ≡ none
    → k < t.n_active
    → (t.states k).pid ≢ pid
unfolding find_slot
find_slot-none t pid k h lt =
    find_from-none t.states pid 0 t.n_active k h (omega arith) (omega (arith, lt))

-- A slot for a pid that no slot is for keeps the pids distinct.
pub added-IsValid :
    {D : Type 0} (pid : ℕ) (t t' : Tables D)
    → IsValid t
    → find_slot t pid ≡ none
    → IsAdded pid t.n_active t t'
    → IsValid t'
added-IsValid pid t t' v h a =
    let old = λ (j : ℕ) (lt : j < t.n_active).
      ap (λ (s : PidState). s.pid) (a.others j (λ e. omega (arith, lt, e))) in
    let other = λ (j : ℕ) (lt : j < t.n_active). find_slot-none t pid j h lt in
    let new = λ (j : ℕ) (at : j ≡ t.n_active). ap (λ k. (t'.states k).pid) at ∙ a.new_pid in
    record {
      few = a.few;
      distinct = λ j k hj hk e. elim (eq_cases j t.n_active) [
        | inl ej ↦ elim (eq_cases k t.n_active) [
          | inl ek ↦ ej ∙ sym ek
          | inr nk ↦
              let lt : k < t.n_active = omega (arith, hk, nk, a.n_active) in
              absurd (other k lt (sym (old k lt) ∙ sym e ∙ new j ej))
        ]
        | inr nj ↦ elim (eq_cases k t.n_active) [
          | inl ek ↦
              let lt : j < t.n_active = omega (arith, hj, nj, a.n_active) in
              absurd (other j lt (sym (old j lt) ∙ e ∙ new k ek))
          | inr nk ↦
              let lj : j < t.n_active = omega (arith, hj, nj, a.n_active) in
              let lk : k < t.n_active = omega (arith, hk, nk, a.n_active) in
              v.distinct j k lj lk (sym (old j lj) ∙ e ∙ old k lk)
        ]
      ];
    }

pub kept-IsValid : {D : Type 0} (t t' : Tables D) → IsValid t → IsKept t t' → IsValid t'
kept-IsValid t t' v k =
    let same = λ (j : ℕ). ap (λ (s : PidState). s.pid) (k.states j) in
    record {
      few = omega (arith, k.n_active, v.few);
      distinct = λ i j hi hj e.
          v.distinct i j (omega (arith, hi, k.n_active)) (omega (arith, hj, k.n_active))
            (sym (same i) ∙ e ∙ same j);
    }

module _ (d : Double) (os : Os) (cfg : CoreConfig) (tracer : Tracer os.World) where
  -- `add_pid`, for a pid that no slot is for, keeps the invariant, also if it fails.
  pub add_pid-IsValid :
      (pid : ℕ) (t : Tables d.Carrier) (w : os.World)
      → IsValid t
      → find_slot t pid ≡ none
      → IsValid (add_pid d os cfg tracer pid (t, w)).1
  add_pid-IsValid pid t w v h = elim (add_pid-IsAdded d os cfg tracer pid t w) [
    | inl (_, k) ↦ kept-IsValid t (add_pid d os cfg tracer pid (t, w)).1 v k
    | inr (_, a) ↦ added-IsValid pid t (add_pid d os cfg tracer pid (t, w)).1 v h a
  ]

-- where the slot `j` behind a removal of slot `i` was, of `n` slots
source : ℕ → ℕ → ℕ → ℕ
source n i j = if i == j then n - 1 else j

source_lt : (n i j : ℕ) → j < n - 1 → source n i j < n
unfolding source
source_lt n i j h = ground arith

source-injective : (n i j k : ℕ) → j < n - 1 → k < n - 1 → source n i j ≡ source n i k → j ≡ k
unfolding source
source-injective n i j k hj hk e = ground arith

module _ {D : Type 0} (os : Os) (cfg : CoreConfig) (few : cfg.ncores ≤ max_cores) where
  open os use {World}

  -- `remove_slot` keeps the invariant.
  pub remove_slot-IsValid :
      (i : ℕ) (s : Tables D × World) → IsValid s.0 → IsValid (remove_slot os cfg i s).0
  unfolding source
  remove_slot-IsValid i s v =
      let n = s.0.n_active in
      let u = (remove_slot os cfg i s).0 in
      let less = n_active-remove_slot os cfg i s in
      let from = λ (j : ℕ) (h : j < n - 1).
        ap (λ (x : PidState). x.pid) (remove_slot-IsMoved os cfg i j s few h).1.states in
      record {
        few = omega (arith, less, v.few);
        distinct = λ j k hj hk e.
            let lj : j < n - 1 = omega (arith, hj, less) in
            let lk : k < n - 1 = omega (arith, hk, less) in
            source-injective n i j k lj lk (
              v.distinct (source n i j) (source n i k) (source_lt n i j lj) (source_lt n i k lk)
                (sym (from j lj) ∙ e ∙ from k lk));
      }

-- A property of the arrays that a loop returns, if it returns any.
abbrev pub Holds : {D W : Type 0} → (Tables D → Type 0) → Option (Tables D × W) → Type 0
Holds P none = Unit {0}
Holds P (some s) = P s.0

-- An invariant of removals is one of an eviction loop.
module _ {D : Type 0} (os : Os) (cfg : CoreConfig) (test : PidState → os.World → Bool)
    (P : Tables D → Type 0)
    (step : (i : ℕ) (s : Tables D × os.World) → P s.0 → P (remove_slot os cfg i s).0) where
  evict_from-Holds :
      (fuel i : ℕ) (s : Tables D × os.World) → P s.0 → Holds P (evict_from os cfg test fuel i s)
  unfolding evict_from
  evict_from-Holds zero i s p = if_both (Holds P) (ltb i s.0.n_active) tt p
  evict_from-Holds (suc fuel) i s p = if_both (Holds P) (not (ltb i s.0.n_active)) p (
      if_both (Holds P) (test (s.0.states i) s.1)
        (evict_from-Holds fuel i (remove_slot os cfg i s) (step i s p))
        (evict_from-Holds fuel (i + 1) s p))

  pub evict-keeps : (s s' : Tables D × os.World) → evict os cfg test s ≡ some s' → P s.0 → P s'.0
  unfolding evict
  evict-keeps s s' e p = subst (Holds P) e (evict_from-Holds s.0.n_active 0 s p)

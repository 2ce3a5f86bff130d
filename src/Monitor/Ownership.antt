-- ===== src/Monitor/Ownership.antt =====
-- Which descriptors the slots of final/src/monitor_final.c own, without --per-core: each that the
-- daemon has opened belongs to one slot in use.
pub mod Removed
pub mod Changes
pub mod Sync
pub mod Loop
pub mod Returned
pub mod Closed
use capstone_monitor.Base.{
  ℕ, zero, suc, ◌+◌, ◌-◌, ◌<◌, ◌≡◌, ◌≢◌, refl, sym, ap, ap₂, ◌∙◌, ◌⊎◌, inl, inr, Bool, true, false,
  ◌||◌, ◌&&◌, not, Array, if◌then◌else◌, ◌==◌, Bool-cases, eq_cases, ==→eq, eq→==, ne→==, arith,
}
use mathlib.Core.Path.{subst}
use capstone_monitor.PerfCounter.{PerfCounter}
use capstone_monitor.PerfCounter.Descriptors.{holds}
use capstone_monitor.Monitor.Lifetime.Counters.{any_below}

pub any_below-true : (n k : ℕ) (p : ℕ → Bool) → k < n → p k ≡ true → any_below n p ≡ true
any_below-true zero k p lt h = absurd (omega (arith, lt))
any_below-true (suc n) k p lt h = elim (eq_cases k n) [
  | inl e ↦ rw (sym (ap p e) ∙ h) (or_true (any_below n p))
  | inr ne ↦ rw (any_below-true n k p (omega (arith, lt, ne)) h) refl
]
  where
    or_true : (b : Bool) → (b || true) ≡ true
    or_true b = ground arith

pub any_below-false :
    (n : ℕ) (p : ℕ → Bool) → ((k : ℕ) → k < n → p k ≡ false) → any_below n p ≡ false
any_below-false zero p h = refl
any_below-false (suc n) p h =
    rw (any_below-false n p (λ k lt. h k (omega (arith, lt))), h n (omega arith)) refl

pub any_below-cases :
    (n : ℕ) (p : ℕ → Bool) → ((k : ℕ) × (k < n) × (p k ≡ true)) ⊎ ((k : ℕ) → k < n → p k ≡ false)
any_below-cases zero p = inr (λ k lt. absurd (omega (arith, lt)))
any_below-cases (suc n) p = elim (any_below-cases n p) [
  | inl (k, lt, h) ↦ inl (k, omega (arith, lt), h)
  | inr none_below ↦ elim (Bool-cases (p n)) [
    | inl h ↦ inl (n, omega arith, h)
    | inr h ↦ inr (λ k lt. elim (eq_cases k n) [
      | inl e ↦ ap p e ∙ h
      | inr ne ↦ none_below k (omega (arith, lt, ne))
    ])
  ]
]

-- Of the open descriptors `opened`, those that were not open before, in `before`, are held by one of
-- the `n` counters each.
pub record IsOwned (before : ℕ → Bool) (n : ℕ) (perf : Array PerfCounter) (opened : ℕ → Bool)
    : Type 0 where
  pub exact : (f : ℕ) → opened f ≡ (before f || any_below n (λ i. holds (perf i) f))
  pub new : (i f : ℕ) → i < n → holds (perf i) f ≡ true → before f ≡ false
  pub apart :
      (i j f : ℕ) → i < n → j < n → i ≢ j → holds (perf i) f ≡ true → holds (perf j) f ≡ false

-- What is open is as before, and so are the counters of the slots in use.
pub IsOwned-keeps :
    (before : ℕ → Bool) (n : ℕ) (perf perf' : Array PerfCounter) (opened opened' : ℕ → Bool)
    → ((i : ℕ) → i < n → perf' i ≡ perf i)
    → ((f : ℕ) → opened' f ≡ opened f)
    → IsOwned before n perf opened
    → IsOwned before n perf' opened'
IsOwned-keeps before n perf perf' opened opened' e h o = record {
  exact = λ f. h f ∙ o.exact f ∙ ap (λ b. before f || b) (sym (any_below-cong f n e));
  new = λ i f lt q. o.new i f lt (sym (held i f lt) ∙ q);
  apart = λ i j f li lj ne q. held j f lj ∙ o.apart i j f li lj ne (sym (held i f li) ∙ q);
}
  where
    held : (i f : ℕ) → i < n → holds (perf' i) f ≡ holds (perf i) f
    held i f lt = ap (λ p. holds p f) (e i lt)

    any_below-cong :
        (f m : ℕ)
        → ((i : ℕ) → i < m → perf' i ≡ perf i)
        → any_below m (λ i. holds (perf' i) f) ≡ any_below m (λ i. holds (perf i) f)
    any_below-cong f zero e = refl
    any_below-cong f (suc m) e =
        ap₂ ◌||◌ (any_below-cong f m (λ i lt. e i (omega (arith, lt))))
          (ap (λ p. holds p f) (e m (omega arith)))

or_assoc : (a b c : Bool) → ((a || b) || c) ≡ (a || (b || c))
or_assoc a b c = ground arith

or_false : (a b : Bool) → (a || b) ≡ false → a ≡ false
or_false a b h = ground (arith, h)

and_false : (a b : Bool) → (a && b) ≡ false → a ≡ true → b ≡ false
and_false a b h e = ground (arith, h, e)

and_false_right : (a b : Bool) → (a && b) ≡ false → b ≡ true → a ≡ false
and_false_right a b h e = ground (arith, h, e)

or_true_right : (a b : Bool) → b ≡ true → (a || b) ≡ true
or_true_right a b e = ground (arith, e)

pub no_path : {A : Type 0} → true ≡ false → A
no_path e = absurd (grind (arith, e))

-- What a counter holds is open.
pub held-opened :
    (before : ℕ → Bool) (n : ℕ) (perf : Array PerfCounter) (opened : ℕ → Bool) (i f : ℕ)
    → IsOwned before n perf opened
    → i < n
    → holds (perf i) f ≡ true
    → opened f ≡ true
held-opened before n perf opened i f o lt h =
    o.exact f ∙ or_true_right (before f) _ (any_below-true n i (λ k. holds (perf k) f) lt h)

-- A counter that is opened becomes the last one.
pub IsOwned-add :
    (before : ℕ → Bool) (n : ℕ) (perf perf' : Array PerfCounter) (opened opened' : ℕ → Bool)
    → ((i : ℕ) → i < n → perf' i ≡ perf i)
    → ((f : ℕ) → opened' f ≡ (opened f || holds (perf' n) f))
    → ((f : ℕ) → (holds (perf' n) f && opened f) ≡ false)
    → IsOwned before n perf opened
    → IsOwned before (suc n) perf' opened'
IsOwned-add before n perf perf' opened opened' e h fresh o = record {
  exact = λ f.
      h f
      ∙ ap (λ b. b || holds (perf' n) f) (kept.exact f)
      ∙ or_assoc (before f) (any_below n (λ i. holds (perf' i) f)) (holds (perf' n) f);
  new = λ i f lt q. elim (eq_cases i n) [
    | inl s ↦ or_false (before f) (any_below n (λ k. holds (perf' k) f)) (
        sym (kept.exact f)
        ∙ and_false _ (opened f) (fresh f) (ap (λ k. holds (perf' k) f) (sym s) ∙ q))
    | inr ne ↦ kept.new i f (omega (arith, lt, ne)) q
  ];
  apart = λ i j f li lj ne q. elim (eq_cases i n) [
    | inl s ↦
        unheld j f (omega (arith, lj, ne, s))
          (and_false _ (opened f) (fresh f) (ap (λ k. holds (perf' k) f) (sym s) ∙ q))
    | inr ni ↦ elim (eq_cases j n) [
      | inl s ↦
          ap (λ k. holds (perf' k) f) s
          ∙ and_false_right _ (opened f) (fresh f)
              (held-opened before n perf' opened i f kept (omega (arith, li, ni)) q)
      | inr nj ↦ kept.apart i j f (omega (arith, li, ni)) (omega (arith, lj, nj)) ne q
    ]
  ];
}
  where
    kept : IsOwned before n perf' opened
    kept = IsOwned-keeps before n perf perf' opened opened e (λ f. refl) o

    unheld : (j f : ℕ) → j < n → opened f ≡ false → holds (perf' j) f ≡ false
    unheld j f lt closed = elim (Bool-cases (holds (perf' j) f)) [
      | inl t ↦ no_path (sym (held-opened before n perf' opened j f kept lt t) ∙ closed)
      | inr u ↦ u
    ]

-- ===== src/Monitor/Ownership/Removed.antt =====
-- What is owned of the counters of final/src/monitor_final.c when that of one slot is closed and the
-- last one takes its place.
use capstone_monitor.Base.{
  ℕ, ◌-◌, ◌<◌, ◌≡◌, ◌≢◌, sym, ap, ap₂, ◌∙◌, inl, inr, Bool, true, false, ◌||◌, ◌&&◌, not, Array,
  if◌then◌else◌, ◌==◌, Bool-cases, eq_cases, arith,
}
use capstone_monitor.PerfCounter.{PerfCounter}
use capstone_monitor.PerfCounter.Descriptors.{holds}
use capstone_monitor.Monitor.Lifetime.Counters.{any_below}
use capstone_monitor.Monitor.Ownership.{
  IsOwned, any_below-true, any_below-false, any_below-cases, no_path,
}

-- where slot `j` comes from if slot `i` of `n` is removed
abbrev pub source : ℕ → ℕ → ℕ → ℕ
source n i j = if i == j then n - 1 else j

source_lt : (n i j : ℕ) → j < n - 1 → source n i j < n
source_lt n i j lt = ground (arith, lt)

source_ne : (n i j : ℕ) → j < n - 1 → i ≢ source n i j
source_ne n i j lt = ground (arith, lt)

source_apart : (n i j k : ℕ) → j < n - 1 → k < n - 1 → j ≢ k → source n i j ≢ source n i k
source_apart n i j k lj lk ne = ground (arith, lj, lk, ne)

-- The counter of slot `i` is closed, and the last one takes its place.
pub IsOwned-remove :
    (before : ℕ → Bool) (n i : ℕ) (perf perf' : Array PerfCounter) (opened opened' : ℕ → Bool)
    → i < n
    → ((j : ℕ) → j < n - 1 → perf' j ≡ perf (source n i j))
    → ((f : ℕ) → opened' f ≡ (opened f && not (holds (perf i) f)))
    → IsOwned before n perf opened
    → IsOwned before (n - 1) perf' opened'
IsOwned-remove before n i perf perf' opened opened' lt moved closed o = record {
  exact = λ f. elim (Bool-cases (holds (perf i) f)) [
    | inl q ↦
        closed f
        ∙ ap (λ b. opened f && not b) q
        ∙ and_not_true (opened f)
        ∙ sym (
            ap₂ ◌||◌ (o.new i f lt q) (
              any_below-false (n - 1) _ (λ j lj.
                held j f lj
                ∙ o.apart i (source n i j) f lt (source_lt n i j lj) (source_ne n i j lj) q)))
    | inr q ↦
        closed f
        ∙ ap (λ b. opened f && not b) q
        ∙ and_not_false (opened f)
        ∙ o.exact f
        ∙ ap (λ b. before f || b) (same_any f q)
  ];
  new = λ j f lj q. o.new (source n i j) f (source_lt n i j lj) (sym (held j f lj) ∙ q);
  apart = λ j k f lj lk ne q.
      held k f lk
      ∙ o.apart (source n i j) (source n i k) f (source_lt n i j lj) (source_lt n i k lk)
          (source_apart n i j k lj lk ne) (sym (held j f lj) ∙ q);
}
  where
    and_not_true : (a : Bool) → (a && not true) ≡ false
    and_not_true a = ground arith

    and_not_false : (a : Bool) → (a && not false) ≡ a
    and_not_false a = ground arith

    held : (j f : ℕ) → j < n - 1 → holds (perf' j) f ≡ holds (perf (source n i j)) f
    held j f lj = ap (λ p. holds p f) (moved j lj)

    at_other : (k : ℕ) → i ≢ k → source n i k ≡ k
    at_other k ne = ground (arith, ne)

    at_self : source n i i ≡ n - 1
    at_self = ground arith

    same_any :
        (f : ℕ)
        → holds (perf i) f ≡ false
        → any_below n (λ k. holds (perf k) f) ≡ any_below (n - 1) (λ k. holds (perf' k) f)
    same_any f q = elim (any_below-cases n (λ k. holds (perf k) f)) [
      | inr none_held ↦
          any_below-false n _ none_held
          ∙ sym (
              any_below-false (n - 1) _
                (λ j lj. held j f lj ∙ none_held (source n i j) (source_lt n i j lj)))
      | inl (k, lk, hk) ↦
          let ne : i ≢ k = λ e. no_path (sym hk ∙ ap (λ m. holds (perf m) f) (sym e) ∙ q) in
          any_below-true n k _ lk hk
          ∙ sym (elim (eq_cases k (n - 1)) [
            | inl e ↦
                let li : i < n - 1 = omega (arith, lt, ne, e) in
                any_below-true (n - 1) i _ li
                  (held i f li ∙ ap (λ m. holds (perf m) f) (at_self ∙ sym e) ∙ hk)
            | inr nk ↦
                let lk' : k < n - 1 = omega (arith, lk, nk) in
                any_below-true (n - 1) k _ lk'
                  (held k f lk' ∙ ap (λ m. holds (perf m) f) (at_other k ne) ∙ hk)
          ])
    ]

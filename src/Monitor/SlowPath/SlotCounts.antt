-- ===== src/Monitor/SlowPath/SlotCounts.antt =====
-- The number of slots for a pid, from one slot on.
use capstone_monitor.Base.{
  ℕ, zero, suc, ◌+◌, ◌≤◌, ◌<◌, ◌≡◌, refl, ap, ◌==◌, if◌then◌else◌, Array, arith,
}
use capstone_monitor.Monitor.{PidState}

-- 1 for the pid and 0 for others
abbrev pub hit : ℕ → ℕ → ℕ
hit p q = if q == p then 1 else 0

-- how many of the `k` slots from slot `i` on are for the pid
abbrev pub slots_of : ℕ → Array PidState → ℕ → ℕ → ℕ
slots_of p states i zero = 0
slots_of p states i (suc k) = hit p (states i).pid + slots_of p states (i + 1) k

pub slots_of-same :
    (p : ℕ) (s s' : Array PidState) (i k : ℕ)
    → ((j : ℕ) → i ≤ j → j < i + k → (s' j).pid ≡ (s j).pid)
    → slots_of p s' i k ≡ slots_of p s i k
slots_of-same p s s' i zero h = refl
slots_of-same p s s' i (suc k) h = omega (
  arith,
  ap (hit p) (h i (omega arith) (omega arith)),
  slots_of-same p s s' (i + 1) k (λ j a b. h j (omega arith) (omega arith)),
)

slots_of-last :
    (p : ℕ) (s : Array PidState) (i k : ℕ)
    → slots_of p s i (suc k) ≡ slots_of p s i k + hit p (s (i + k)).pid
slots_of-last p s i zero = omega (arith, ap (λ (j : ℕ). hit p (s j).pid) (plus_zero i))
  where
    plus_zero : (n : ℕ) → n ≡ n + 0
    plus_zero n = omega arith
slots_of-last p s i (suc k) =
    omega (arith, slots_of-last p s (i + 1) k, ap (λ (j : ℕ). hit p (s j).pid) (plus_suc i k))
  where
    plus_suc : (n m : ℕ) → n + 1 + m ≡ n + suc m
    plus_suc n m = omega arith

-- What a removal of slot `i` leaves of the `k` slots behind it: the last one has come to `i`.
pub slots_of-removed :
    (p : ℕ) (s s' : Array PidState) (i k : ℕ)
    → ((j : ℕ) → i < j → j < i + k → s' j ≡ s j)
    → (0 < k → s' i ≡ s (i + k))
    → slots_of p s i (suc k) ≡ hit p (s i).pid + slots_of p s' i k
slots_of-removed p s s' i zero stays comes = refl
slots_of-removed p s s' i (suc k) stays comes = omega (
  arith,
  slots_of-last p s (i + 1) k,
  slots_of-same p s s' (i + 1) k
      (λ j a b. ap (λ (x : PidState). x.pid) (stays j (omega (arith, a)) (omega (arith, b)))),
  ap (λ (x : PidState). hit p x.pid) (comes (omega arith)),
  ap (λ (j : ℕ). hit p (s j).pid) (plus_suc i k),
)
  where
    plus_suc : (n m : ℕ) → n + 1 + m ≡ n + suc m
    plus_suc n m = omega arith

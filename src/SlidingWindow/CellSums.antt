-- ===== src/SlidingWindow/CellSums.antt =====
-- Sums over the cells of a full or partly filled buffer of numbers, against the sum of the newest
-- samples.
use capstone_monitor.Base.{
  ℕ, zero, suc, ◌+◌, ◌*◌, ◌%◌, ◌^◌, ◌≤◌, ◌<◌, ◌≡◌, refl, ap, ◌∙◌, sym, inl, inr, ◌==◌,
  if◌then◌else◌, List, [], ◌∷◌, length, get_or, take, min, arith, Array, eq_cases, eq→==, ne→==,
}
use native.Mathlib.Decide.{dec_lt}
use capstone_monitor.SlidingWindow.{swag_capacity}
use capstone_monitor.SlidingWindow.History.{cell, cell-get_or}

abbrev pub sum : List ℕ → ℕ
sum [] = 0
sum (x ∷ xs) = x + sum xs

-- f 0 + … + f (n - 1)
abbrev pub sum_to : Array ℕ → ℕ → ℕ
sum_to f zero = 0
sum_to f (suc n) = sum_to f n + f n

-- `swag_capacity` samples up to this bound have a sum of at most 2^53.
abbrev pub max_sample : ℕ
max_sample = 2 ^ 49

abbrev pub Bounded : List ℕ → Type 0
Bounded [] = Unit {0}
Bounded (x ∷ xs) = (x ≤ max_sample) × Bounded xs

pub sum-take-le : (n : ℕ) (xs : List ℕ) → Bounded xs → sum (take n xs) ≤ n * max_sample
sum-take-le zero xs b = omega arith
sum-take-le (suc n) [] b = omega arith
sum-take-le (suc n) (x ∷ xs) b = omega (arith, sum-take-le n xs b.1, b.0)

pub sum-take-suc : (n : ℕ) (xs : List ℕ) → sum (take (suc n) xs) ≡ sum (take n xs) + get_or xs n 0
sum-take-suc zero [] = refl
sum-take-suc (suc n) [] = refl
sum-take-suc zero (x ∷ xs) = omega arith
sum-take-suc (suc n) (x ∷ xs) = omega (arith, sum-take-suc n xs)

pub get_or-short : (n : ℕ) (xs : List ℕ) → length xs ≤ n → get_or xs n 0 ≡ 0
get_or-short n [] h = refl
get_or-short zero (x ∷ xs) h = absurd (omega (arith, h))
get_or-short (suc n) (x ∷ xs) h = get_or-short n xs (omega arith)

-- One changed cell changes the sum by the difference.
sum_to-above :
    (f : Array ℕ) (i x n : ℕ) → n ≤ i → sum_to (λ j. if i == j then x else f j) n ≡ sum_to f n
sum_to-above f i x zero h = refl
sum_to-above f i x (suc n) h =
    rw (ne→== i n (λ e. omega arith)) (ap (λ s. s + f n) (sum_to-above f i x n (omega arith)))

sum_to-set :
    (f : Array ℕ) (i x n : ℕ)
    → i < n
    → sum_to (λ j. if i == j then x else f j) n + f i ≡ sum_to f n + x
sum_to-set f i x zero h = absurd (omega (arith, h))
sum_to-set f i x (suc n) h = elim (eq_cases i n) [
  | inl e ↦ rw (eq→== i n e) (omega (arith, sum_to-above f i x n (omega arith), ap f e))
  | inr ne ↦ rw (ne→== i n ne) (omega (arith, sum_to-set f i x n (omega (arith, ne, h))))
]

-- The cells sum up to the newest `swag_capacity` samples.
sum_to-cell : (xs : List ℕ) → sum_to (cell 0 xs) swag_capacity ≡ sum (take swag_capacity xs)
unfolding cell
sum_to-cell [] = refl
sum_to-cell (x ∷ xs) = omega (
  arith,
  sum_to-set (cell 0 xs) (length xs % swag_capacity) x swag_capacity (omega arith),
  sum_to-cell xs,
  sum-take-suc 9 xs,
  oldest,
)
  where
    oldest : cell 0 xs (length xs % swag_capacity) ≡ get_or xs 9 0
    oldest =
        ap (λ k. cell 0 xs (k % swag_capacity)) (omega arith) ∙ cell-get_or 0 xs 0 (omega arith)

-- The cells that are not filled yet hold 0.
cell-unfilled : (xs : List ℕ) (j : ℕ) → length xs ≤ j → j < swag_capacity → cell 0 xs j ≡ 0
unfolding cell
cell-unfilled [] j h lt = refl
cell-unfilled (x ∷ xs) j h lt =
    rw (ne→== (length xs % swag_capacity) j (λ e. omega arith))
      (cell-unfilled xs j (omega arith) lt)

sum_to-unfilled :
    (xs : List ℕ) (n : ℕ)
    → n ≤ swag_capacity
    → length xs ≤ n
    → sum_to (cell 0 xs) n ≡ sum_to (cell 0 xs) (length xs)
sum_to-unfilled xs zero h le = ap (sum_to (cell 0 xs)) {x = 0} (omega arith)
sum_to-unfilled xs (suc n) h le = elim (eq_cases (length xs) (suc n)) [
  | inl e ↦ ap (sum_to (cell 0 xs)) (sym e)
  | inr ne ↦
      omega (
        arith,
        sum_to-unfilled xs n (omega arith) (omega arith),
        cell-unfilled xs n (omega arith) h,
      )
]

pub cell-le : (xs : List ℕ) (j : ℕ) → Bounded xs → cell 0 xs j ≤ max_sample
unfolding cell
cell-le [] j b = omega arith
cell-le (x ∷ xs) j b = ground (arith, cell-le xs j b.1)

-- The filled cells sum up to the newest `swag_capacity` samples.
pub sum_to-filled :
    (xs : List ℕ) (c : ℕ)
    → c ≡ min swag_capacity (length xs)
    → sum_to (cell 0 xs) c ≡ sum (take swag_capacity xs)
sum_to-filled xs c h = elim (dec_lt swag_capacity (length xs)) [
  | yes long ↦ ap (sum_to (cell 0 xs)) {y = swag_capacity} (omega arith) ∙ sum_to-cell xs
  | no short ↦
      ap (sum_to (cell 0 xs)) {y = length xs} (omega arith)
      ∙ sym (sum_to-unfilled xs swag_capacity (omega arith) (omega arith))
      ∙ sum_to-cell xs
]

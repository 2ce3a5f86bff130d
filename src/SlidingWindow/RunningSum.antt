-- ===== src/SlidingWindow/RunningSum.antt =====
-- The running sum of sliding_window.c against the sum of the samples in the window.
use capstone_monitor.Base.{
  ℕ, zero, suc, ◌+◌, ◌*◌, ◌%◌, ◌≤◌, ◌≡◌, ◌≢◌, refl, sym, ap, ap₂, ◌∙◌, inl, inr, ◌==◌, leb,
  if◌then◌else◌, List, [], ◌∷◌, map, length, get_or, take, min, arith, Array, eq_cases, eq→==,
  ne→==, Bool, Bool-cases, true, false,
}
use capstone_monitor.Double.{Double, IsExact}
use capstone_monitor.SlidingWindow.{
  SlidingWindow, swag_capacity, sw_init, store_sample, recompute, exact_sum, sw_push, sw_mean,
  pushes,
}
use capstone_monitor.SlidingWindow.History.{cell, cell-get_or, After, pushes-After, recompute_keeps}
use capstone_monitor.SlidingWindow.CellSums.{
  sum, sum_to, max_sample, Bounded, sum-take-le, sum-take-suc, get_or-short, sum_to-filled, cell-le,
}

length-map {ℓ κ} :
    {A : Type ℓ} {B : Type κ} (f : A → B) (xs : List A) → length (map f xs) ≡ length xs
length-map f [] = refl
length-map f (x ∷ xs) = ap suc (length-map f xs)

if_map {ℓ κ} :
    {A : Type ℓ} {B : Type κ} (f : A → B) (b : Bool) (x y : A)
    → (if b then f x else f y) ≡ f (if b then x else y)
if_map f true x y = refl
if_map f false x y = refl

cell-map :
    {D : Type 0} (f : ℕ → D) (xs : List ℕ) (j : ℕ) → cell (f 0) (map f xs) j ≡ f (cell 0 xs j)
unfolding cell
cell-map f [] j = refl
cell-map f (x ∷ xs) j =
    rw (length-map f xs, cell-map f xs j)
      (if_map f (length xs % swag_capacity == j) x (cell 0 xs j))

counted :
    (d : Double) (xs : List ℕ) → (pushes d (map d.of_ℕ xs)).count ≡ min swag_capacity (length xs)
counted d xs =
    (pushes-After d (map d.of_ℕ xs)).count_at ∙ ap (min swag_capacity) (length-map d.of_ℕ xs)

module _ (d : Double) (exact : IsExact d) where
  open d use {Carrier, add, sub, div, of_ℕ}

  exact_sum-of_ℕ :
      (buffer : Array Carrier) (f : Array ℕ) (n : ℕ)
      → ((j : ℕ) → buffer j ≡ of_ℕ (f j))
      → ((j : ℕ) → f j ≤ max_sample)
      → n ≤ swag_capacity
      → (exact_sum d buffer n ≡ of_ℕ (sum_to f n)) × (sum_to f n ≤ n * max_sample)
  unfolding exact_sum
  exact_sum-of_ℕ buffer f zero same le h = (refl, omega arith)
  exact_sum-of_ℕ buffer f (suc n) same le h =
      let ih = exact_sum-of_ℕ buffer f n same le (omega arith) in
      (
        ap₂ add ih.0 (same n) ∙ exact.add_exact (sum_to f n) (f n) (omega (arith, ih.1, le n)),
        omega (arith, ih.1, le n),
      )

  -- the sum that the window after `xs` is meant to hold
  abbrev pub window_sum : List ℕ → Carrier
  window_sum xs = of_ℕ (sum (take swag_capacity xs))

  exact_sum-After :
      (xs : List ℕ) (sw : SlidingWindow Carrier)
      → After d (map of_ℕ xs) sw
      → Bounded xs
      → exact_sum d sw.buffer sw.count ≡ window_sum xs
  exact_sum-After xs sw a b =
      (exact_sum-of_ℕ sw.buffer (cell 0 xs) sw.count (λ j. a.cells j ∙ cell-map of_ℕ xs j)
        (λ j. cell-le xs j b) (omega (arith, a.count_at))).0
      ∙ ap of_ℕ
          (sum_to-filled xs sw.count (a.count_at ∙ ap (min swag_capacity) (length-map of_ℕ xs)))

  -- the oldest sample of a full window, 0 of another
  oldest :
      (xs : List ℕ) (sw : SlidingWindow Carrier)
      → After d (map of_ℕ xs) sw
      → sw.buffer sw.head ≡ of_ℕ (get_or xs 9 0)
  oldest xs sw a =
      a.cells sw.head
      ∙ cell-map of_ℕ xs sw.head
      ∙ ap (λ k. of_ℕ (cell 0 xs k)) (omega (arith, a.head_at, length-map of_ℕ xs))
      ∙ ap of_ℕ (cell-get_or 0 xs 0 (omega arith))

  run_sum-store_sample :
      (xs : List ℕ) (x : ℕ) (sw : SlidingWindow Carrier)
      → After d (map of_ℕ xs) sw
      → Bounded (x ∷ xs)
      → sw.run_sum ≡ window_sum xs
      → (store_sample d sw (of_ℕ x)).run_sum ≡ window_sum (x ∷ xs)
  unfolding store_sample
  run_sum-store_sample xs x sw a b s = elim (eq_cases sw.count swag_capacity) [
    | inl full ↦
        rw (eq→== sw.count swag_capacity full, s, oldest xs sw a)
          (ap (λ k. add k (of_ℕ x))
              (exact.sub_exact _ _ (omega (arith, last)) (omega (arith, total)))
            ∙ exact.add_exact _ x (omega (arith, last, total, fewer, b.0))
            ∙ ap of_ℕ (omega (arith, last)))
    | inr more ↦
        rw (ne→== sw.count swag_capacity more, s)
          (exact.add_exact _ x (omega (arith, last, fewer, b.0, short more))
            ∙ ap of_ℕ (omega (arith, last, short more)))
  ]
    where
      last : sum (take 10 xs) ≡ sum (take 9 xs) + get_or xs 9 0
      last = sum-take-suc 9 xs

      total : sum (take 10 xs) ≤ 10 * max_sample
      total = sum-take-le 10 xs b.1

      fewer : sum (take 9 xs) ≤ 9 * max_sample
      fewer = sum-take-le 9 xs b.1

      short : sw.count ≢ swag_capacity → get_or xs 9 0 ≡ 0
      short more = get_or-short 9 xs (omega (arith, a.count_at, length-map of_ℕ xs, more))

  run_sum-sw_push :
      (xs : List ℕ) (x : ℕ) (sw : SlidingWindow Carrier)
      → After d (map of_ℕ xs) sw
      → After d (map of_ℕ (x ∷ xs)) (sw_push d sw (of_ℕ x))
      → Bounded (x ∷ xs)
      → sw.run_sum ≡ window_sum xs
      → (sw_push d sw (of_ℕ x)).run_sum ≡ window_sum (x ∷ xs)
  unfolding sw_push recompute
  run_sum-sw_push xs x sw a a' b s =
      let st = store_sample d sw (of_ℕ x) in
      elim (Bool-cases (leb 100 st.push_count)) [
        | inl e ↦ rw e (
            ap₂ (exact_sum d) (sym (recompute_keeps d st).0) (sym (recompute_keeps d st).2)
            ∙ exact_sum-After (x ∷ xs) (sw_push d sw (of_ℕ x)) a' b)
        | inr e ↦ rw e (run_sum-store_sample xs x sw a b s)
      ]

  run_sum-pushes : (xs : List ℕ) → Bounded xs → (pushes d (map of_ℕ xs)).run_sum ≡ window_sum xs
  unfolding pushes sw_init
  run_sum-pushes [] b = refl
  run_sum-pushes (x ∷ xs) b =
      run_sum-sw_push xs x (pushes d (map of_ℕ xs)) (pushes-After d (map of_ℕ xs))
        (pushes-After d (map of_ℕ (x ∷ xs))) b (run_sum-pushes xs b.1)

  -- Over doubles that are exact on whole numbers up to 2^53, and after any whole samples of at most
  -- 2^49, `sw_mean` is 0 for an empty window, and else the exact sum of the last SWAG_CAPACITY
  -- samples (of all, if they are fewer), divided by their number.
  pub sw_mean-pushes :
      (xs : List ℕ)
      → Bounded xs
      → sw_mean d (pushes d (map of_ℕ xs)) ≡ (
          if length xs == 0
          then of_ℕ 0
          else div (of_ℕ (sum (take swag_capacity xs))) (of_ℕ (min swag_capacity (length xs))))
  unfolding sw_mean
  sw_mean-pushes [] b = rw (counted d [])
  sw_mean-pushes (x ∷ xs) b = rw (
    counted d (x ∷ xs),
    run_sum-pushes (x ∷ xs) b,
    ne→== (min swag_capacity (suc (length xs))) 0 (λ e. omega arith),
    ne→== (suc (length xs)) 0 (λ e. omega arith),
  )

stored_hundred :
    (d : Double) (sw : SlidingWindow d.Carrier) (x : d.Carrier)
    → sw.push_count ≡ 99
    → leb 100 (store_sample d sw x).push_count ≡ true
unfolding store_sample
stored_hundred d sw x h = ground arith

-- Over any doubles, and after any samples whose number is a multiple of 100, the running sum is the
-- fresh sum of the buffer: what rounding has added up since the last recomputation is gone.
pub run_sum-recomputed :
    (d : Double) (x : d.Carrier) (xs : List d.Carrier)
    → length (x ∷ xs) % 100 ≡ 0
    → (pushes d (x ∷ xs)).run_sum ≡ exact_sum d (pushes d (x ∷ xs)).buffer (pushes d (x ∷ xs)).count
unfolding pushes sw_push recompute
run_sum-recomputed d x xs h =
    rw (stored_hundred d (pushes d xs) x (omega (arith, (pushes-After d xs).pushes_at))) refl

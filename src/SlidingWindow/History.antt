-- ===== src/SlidingWindow/History.antt =====
-- What the buffer and the counters are after any samples, newest first, whatever the arithmetic.
use capstone_monitor.Base.{
  ℕ, zero, suc, ◌+◌, ◌-◌, ◌*◌, ◌%◌, ◌<◌, ◌≡◌, ◌≢◌, refl, sym, ap, ◌∙◌, inl, inr, Bool-cases, leb,
  ◌==◌, if◌then◌else◌, List, [], ◌∷◌, length, get_or, min, arith, set, eq_cases, eq→==, ne→==,
}
use capstone_monitor.Double.{Double}
use capstone_monitor.SlidingWindow.{
  SlidingWindow, swag_capacity, sw_init, store_sample, recompute, sw_push, pushes,
}

get_or-zero {ℓ} :
    {A : Type ℓ} (x : A) (xs : List A) (k : ℕ) (blank : A) → k ≡ 0 → get_or (x ∷ xs) k blank ≡ x
get_or-zero x xs zero blank h = refl
get_or-zero x xs (suc k) blank h = absurd (omega (arith, h))

get_or-pred {ℓ} :
    {A : Type ℓ} (x : A) (xs : List A) (k : ℕ) (blank : A)
    → k ≢ 0
    → get_or (x ∷ xs) k blank ≡ get_or xs (k - 1) blank
get_or-pred x xs zero blank h = absurd (h refl)
get_or-pred x xs (suc k) blank h = ap (λ n. get_or xs n blank) (omega arith)

-- The content of cell `j` after the samples of a list, newest first: sample number `n` goes to cell
-- `n % SWAG_CAPACITY`.
module _ {A : Type 0} (blank : A) where
  unfoldable pub cell : List A → ℕ → A
  cell [] j = blank
  cell (x ∷ xs) j = if length xs % swag_capacity == j then x else cell xs j

  -- Cell number `length xs + m` holds the sample that is `SWAG_CAPACITY - 1 - m` older than the
  -- newest one, or its first content.
  pub cell-get_or :
      (xs : List A) (m : ℕ)
      → m < swag_capacity
      → cell xs ((length xs + m) % swag_capacity) ≡ get_or xs (swag_capacity - 1 - m) blank
  unfolding cell
  cell-get_or [] m h = refl
  cell-get_or (x ∷ xs) m h = elim (eq_cases m 9) [
    | inl e ↦
        rw (eq→== (length xs % swag_capacity) ((suc (length xs) + m) % swag_capacity) (omega arith))
          (sym (get_or-zero x xs (9 - m) blank (omega arith)))
    | inr ne ↦
        rw
          (ne→== (length xs % swag_capacity) ((suc (length xs) + m) % swag_capacity)
            (λ p. omega arith))
          (ap (λ k. cell xs (k % swag_capacity)) (omega arith)
            ∙ cell-get_or xs (m + 1) (omega arith)
            ∙ ap (λ k. get_or xs k blank) (omega arith)
            ∙ sym (get_or-pred x xs (9 - m) blank (λ p. omega arith)))
  ]

count_up :
    (c n : ℕ)
    → c ≡ min swag_capacity n
    → (if c == swag_capacity then c else c + 1) ≡ min swag_capacity (suc n)
count_up c n h = ground arith

module _ (d : Double) where
  open d use {Carrier, of_ℕ}

  pub recompute_keeps :
      (sw : SlidingWindow Carrier)
      → ((recompute d sw).buffer ≡ sw.buffer)
        × ((recompute d sw).head ≡ sw.head)
        × ((recompute d sw).count ≡ sw.count)
  unfolding recompute
  recompute_keeps sw = elim (Bool-cases (leb 100 sw.push_count)) [
    | inl e ↦ rw e (refl, refl, refl)
    | inr e ↦ rw e (refl, refl, refl)
  ]

  -- A push stores the sample at the head, moves the head, and counts.
  pub buffer-sw_push :
      (sw : SlidingWindow Carrier) (x : Carrier)
      → ((sw_push d sw x).buffer ≡ set sw.buffer sw.head x)
        × ((sw_push d sw x).head ≡ (sw.head + 1) % swag_capacity)
        × ((sw_push d sw x).count ≡ (if sw.count == swag_capacity then sw.count else sw.count + 1))
  unfolding sw_push
  buffer-sw_push sw x = recompute_keeps (store_sample d sw x)

  pub push_count-sw_push :
      (sw : SlidingWindow Carrier) (x : Carrier)
      → sw.push_count < 100
      → (sw_push d sw x).push_count ≡ (sw.push_count + 1) % 100
  unfolding sw_push
  push_count-sw_push sw x h = ground arith

  -- the state of a window after the samples of a list
  pub record After (xs : List Carrier) (sw : SlidingWindow Carrier) : Type 0 where
    pub cells : (j : ℕ) → sw.buffer j ≡ cell (of_ℕ 0) xs j
    pub head_at : sw.head ≡ length xs % swag_capacity
    pub count_at : sw.count ≡ min swag_capacity (length xs)
    pub pushes_at : sw.push_count ≡ length xs % 100

  sw_push-After :
      (xs : List Carrier) (x : Carrier) (sw : SlidingWindow Carrier)
      → After xs sw
      → After (x ∷ xs) (sw_push d sw x)
  unfolding cell set
  sw_push-After xs x sw a =
      let s = buffer-sw_push sw x in
      record {
        cells = λ j.
            ap (λ f. f j) s.0
            ∙ rw a.head_at (ap (λ y. if length xs % swag_capacity == j then x else y) (a.cells j));
        head_at = omega (arith, s.1, a.head_at);
        count_at = s.2 ∙ count_up sw.count (length xs) a.count_at;
        pushes_at =
            omega (arith, push_count-sw_push sw x (omega (arith, a.pushes_at)), a.pushes_at);
      }

  -- After any samples the buffer holds the last SWAG_CAPACITY of them, `head` is where the oldest
  -- stands or the next one goes, `count` is how many there are, and `push_count` is the number of
  -- pushes since the last recomputation.
  pub pushes-After : (xs : List Carrier) → After xs (pushes d xs)
  unfolding pushes cell sw_init
  pushes-After [] = record { cells = λ j. refl; head_at = refl; count_at = refl; pushes_at = refl }
  pushes-After (x ∷ xs) = sw_push-After xs x (pushes d xs) (pushes-After xs)

  -- After any samples, whatever the arithmetic: the k-th newest sample (from 0, below
  -- SWAG_CAPACITY) stands in the cell that lies k + 1 places before `head`, going round, a cell that
  -- no sample has reached holds 0, and `count` is the number of samples, at most SWAG_CAPACITY.
  pub pushes-buffer :
      (xs : List Carrier) (k : ℕ)
      → k < swag_capacity
      → let sw = pushes d xs in
        (sw.buffer ((sw.head + (swag_capacity - 1 - k)) % swag_capacity) ≡ get_or xs k (of_ℕ 0))
        × (sw.count ≡ min swag_capacity (length xs))
        × (sw.head < swag_capacity)
        × (sw.push_count < swag_capacity * swag_capacity)
  pushes-buffer xs k h =
      let a = pushes-After xs in
      (
        a.cells _
            ∙ ap (cell (of_ℕ 0) xs) (omega (arith, a.head_at))
            ∙ cell-get_or (of_ℕ 0) xs (9 - k) (omega arith)
            ∙ ap (λ n. get_or xs n (of_ℕ 0)) (omega arith),
        a.count_at,
        omega (arith, a.head_at),
        omega (arith, a.pushes_at),
      )

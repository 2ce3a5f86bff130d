-- ===== src/RingBuffer/Burst.antt =====
-- A burst of pushes with no pop between them, as the sampling loop makes in one tick: the
-- `if (!rb_push(...)) drops++` of final/src/monitor_final.c, over a list of entries.
use capstone_monitor.Base.{
  ℕ, zero, suc, ◌+◌, ◌-◌, ◌%◌, ◌^◌, ◌≡◌, ◌≢◌, refl, sym, ◌∙◌, ap, inl, inr, Bool, true, false, List,
  [], ◌∷◌, ◌++◌, length, length-append, take, arith, if◌then◌else◌, eq_cases,
}
use mathlib.Core.List.{append-nil, append_assoc}
use capstone_monitor.RingBuffer.{RingBuffer, rb_capacity, rb_push}
use capstone_monitor.RingBuffer.Queue
use capstone_monitor.RingBuffer.Contents.{IsValid, contents, length-contents, rb_push_refines}

-- the count of drops, by what the push returned
count-full :
    (drops : ℕ) {b : Bool}
    → b ≡ false
    → (if b then drops else (drops + 1) % 2 ^ 64) ≡ (drops + 1) % 2 ^ 64
count-full drops h = rw h

count-room : (drops : ℕ) {b : Bool} → b ≡ true → (if b then drops else (drops + 1) % 2 ^ 64) ≡ drops
count-room drops h = rw h

module _ {ℓ} {A : Type ℓ} where
  -- one push, its drop counted in a `uint64_t`
  abbrev pub push_count : RingBuffer A → ℕ → A → RingBuffer A × ℕ
  push_count rb drops m =
      ((rb_push rb m).0, if (rb_push rb m).1 then drops else (drops + 1) % 2 ^ 64)

  -- the pushes in order
  unfoldable pub push_all : RingBuffer A → ℕ → List A → RingBuffer A × ℕ
  push_all rb drops [] = (rb, drops)
  push_all rb drops (m ∷ ms) = push_all (push_count rb drops m).0 (push_count rb drops m).1 ms

  -- how many entries still fit
  abbrev pub room : RingBuffer A → ℕ
  room rb = rb_capacity - 1 - length (contents rb)

  pub push_full :
      (rb : RingBuffer A) (m : A)
      → IsValid rb
      → room rb ≡ 0
      → (contents (rb_push rb m).0 ≡ contents rb) × ((rb_push rb m).1 ≡ false)
  push_full rb m v h =
      let full : length (contents rb) ≡ rb_capacity - 1 = omega (arith, length-contents rb) in
      let e = Queue.push-full (rb_capacity - 1) (contents rb) m full in
      let r = rb_push_refines rb m v in (r.0 ∙ ap (λ p. p.0) e, r.1 ∙ ap (λ p. p.1) e)

  pub push_room :
      (rb : RingBuffer A) (m : A)
      → IsValid rb
      → room rb ≢ 0
      → (contents (rb_push rb m).0 ≡ contents rb ++ m ∷ []) × ((rb_push rb m).1 ≡ true)
  push_room rb m v h =
      let e = Queue.push-room (rb_capacity - 1) (contents rb) m (λ f. h (omega arith)) in
      let r = rb_push_refines rb m v in (r.0 ∙ ap (λ p. p.0) e, r.1 ∙ ap (λ p. p.1) e)

  -- what a burst leaves behind
  pub record Burst (rb : RingBuffer A) (drops : ℕ) (ms : List A) (out : RingBuffer A × ℕ)
      : Type ℓ where
    pub kept : contents out.0 ≡ contents rb ++ take (room rb) ms
    pub dropped : out.1 % 2 ^ 64 ≡ (drops + (length ms - room rb)) % 2 ^ 64
    pub valid : IsValid out.0

  take-nil : (n : ℕ) → ◌≡◌ {A = List A} (take n []) []
  take-nil zero = refl
  take-nil (suc n) = refl

  take-cons : (n : ℕ) (x : A) (xs : List A) → n ≢ 0 → take n (x ∷ xs) ≡ x ∷ take (n - 1) xs
  take-cons zero x xs h = absurd (h refl)
  take-cons (suc n) x xs h = ap (λ k. x ∷ take k xs) (omega arith)

  take-zero : (n : ℕ) (xs : List A) → n ≡ 0 → take n xs ≡ []
  take-zero n xs h = rw h

  -- the burst behind a push that was dropped, and behind one that was kept
  Burst-full :
      (rb : RingBuffer A) (drops : ℕ) (m : A) (ms : List A) {out : RingBuffer A × ℕ}
      → room rb ≡ 0
      → (contents (rb_push rb m).0 ≡ contents rb) × ((rb_push rb m).1 ≡ false)
      → Burst (rb_push rb m).0 (push_count rb drops m).1 ms out
      → Burst rb drops (m ∷ ms) out
  Burst-full rb drops m ms h s b = record {
    kept =
        b.kept
        ∙ ap (λ c. c ++ take (rb_capacity - 1 - length c) ms) s.0
        ∙ ap (◌++◌ (contents rb)) (take-zero (room rb) ms h ∙ sym (take-zero (room rb) (m ∷ ms) h));
    dropped = omega (arith, b.dropped, count-full drops s.1, ap length s.0, h);
    valid = b.valid;
  }

  Burst-room :
      (rb : RingBuffer A) (drops : ℕ) (m : A) (ms : List A) {out : RingBuffer A × ℕ}
      → room rb ≢ 0
      → (contents (rb_push rb m).0 ≡ contents rb ++ m ∷ []) × ((rb_push rb m).1 ≡ true)
      → Burst (rb_push rb m).0 (push_count rb drops m).1 ms out
      → Burst rb drops (m ∷ ms) out
  Burst-room rb drops m ms h s b = record {
    kept =
        b.kept
        ∙ ap (λ c. c ++ take (rb_capacity - 1 - length c) ms) s.0
        ∙ ap (λ k. (contents rb ++ m ∷ []) ++ take k ms) less
        ∙ append_assoc (contents rb) (m ∷ []) (take (room rb - 1) ms)
        ∙ ap (◌++◌ (contents rb)) (sym (take-cons (room rb) m ms h));
    dropped = omega (arith, b.dropped, count-room drops s.1, ap length s.0, longer, h);
    valid = b.valid;
  }
    where
      longer : length (contents rb ++ m ∷ []) ≡ length (contents rb) + 1
      longer = length-append (contents rb) (m ∷ [])

      less : rb_capacity - 1 - length (contents rb ++ m ∷ []) ≡ room rb - 1
      less = omega (arith, longer)

  -- A burst keeps the oldest entries that fit, in order, drops exactly the others and counts each
  -- of them, and leaves the indices in range.
  pub push_all-Burst :
      (rb : RingBuffer A) (drops : ℕ) (ms : List A)
      → IsValid rb
      → Burst rb drops ms (push_all rb drops ms)
  unfolding push_all
  push_all-Burst rb drops [] v = record {
    kept = rw (take-nil, append-nil);
    dropped = omega arith;
    valid = v;
  }
  push_all-Burst rb drops (m ∷ ms) v =
      let rest =
        push_all-Burst (rb_push rb m).0 (push_count rb drops m).1 ms (rb_push_refines rb m v).2 in
      elim (eq_cases (room rb) 0) [
        | inl full ↦ Burst-full rb drops m ms full (push_full rb m v full) rest
        | inr more ↦ Burst-room rb drops m ms more (push_room rb m v more) rest
      ]

  pub push_all-append :
      (rb : RingBuffer A) (drops : ℕ) (xs ys : List A)
      → push_all rb drops (xs ++ ys) ≡ push_all (push_all rb drops xs).0 (push_all rb drops xs).1 ys
  unfolding push_all
  push_all-append rb drops [] ys = refl
  push_all-append rb drops (x ∷ xs) ys =
      push_all-append (rb_push rb x).0 (push_count rb drops x).1 xs ys

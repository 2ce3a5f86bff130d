-- ===== src/RingBuffer/Contents.antt =====
-- What a ring holds, oldest first, and the sequential refinement: on a ring whose indices are in
-- range, ring_buffer.c is the bounded queue of Queue.antt with room for RB_CAPACITY - 1 entries.
use capstone_monitor.Base.{
  ℕ, zero, suc, ◌+◌, ◌-◌, ◌%◌, ◌<◌, ◌≡◌, ◌≢◌, refl, ap, ap₂, ◌∙◌, inl, inr, List, [], ◌∷◌, ◌++◌,
  Array, set, set_self, set_ne, length, arith, ◌==◌, eq_cases,
}
use capstone_monitor.RingBuffer.{
  RingBuffer, rb_capacity, next, rb_push, rb_pop, rb_is_full, rb_is_empty, rb_push-full,
  rb_push-room, rb_pop-empty, rb_pop-some,
}
use capstone_monitor.RingBuffer.Queue

module _ {ℓ} {A : Type ℓ} where
  -- the `n` entries from index `i` on, going round at the end of the array
  unfoldable pub entries : Array A → ℕ → ℕ → List A
  entries slots i zero = []
  entries slots i (suc n) = slots i ∷ entries slots (next i) n

  -- how many entries lie between the two indices
  abbrev pub size : RingBuffer A → ℕ
  size rb = (rb.head + rb_capacity - rb.tail) % rb_capacity

  abbrev pub contents : RingBuffer A → List A
  contents rb = entries rb.slots rb.tail (size rb)

  -- The indices are in range.
  pub record IsValid (rb : RingBuffer A) : Type 0 where
    pub head_in : rb.head < rb_capacity
    pub tail_in : rb.tail < rb_capacity

  length-entries : (slots : Array A) (i n : ℕ) → length (entries slots i n) ≡ n
  unfolding entries
  length-entries slots i zero = refl
  length-entries slots i (suc n) = ap suc (length-entries slots (next i) n)

  pub length-contents : (rb : RingBuffer A) → length (contents rb) ≡ size rb
  length-contents rb = length-entries rb.slots rb.tail (size rb)

  -- Writing just behind the last entry appends it.
  entries-set :
      (slots : Array A) (i n j : ℕ) (x : A)
      → i < rb_capacity
      → suc n < rb_capacity
      → j ≡ (i + n) % rb_capacity
      → entries (set slots j x) i (suc n) ≡ entries slots i n ++ x ∷ []
  unfolding entries
  entries-set slots i zero j x hi hn e = ap (λ y. y ∷ []) (rw e' (set_self slots i x))
    where
      e' : j ≡ i
      e' = omega arith
  entries-set slots i (suc n) j x hi hn e =
      ap₂ ◌∷◌ (set_ne slots j i x (λ p. omega arith))
        (entries-set slots (next i) n j x (omega arith) (omega arith) (omega arith))

  -- `entries` counts by `suc`, the code compares the indices.
  entries_of_pos :
      (slots : Array A) (i n : ℕ)
      → n ≢ 0
      → entries slots i n ≡ slots i ∷ entries slots (next i) (n - 1)
  unfolding entries
  entries_of_pos slots i zero h = absurd (h refl)
  entries_of_pos slots i (suc n) h = ap (λ k. entries slots i (suc k)) (omega arith)

  size-full : (rb : RingBuffer A) → IsValid rb → next rb.head ≡ rb.tail → size rb ≡ rb_capacity - 1
  size-full rb v e = omega arith

  size-room :
      (rb : RingBuffer A) → IsValid rb → next rb.head ≢ rb.tail → suc (size rb) < rb_capacity
  size-room rb v e = omega arith

  size-push :
      (rb : RingBuffer A)
      → IsValid rb
      → next rb.head ≢ rb.tail
      → (next rb.head + rb_capacity - rb.tail) % rb_capacity ≡ suc (size rb)
  size-push rb v e = omega arith

  contents-push :
      (rb : RingBuffer A) (m : A)
      → IsValid rb
      → next rb.head ≢ rb.tail
      → contents (record rb { slots = set rb.slots rb.head m; head = next rb.head })
        ≡ contents rb ++ m ∷ []
  contents-push rb m v h =
      rw (size-push rb v h) (
        entries-set rb.slots rb.tail (size rb) rb.head m v.tail_in (size-room rb v h) (omega arith))

  -- `rb_push` is the push of the bounded queue, and keeps the indices in range.
  pub rb_push_refines :
      (rb : RingBuffer A) (m : A)
      → IsValid rb
      → (contents (rb_push rb m).0 ≡ (Queue.push (rb_capacity - 1) (contents rb) m).0)
        × ((rb_push rb m).1 ≡ (Queue.push (rb_capacity - 1) (contents rb) m).1)
        × IsValid (rb_push rb m).0
  rb_push_refines rb m v = elim (eq_cases (next rb.head) rb.tail) [
    | inl full ↦
        rw
          (
            rb_push-full rb m full,
            Queue.push-full (rb_capacity - 1) (contents rb) m
                (length-contents rb ∙ size-full rb v full),
          )
          (refl, refl, v)
    | inr room ↦
        rw
          (
            rb_push-room rb m room,
            Queue.push-room (rb_capacity - 1) (contents rb) m
                (λ e. omega (arith, e, length-contents rb, size-room rb v room)),
          )
          (contents-push rb m v room, refl, omega arith)
  ]

  size-pop :
      (rb : RingBuffer A)
      → IsValid rb
      → rb.tail ≢ rb.head
      → (rb.head + rb_capacity - next rb.tail) % rb_capacity ≡ size rb - 1
  size-pop rb v h = omega arith

  contents-pop :
      (rb : RingBuffer A)
      → IsValid rb
      → rb.tail ≢ rb.head
      → contents rb ≡ rb.slots rb.tail ∷ contents (record rb { tail = next rb.tail })
  contents-pop rb v h =
      rw (size-pop rb v h) (entries_of_pos rb.slots rb.tail (size rb) (λ e. h (omega arith)))

  contents-empty : (rb : RingBuffer A) → IsValid rb → rb.tail ≡ rb.head → contents rb ≡ []
  unfolding entries
  contents-empty rb v h = ap (λ n. entries rb.slots rb.tail n) empty
    where
      empty : size rb ≡ 0
      empty = omega arith

  -- `rb_pop` is the pop of the bounded queue, and keeps the indices in range.
  pub rb_pop_refines :
      (rb : RingBuffer A)
      → IsValid rb
      → (contents (rb_pop rb).0 ≡ (Queue.pop (contents rb)).0)
        × ((rb_pop rb).1 ≡ (Queue.pop (contents rb)).1)
        × IsValid (rb_pop rb).0
  unfolding Queue.pop
  rb_pop_refines rb v = elim (eq_cases rb.tail rb.head) [
    | inl empty ↦ rw (rb_pop-empty rb empty, contents-empty rb v empty) (refl, refl, v)
    | inr more ↦ rw (rb_pop-some rb more, contents-pop rb v more) (refl, refl, omega arith)
  ]

  -- The two status checks tell whether the queue is full and whether it is empty.
  pub status_lem :
      (rb : RingBuffer A)
      → IsValid rb
      → (rb_is_full rb ≡ (length (contents rb) == rb_capacity - 1))
        × (rb_is_empty rb ≡ (length (contents rb) == 0))
  unfolding rb_is_full rb_is_empty
  status_lem rb v = ground (arith, length-contents rb)

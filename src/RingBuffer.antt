-- ===== src/RingBuffer.antt =====
-- final/src/ring_buffer.c and ring_buffer.h: the ring of SmoothedMetrics in shared memory. An entry
-- is copied whole and never looked into, so its type is a parameter. An index is an `int` that
-- stays in 0..RB_CAPACITY-1 (`IsValid` of RingBuffer/Contents.antt), so it is a number here.
pub mod Queue
pub mod Contents
pub mod Burst
pub mod Concurrent
pub mod Shared
use capstone_monitor.Base.{
  ℕ, ◌+◌, ◌%◌, ◌≡◌, ◌≢◌, Bool, true, false, Option, none, some, ◌==◌, if◌then◌else◌, Array, set,
  eq→==, ne→==,
}

-- `RB_CAPACITY`
abbrev pub rb_capacity : ℕ
rb_capacity = 32768

pub record RingBuffer {ℓ} (A : Type ℓ) : Type ℓ where
  pub slots : Array A
  pub head : ℕ
  pub tail : ℕ

-- the index behind `i`, going round at the end of the array
abbrev pub next : ℕ → ℕ
next i = (i + 1) % rb_capacity

module _ {ℓ} {A : Type ℓ} where
  -- the state that `rb_create_named` leaves in the mapping: `blank` is the zeroed entry
  unfoldable pub rb_init : A → RingBuffer A
  rb_init blank = record { slots = λ _. blank; head = 0; tail = 0 }

  -- The producer's call: the new ring and the returned flag. A full ring is left alone.
  unfoldable pub rb_push : RingBuffer A → A → RingBuffer A × Bool
  rb_push rb m =
      if next rb.head == rb.tail
      then (rb, false)
      else (record rb { slots = set rb.slots rb.head m; head = next rb.head }, true)

  -- The consumer's call: the new ring and the entry that goes through `out` (`none` is `false`,
  -- with `out` untouched).
  unfoldable pub rb_pop : RingBuffer A → RingBuffer A × Option A
  rb_pop rb =
      if rb.tail == rb.head
      then (rb, none)
      else (record rb { tail = next rb.tail }, some (rb.slots rb.tail))

  unfoldable pub rb_is_full : RingBuffer A → Bool
  rb_is_full rb = next rb.head == rb.tail

  unfoldable pub rb_is_empty : RingBuffer A → Bool
  rb_is_empty rb = rb.head == rb.tail

  pub rb_push-full :
      (rb : RingBuffer A) (m : A) → next rb.head ≡ rb.tail → rb_push rb m ≡ (rb, false)
  unfolding rb_push
  rb_push-full rb m h = rw (eq→== (next rb.head) rb.tail h)

  pub rb_push-room :
      (rb : RingBuffer A) (m : A)
      → next rb.head ≢ rb.tail
      → rb_push rb m ≡ (record rb { slots = set rb.slots rb.head m; head = next rb.head }, true)
  unfolding rb_push
  rb_push-room rb m h = rw (ne→== (next rb.head) rb.tail h)

  pub rb_pop-empty : (rb : RingBuffer A) → rb.tail ≡ rb.head → rb_pop rb ≡ (rb, none)
  unfolding rb_pop
  rb_pop-empty rb h = rw (eq→== rb.tail rb.head h)

  pub rb_pop-some :
      (rb : RingBuffer A)
      → rb.tail ≢ rb.head
      → rb_pop rb ≡ (record rb { tail = next rb.tail }, some (rb.slots rb.tail))
  unfolding rb_pop
  rb_pop-some rb h = rw (ne→== rb.tail rb.head h)

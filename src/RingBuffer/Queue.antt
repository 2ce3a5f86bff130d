-- ===== src/RingBuffer/Queue.antt =====
-- A bounded first-in first-out queue that drops what does not fit: the contract of the ring.
use capstone_monitor.Base.{
  ℕ, ◌≡◌, ◌≢◌, Bool, true, false, Option, none, some, List, [], ◌∷◌, ◌++◌, ◌==◌, if◌then◌else◌,
  length, eq→==, ne→==,
}

module _ {ℓ} {A : Type ℓ} where
  unfoldable pub pop : List A → List A × Option A
  pop [] = ([], none)
  pop (x ∷ q) = (q, some x)

  unfoldable pub push : ℕ → List A → A → List A × Bool
  push cap q x = if length q == cap then (q, false) else (q ++ x ∷ [], true)

  pub push-full : (cap : ℕ) (q : List A) (x : A) → length q ≡ cap → push cap q x ≡ (q, false)
  unfolding push
  push-full cap q x h = rw (eq→== (length q) cap h)

  pub push-room :
      (cap : ℕ) (q : List A) (x : A) → length q ≢ cap → push cap q x ≡ (q ++ x ∷ [], true)
  unfolding push
  push-room cap q x h = rw (ne→== (length q) cap h)

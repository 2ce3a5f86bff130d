-- ===== src/RingBuffer/Concurrent/Invariant.antt =====
-- The invariant of the two sides: the ring holds the accepted entries that are not taken yet, and
-- each side's private copy of an index and of an entry is up to date.
use capstone_monitor.Base.{
  ℕ, ◌+◌, ◌-◌, ◌%◌, ◌≤◌, ◌<◌, ◌≡◌, refl, sym, ap, ◌∙◌, List, [], ◌∷◌, ◌++◌, Array, set, set_ne,
  length, length-append, arith,
}
use capstone_monitor.RingBuffer.{RingBuffer, rb_capacity, rb_init}
use capstone_monitor.RingBuffer.Concurrent.{Producer, Consumer, System, start}

module _ {A : Type 0} where
  -- Entry number `n` of the ring's history, counted from the first push ever, and those behind it.
  abbrev pub Holds : Array A → ℕ → List A → Type 0
  Holds slots n [] = Unit {0}
  Holds slots n (x ∷ q) = (slots (n % rb_capacity) ≡ x) × Holds slots (n + 1) q

  pub Holds-set :
      (slots : Array A) (n k j : ℕ) (x : A) (q : List A)
      → length q ≤ k
      → k < rb_capacity
      → j ≡ (n + k) % rb_capacity
      → Holds slots n q
      → Holds (set slots j x) n q
  Holds-set slots n k j x [] le lt e h = tt
  Holds-set slots n k j x (y ∷ q) le lt e h = (
    set_ne slots j (n % rb_capacity) x (λ p. omega arith) ∙ h.0,
    Holds-set slots (n + 1) (k - 1) j x q (omega arith) (omega arith) (omega arith) h.1,
  )

  pub Holds-append :
      (slots : Array A) (n : ℕ) (x : A) (q : List A)
      → slots ((n + length q) % rb_capacity) ≡ x
      → Holds slots n q
      → Holds slots n (q ++ x ∷ [])
  Holds-append slots n x [] e h = (ap (λ k. slots (k % rb_capacity)) (omega arith) ∙ e, tt)
  Holds-append slots n x (y ∷ q) e h = (
    h.0,
    Holds-append slots (n + 1) x q (ap (λ k. slots (k % rb_capacity)) (omega arith) ∙ e) h.1,
  )

  abbrev pub ProducerOk : RingBuffer A → List A → Producer A → Type 0
  ProducerOk r q Producer.idle = Unit {0}
  ProducerOk r q (Producer.loaded h m) = h ≡ r.head
  ProducerOk r q (Producer.claimed h m) = (h ≡ r.head) × (length q < rb_capacity - 1)
  ProducerOk r q (Producer.written h m) =
      (h ≡ r.head) × (length q < rb_capacity - 1) × (r.slots h ≡ m)

  abbrev pub ConsumerOk : RingBuffer A → List A → Consumer A → Type 0
  ConsumerOk r q Consumer.idle = Unit {0}
  ConsumerOk r q (Consumer.loaded t) = t ≡ r.tail
  ConsumerOk r q (Consumer.claimed t) = (t ≡ r.tail) × (0 < length q)
  ConsumerOk r q (Consumer.copied t m) = (t ≡ r.tail) × ((rest : List A) × (q ≡ m ∷ rest))

  pub record Inv (s : System A) : Type 0 where
    pub pending : List A
    pub history : s.accepted ≡ s.taken ++ pending
    pub tail_at : s.ring.tail ≡ length s.taken % rb_capacity
    pub head_at : s.ring.head ≡ (length s.taken + length pending) % rb_capacity
    pub fits : length pending < rb_capacity
    pub held : Holds s.ring.slots (length s.taken) pending
    pub producing : ProducerOk s.ring pending s.producer
    pub consuming : ConsumerOk s.ring pending s.consumer

  pub start-Inv : (blank : A) → Inv (start blank)
  unfolding start rb_init
  start-Inv blank = record {
    pending = [];
    history = refl;
    tail_at = refl;
    head_at = refl;
    fits = omega arith;
    held = tt;
    producing = tt;
    consuming = tt;
  }

  -- What the consumer knows stays true when the producer appends, and the other way round.
  pub ConsumerOk-append :
      (r : RingBuffer A) (h : ℕ) (q : List A) (x : A) (c : Consumer A)
      → ConsumerOk r q c
      → ConsumerOk (record { slots = r.slots; head = h; tail = r.tail }) (q ++ x ∷ []) c
  ConsumerOk-append r h q x Consumer.idle ok = tt
  ConsumerOk-append r h q x (Consumer.loaded t) ok = ok
  ConsumerOk-append r h q x (Consumer.claimed t) ok =
      (ok.0, omega (arith, length-append q (x ∷ []), ok.1))
  ConsumerOk-append r h q x (Consumer.copied t m) ok =
      (ok.0, (ok.1.0 ++ x ∷ [], ap (λ k. k ++ x ∷ []) ok.1.1))

  pub ConsumerOk-set :
      (r : RingBuffer A) (h : ℕ) (x : A) (q : List A) (c : Consumer A)
      → ConsumerOk r q c
      → ConsumerOk (record { slots = set r.slots h x; head = r.head; tail = r.tail }) q c
  ConsumerOk-set r h x q Consumer.idle ok = tt
  ConsumerOk-set r h x q (Consumer.loaded t) ok = ok
  ConsumerOk-set r h x q (Consumer.claimed t) ok = ok
  ConsumerOk-set r h x q (Consumer.copied t m) ok = ok

  pub ProducerOk-tail :
      (r : RingBuffer A) (t : ℕ) (x : A) (q : List A) (p : Producer A)
      → ProducerOk r (x ∷ q) p
      → ProducerOk (record { slots = r.slots; head = r.head; tail = t }) q p
  ProducerOk-tail r t x q Producer.idle ok = tt
  ProducerOk-tail r t x q (Producer.loaded h m) ok = ok
  ProducerOk-tail r t x q (Producer.claimed h m) ok = (ok.0, omega (arith, ok.1))
  ProducerOk-tail r t x q (Producer.written h m) ok = (ok.0, omega (arith, ok.1), ok.2)

  -- The slot at the tail holds the oldest pending entry.
  pub Holds-front :
      (slots : Array A) (n t : ℕ) (q : List A)
      → t ≡ n % rb_capacity
      → 0 < length q
      → Holds slots n q
      → (rest : List A) × (q ≡ slots t ∷ rest)
  Holds-front slots n t [] e h held = absurd (omega (arith, h))
  Holds-front slots n t (x ∷ q) e h held = (q, ap (λ y. y ∷ q) (sym (ap slots e ∙ held.0)))

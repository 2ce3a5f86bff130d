-- ===== src/RingBuffer/Concurrent/Safety.antt =====
-- What a user of the two sides may rely on, in every interleaving.
use mathlib.Core.Path.{subst}
use mathlib.Core.List.{append-nil}
use capstone_monitor.Base.{
  ℕ, ◌-◌, ◌≤◌, ◌≡◌, ◌≢◌, refl, sym, ap, ◌∙◌, inl, inr, List, [], ◌∷◌, ◌++◌, length, arith, eq_cases,
  if◌then◌else◌,
}
use capstone_monitor.RingBuffer.{rb_capacity, next, rb_push, rb_push-full, rb_push-room}
use capstone_monitor.RingBuffer.Concurrent.{
  Producer, Consumer, System, start, Reach, here, then_step, load_head, see_full, see_room,
  write_slot, publish_head,
}
use capstone_monitor.RingBuffer.Concurrent.Invariant.{ProducerOk, ConsumerOk}
use capstone_monitor.RingBuffer.Concurrent.Preserved.{Reach-Inv, full_of_eq, empty_of_eq}

nil_of_length {ℓ} : {A : Type ℓ} (xs : List A) → length xs ≡ 0 → xs ≡ []
nil_of_length [] h = refl
nil_of_length (x ∷ xs) h = absurd (omega (arith, h))

module _ {A : Type 0} where
  -- In every reachable state the entries that `rb_pop` has returned are, in order, a first part of
  -- those that `rb_push` has accepted, and at most RB_CAPACITY - 1 accepted entries are not
  -- returned yet: no entry is lost, repeated, reordered or torn.
  pub taken_first :
      (blank : A) {s : System A}
      → Reach (start blank) s
      → (pending : List A) × (s.accepted ≡ s.taken ++ pending) × (length pending ≤ rb_capacity - 1)
  taken_first blank r = let v = Reach-Inv blank r in (v.pending, v.history, omega (arith, v.fits))

  -- In every reachable state, while the producer may be writing a slot and the consumer may be
  -- copying one, these are different slots.
  pub slots_apart :
      (blank : A) {s : System A} {h t : ℕ} {m : A}
      → Reach (start blank) s
      → s.producer ≡ Producer.claimed h m
      → s.consumer ≡ Consumer.claimed t
      → h ≢ t
  slots_apart blank {s} {h} {t} {m} r p c e =
      let v = Reach-Inv blank r in
      let w = subst (ProducerOk s.ring v.pending) p v.producing in
      let g = subst (ConsumerOk s.ring v.pending) c v.consuming in
      omega (arith, v.head_at, v.tail_at, w.0, w.1, g.0, g.1, e)

  -- In every reachable state, a producer that finds the ring full at its test is right: exactly
  -- RB_CAPACITY - 1 accepted entries are not returned yet.
  pub full_right :
      (blank : A) {s : System A} {h : ℕ} {m : A}
      → Reach (start blank) s
      → s.producer ≡ Producer.loaded h m
      → next h ≡ s.ring.tail
      → (pending : List A) × (s.accepted ≡ s.taken ++ pending) × (length pending ≡ rb_capacity - 1)
  full_right blank {s} {h} {m} r p full =
      let v = Reach-Inv blank r in
      let ok = subst (ProducerOk s.ring v.pending) p v.producing in
      (v.pending, v.history, full_of_eq v (ap next (sym ok) ∙ full))

  -- In every reachable state, a consumer that finds the ring empty at its test is right: every
  -- accepted entry has been returned.
  pub empty_right :
      (blank : A) {s : System A} {t : ℕ}
      → Reach (start blank) s
      → s.consumer ≡ Consumer.loaded t
      → t ≡ s.ring.head
      → s.accepted ≡ s.taken
  empty_right blank {s} {t} r c empty =
      let v = Reach-Inv blank r in
      let ok = subst (ConsumerOk s.ring v.pending) c v.consuming in
      v.history
      ∙ ap (◌++◌ s.taken) (nil_of_length v.pending (empty_of_eq v (sym ok ∙ empty)))
      ∙ append-nil s.taken

  -- With no consumer step between, the producer's steps are the call `rb_push`: from any state with
  -- an idle producer they lead to the ring that the call returns, with the entry accepted exactly
  -- if the call returns true.
  pub rb_push-Reach :
      (s : System A) (m : A)
      → s.producer ≡ Producer.idle
      → Reach s (record s {
        ring = (rb_push s.ring m).0;
        producer = Producer.idle;
        accepted = if (rb_push s.ring m).1 then s.accepted ++ m ∷ [] else s.accepted;
      })
  rb_push-Reach s m e = elim (eq_cases (next s.ring.head) s.ring.tail) [
    | inl full ↦
        rw (rb_push-full s.ring m full)
          (then_step (then_step here (load_head s m e)) (see_full _ s.ring.head m refl full))
    | inr room ↦ rw (rb_push-room s.ring m room) (
        then_step
          (then_step
            (then_step (then_step here (load_head s m e)) (see_room _ s.ring.head m refl room))
            (write_slot _ s.ring.head m refl))
          (publish_head _ s.ring.head m refl))
  ]

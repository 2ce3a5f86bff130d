-- ===== src/RingBuffer/Concurrent/Preserved.antt =====
-- Each atomic access of either side keeps the invariant.
use mathlib.Core.List.{append_assoc}
use mathlib.Core.Path.{subst}
use capstone_monitor.Base.{
  ℕ, ◌+◌, ◌-◌, ◌<◌, ◌≡◌, ◌≢◌, refl, sym, ap, ◌∙◌, List, [], ◌∷◌, ◌++◌, set, set_self, length,
  length-append, arith,
}
use capstone_monitor.RingBuffer.{rb_capacity, next}
use capstone_monitor.RingBuffer.Concurrent.{
  Producer, Consumer, System, start, Step, load_head, see_full, see_room, write_slot, publish_head,
  load_tail, see_empty, see_entry, read_slot, publish_tail, Reach, here, then_step,
}
use capstone_monitor.RingBuffer.Concurrent.Invariant.{
  Inv, Holds, ProducerOk, ConsumerOk, Holds-set, Holds-append, Holds-front, ConsumerOk-append,
  ConsumerOk-set, ProducerOk-tail, start-Inv,
}

module _ {A : Type 0} where
  write_slot-Inv :
      (s : System A) (h : ℕ) (m : A)
      → s.producer ≡ Producer.claimed h m
      → (v : Inv s)
      → Inv (record s {
        ring = record { slots = set s.ring.slots h m; head = s.ring.head; tail = s.ring.tail };
        producer = Producer.written h m;
      })
  write_slot-Inv s h m e v = record {
    pending = v.pending;
    history = v.history;
    tail_at = v.tail_at;
    head_at = v.head_at;
    fits = v.fits;
    held =
        Holds-set s.ring.slots (length s.taken) (length v.pending) h m v.pending (omega arith)
          v.fits (ok.0 ∙ v.head_at) v.held;
    producing = (ok.0, ok.1, set_self s.ring.slots h m);
    consuming = ConsumerOk-set s.ring h m v.pending s.consumer v.consuming;
  }
    where
      ok : ProducerOk s.ring v.pending (Producer.claimed h m)
      ok = subst (ProducerOk s.ring v.pending) e v.producing

  publish_head-Inv :
      (s : System A) (h : ℕ) (m : A)
      → s.producer ≡ Producer.written h m
      → (v : Inv s)
      → Inv (record s {
        ring = record { slots = s.ring.slots; head = next h; tail = s.ring.tail };
        producer = Producer.idle;
        accepted = s.accepted ++ m ∷ [];
      })
  publish_head-Inv s h m e v = record {
    pending = v.pending ++ m ∷ [];
    history = ap (λ k. k ++ m ∷ []) v.history ∙ append_assoc s.taken v.pending (m ∷ []);
    tail_at = v.tail_at;
    head_at = omega (arith, ok.0, v.head_at, length-append v.pending (m ∷ []));
    fits = omega (arith, ok.1, length-append v.pending (m ∷ []));
    held =
        Holds-append s.ring.slots (length s.taken) m v.pending
          (ap s.ring.slots (sym (ok.0 ∙ v.head_at)) ∙ ok.2) v.held;
    producing = tt;
    consuming = ConsumerOk-append s.ring (next h) v.pending m s.consumer v.consuming;
  }
    where
      ok : ProducerOk s.ring v.pending (Producer.written h m)
      ok = subst (ProducerOk s.ring v.pending) e v.producing

  publish_tail-Inv :
      (s : System A) (t : ℕ) (m : A)
      → s.consumer ≡ Consumer.copied t m
      → (v : Inv s)
      → Inv (record s {
        ring = record { slots = s.ring.slots; head = s.ring.head; tail = next t };
        consumer = Consumer.idle;
        taken = s.taken ++ m ∷ [];
      })
  publish_tail-Inv s t m e v = record {
    pending = rest;
    history = v.history ∙ ap (◌++◌ s.taken) front ∙ sym (append_assoc s.taken (m ∷ []) rest);
    tail_at = omega (arith, ok.0, v.tail_at, longer);
    head_at = omega (arith, v.head_at, longer, ap length front);
    fits = omega (arith, v.fits, ap length front);
    held =
        subst (λ n. Holds s.ring.slots n rest) (sym longer)
          (subst (Holds s.ring.slots (length s.taken)) front v.held).1;
    producing =
        ProducerOk-tail s.ring (next t) m rest s.producer
          (subst (λ q. ProducerOk s.ring q s.producer) front v.producing);
    consuming = tt;
  }
    where
      ok : ConsumerOk s.ring v.pending (Consumer.copied t m)
      ok = subst (ConsumerOk s.ring v.pending) e v.consuming

      rest : List A
      rest = ok.1.0

      front : v.pending ≡ m ∷ rest
      front = ok.1.1

      longer : length (s.taken ++ m ∷ []) ≡ length s.taken + 1
      longer = length-append s.taken (m ∷ [])

  -- A step that only moves one side, to a place where it may stand.
  producer_moves :
      (s : System A) (p : Producer A) (v : Inv s)
      → ProducerOk s.ring v.pending p
      → Inv (record s { producer = p })
  producer_moves s p v ok = record {
    pending = v.pending;
    history = v.history;
    tail_at = v.tail_at;
    head_at = v.head_at;
    fits = v.fits;
    held = v.held;
    producing = ok;
    consuming = v.consuming;
  }

  consumer_moves :
      (s : System A) (c : Consumer A) (v : Inv s)
      → ConsumerOk s.ring v.pending c
      → Inv (record s { consumer = c })
  consumer_moves s c v ok = record {
    pending = v.pending;
    history = v.history;
    tail_at = v.tail_at;
    head_at = v.head_at;
    fits = v.fits;
    held = v.held;
    producing = v.producing;
    consuming = ok;
  }

  -- The tests on the two indices decide whether entries are pending, and whether there is room.
  pub room_of_ne :
      {s : System A} (v : Inv s)
      → next s.ring.head ≢ s.ring.tail
      → length v.pending < rb_capacity - 1
  room_of_ne v h = omega (arith, v.head_at, v.tail_at, v.fits, h)

  pub pending_of_ne : {s : System A} (v : Inv s) → s.ring.tail ≢ s.ring.head → 0 < length v.pending
  pending_of_ne v h = omega (arith, v.head_at, v.tail_at, v.fits, h)

  pub full_of_eq :
      {s : System A} (v : Inv s)
      → next s.ring.head ≡ s.ring.tail
      → length v.pending ≡ rb_capacity - 1
  full_of_eq v h = omega (arith, v.head_at, v.tail_at, v.fits, h)

  pub empty_of_eq : {s : System A} (v : Inv s) → s.ring.tail ≡ s.ring.head → length v.pending ≡ 0
  empty_of_eq v h = omega (arith, v.head_at, v.tail_at, v.fits, h)

  -- Every step of either side keeps the invariant.
  pub Step-Inv : {s t : System A} → Step s t → Inv s → Inv t
  Step-Inv (load_head s m e) v = producer_moves s _ v refl
  Step-Inv (see_full s h m e full) v = producer_moves s _ v tt
  Step-Inv (see_room s h m e room) v =
      let ok = subst (ProducerOk s.ring v.pending) e v.producing in
      producer_moves s _ v (ok, room_of_ne v (λ p. room (ap next ok ∙ p)))
  Step-Inv (write_slot s h m e) v = write_slot-Inv s h m e v
  Step-Inv (publish_head s h m e) v = publish_head-Inv s h m e v
  Step-Inv (load_tail s e) v = consumer_moves s _ v refl
  Step-Inv (see_empty s t e empty) v = consumer_moves s _ v tt
  Step-Inv (see_entry s t e more) v =
      let ok = subst (ConsumerOk s.ring v.pending) e v.consuming in
      consumer_moves s _ v (ok, pending_of_ne v (λ p. more (ok ∙ p)))
  Step-Inv (read_slot s t e) v =
      let ok = subst (ConsumerOk s.ring v.pending) e v.consuming in
      consumer_moves s _ v
        (ok.0, Holds-front s.ring.slots _ t v.pending (ok.0 ∙ v.tail_at) ok.1 v.held)
  Step-Inv (publish_tail s t m e) v = publish_tail-Inv s t m e v

  -- So the invariant holds in every state that the two sides can reach.
  pub Reach-Inv : (blank : A) {s : System A} → Reach (start blank) s → Inv s
  Reach-Inv blank here = start-Inv blank
  Reach-Inv blank (then_step r st) = Step-Inv st (Reach-Inv blank r)

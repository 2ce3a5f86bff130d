-- ===== src/Tests/Rings.antt =====
-- The ring of entries, here numbers.
use capstone_monitor.Base.{
  ℕ, ◌≤◌, ◌≡◌, refl, List, [], ◌∷◌, length, arith, some, false, set, if◌then◌else◌,
}
use capstone_monitor.RingBuffer.{RingBuffer, rb_init, rb_push, rb_pop}
use capstone_monitor.RingBuffer.Queue
use capstone_monitor.RingBuffer.Contents.{IsValid, contents, rb_push_refines, rb_pop_refines}
use capstone_monitor.RingBuffer.Concurrent.{
  Producer, Consumer, System, start, Reach, here, then_step, load_head, see_room, write_slot,
  publish_head, load_tail, see_entry,
}
use capstone_monitor.RingBuffer.Concurrent.Safety.{taken_first, rb_push-Reach}

-- 7 in the last slot, 8 behind it in the first
abbrev wrapped : RingBuffer ℕ
wrapped = record { slots = set (set (λ _. 0) 32767 7) 0 8; head = 1; tail = 32767 }

-- one slot is always left free
abbrev full : RingBuffer ℕ
full = record { slots = λ n. n; head = 4; tail = 5 }

pop_wrapped : (rb_pop wrapped).1 ≡ some 7
unfolding rb_pop set
pop_wrapped = refl

push_full : (rb_push full 9).1 ≡ false
unfolding rb_push
push_full = refl

rb_push_refines_example :
    (contents (rb_push wrapped 9).0 ≡ (Queue.push 32767 (contents wrapped) 9).0)
    × ((rb_push wrapped 9).1 ≡ (Queue.push 32767 (contents wrapped) 9).1)
    × IsValid (rb_push wrapped 9).0
rb_push_refines_example = rb_push_refines wrapped 9 (omega arith)

rb_pop_refines_example :
    (contents (rb_pop wrapped).0 ≡ (Queue.pop (contents wrapped)).0)
    × ((rb_pop wrapped).1 ≡ (Queue.pop (contents wrapped)).1)
    × IsValid (rb_pop wrapped).0
rb_pop_refines_example = rb_pop_refines wrapped (omega arith)

-- 5 is published, the producer is about to write 6 and the consumer is about to copy 5
abbrev midway : System ℕ
midway = record {
  ring = record { slots = set (λ _. 0) 0 5; head = 1; tail = 0 };
  producer = Producer.claimed 1 6;
  consumer = Consumer.claimed 0;
  accepted = 5 ∷ [];
  taken = [];
}

published : Reach (start 0) (record midway { producer = Producer.idle; consumer = Consumer.idle })
unfolding start rb_init
published =
    then_step
      (then_step
        (then_step (then_step here (load_head (start 0) 5 refl))
          (see_room _ 0 5 refl (λ e. omega arith)))
        (write_slot _ 0 5 refl))
      (publish_head _ 0 5 refl)

Reach-midway : Reach (start 0) midway
Reach-midway =
    then_step
      (then_step
        (then_step (then_step published (load_head _ 6 refl))
          (see_room _ 1 6 refl (λ e. omega arith)))
        (load_tail _ refl))
      (see_entry _ 0 refl (λ e. omega arith))

taken_first_example : (pending : List ℕ) × (5 ∷ [] ≡ pending) × (length pending ≤ 32767)
taken_first_example = taken_first 0 Reach-midway

rb_push-Reach_example :
    let s = record midway { producer = Producer.idle } in
    Reach s (record s {
      ring = (rb_push s.ring 9).0;
      producer = Producer.idle;
      accepted = if (rb_push s.ring 9).1 then 5 ∷ 9 ∷ [] else 5 ∷ [];
    })
rb_push-Reach_example = rb_push-Reach (record midway { producer = Producer.idle }) 9 refl

-- ===== src/RingBuffer/Shared/Delivered.antt =====
-- How entries pass from one process to another through the rings of final/src/ring_buffer.c.
use capstone_monitor.Base.{
  ℕ, ◌+◌, ◌-◌, ◌<◌, ◌≤◌, ◌≡◌, ◌≢◌, refl, ap, ap₂, ◌∙◌, some, List, [], ◌∷◌, ◌++◌, map, length,
  length-append, set_self, arith,
}
use mathlib.Core.List.{append-nil, append_assoc}
use capstone_monitor.RingBuffer.{RingBuffer, rb_capacity, rb_init, rb_pop}
use capstone_monitor.RingBuffer.Queue
use capstone_monitor.RingBuffer.Contents.{
  IsValid, contents, entries, rb_push_refines, rb_pop_refines,
}
use capstone_monitor.RingBuffer.Burst.{push_room}
use capstone_monitor.RingBuffer.Shared.{
  push_at, pop_at, push_each, pop_each, rb_create_named, rb_attach_named,
}
use capstone_monitor.RingBuffer.Shared.Attached.{attach-create}
use capstone_monitor.Shm.{View, Shm, ShmLaws}

contents-rb_init : {A : Type 0} (blank : A) → contents (rb_init blank) ≡ []
unfolding rb_init entries
contents-rb_init blank = refl

rb_init-IsValid : {A : Type 0} (blank : A) → IsValid (rb_init blank)
unfolding rb_init
rb_init-IsValid blank = record { head_in = omega arith; tail_in = omega arith }

-- Two addresses are mappings of one ring, which holds the list.
record Holds {A : Type 0} (v : View A) (a b o : ℕ) (q : List A) : Type 0 where
  at_a : v.maps a ≡ some o
  at_b : v.maps b ≡ some o
  valid : IsValid (v.rings o)
  held : contents (v.rings o) ≡ q

module _ {A : Type 0} (shm : Shm A) (laws : ShmLaws shm) (a b o : ℕ) where
  open shm use {World, load, store, view}

  store-Holds :
      (c : ℕ) (f : RingBuffer A → RingBuffer A) (w : World) (q q' : List A)
      → (view w).maps c ≡ some o
      → Holds (view w) a b o q
      → IsValid (f ((view w).rings o))
      → contents (f ((view w).rings o)) ≡ q'
      → Holds (view (store c f w)) a b o q'
  store-Holds c f w q q' m h v e =
      let s = laws.stores c f w o m in
      let new =
        ap (λ (u : View A). u.rings o) s ∙ set_self (view w).rings o (f ((view w).rings o)) in
      record {
        at_a = ap (λ (u : View A). u.maps a) s ∙ h.at_a;
        at_b = ap (λ (u : View A). u.maps b) s ∙ h.at_b;
        valid = rw new v;
        held = ap contents new ∙ e;
      }

  push_at-Holds :
      (m : A) (w : World) (q : List A)
      → Holds (view w) a b o q
      → length q < rb_capacity - 1
      → Holds (view (push_at shm a m w).1) a b o (q ++ m ∷ [])
  unfolding push_at
  push_at-Holds m w q h room =
      let r = (view w).rings o in
      let more : rb_capacity - 1 - length (contents r) ≢ 0 = rw h.held (omega arith) in
      store-Holds a _ w q (q ++ m ∷ []) h.at_a h (rb_push_refines r m h.valid).2
        ((push_room r m h.valid more).0 ∙ ap (λ c. c ++ m ∷ []) h.held)

  pop_at-Holds :
      (m : A) (w : World) (q : List A)
      → Holds (view w) a b o (m ∷ q)
      → Holds (view (pop_at shm b w).1) a b o q × ((pop_at shm b w).0 ≡ some m)
  unfolding pop_at Queue.pop
  pop_at-Holds m w q h =
      let r = (view w).rings o in
      let p = rb_pop_refines r h.valid in
      (
        store-Holds b _ w (m ∷ q) q h.at_b h p.2 (p.0 ∙ ap (λ c. (Queue.pop c).0) h.held),
        ap (λ c. (rb_pop c).1) (laws.loads b w o h.at_b) ∙ p.1 ∙ ap (λ c. (Queue.pop c).1) h.held,
      )

  push_each-Holds :
      (ms : List A) (w : World) (q : List A)
      → Holds (view w) a b o q
      → length q + length ms ≤ rb_capacity - 1
      → Holds (view (push_each shm a ms w)) a b o (q ++ ms)
  unfolding push_each
  push_each-Holds [] w q h room = rw (append-nil q) h
  push_each-Holds (m ∷ ms) w q h room = rw (← append_assoc q (m ∷ []) ms) (
      push_each-Holds ms (push_at shm a m w).1 (q ++ m ∷ []) (push_at-Holds m w q h (omega arith))
        (omega (arith, length-append q (m ∷ []))))

  pop_each-Holds :
      (ms : List A) (w : World)
      → Holds (view w) a b o ms
      → pop_each shm b (length ms) w ≡ map some ms
  unfolding pop_each
  pop_each-Holds [] w h = refl
  pop_each-Holds (m ∷ ms) w h =
      let p = pop_at-Holds m w ms h in ap₂ ◌∷◌ p.1 (pop_each-Holds ms (pop_at shm b w).1 p.0)

-- One process creates a ring, another one attaches to it by its name. What the first one then pushes,
-- at most RB_CAPACITY - 1 entries, the other one pops, entry by entry and in this order.
pub pop_each-push_each :
    {A : Type 0} (shm : Shm A) (laws : ShmLaws shm) (blank : A) (name : List ℕ) (w : shm.World)
    (a b : ℕ) (ms : List A)
    → let c = rb_create_named shm blank name w in
      let t = rb_attach_named shm name c.1 in
      c.0 ≡ some a
      → t.0 ≡ some b
      → length ms ≤ rb_capacity - 1
      → pop_each shm b (length ms) (push_each shm a ms t.1) ≡ map some ms
pop_each-push_each shm laws blank name w a b ms ha hb fits =
    let t = rb_attach_named shm name (rb_create_named shm blank name w).1 in
    let q = attach-create shm laws blank name w a b ha hb in
    pop_each-Holds shm laws a b q.0 ms (push_each shm a ms t.1) (
      push_each-Holds shm laws a b q.0 ms t.1 []
        (record {
          at_a = q.1;
          at_b = q.2;
          valid = rw q.3 (rb_init-IsValid blank);
          held = ap contents q.3 ∙ contents-rb_init blank;
        })
        (omega arith))

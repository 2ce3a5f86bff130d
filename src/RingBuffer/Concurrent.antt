-- ===== src/RingBuffer/Concurrent.antt =====
-- One producer and one consumer over the shared mapping, at the grain of the atomic accesses of
-- final/src/ring_buffer.c. Each index has a single writer and is published by a release store that
-- the other side reads by an acquire load, so an execution is an interleaving of the steps below.
-- The copy of an entry is not atomic: it is in progress while a side stands at `claimed`.
-- `accepted` and `taken` record the entries of the calls that returned true.
pub mod Invariant
pub mod Preserved
pub mod Safety
use capstone_monitor.Base.{ℕ, ◌≡◌, ◌≢◌, List, [], ◌∷◌, ◌++◌, set}
use capstone_monitor.RingBuffer.{RingBuffer, next, rb_init}

-- where `rb_push` stands: with `head` loaded, with the slot known to be free, with the slot written
pub data Producer (A : Type 0) : Type 0 where
  idle : Producer A
  loaded : ℕ → A → Producer A
  claimed : ℕ → A → Producer A
  written : ℕ → A → Producer A

-- where `rb_pop` stands: with `tail` loaded, with the slot known to be filled, with the entry copied
pub data Consumer (A : Type 0) : Type 0 where
  idle : Consumer A
  loaded : ℕ → Consumer A
  claimed : ℕ → Consumer A
  copied : ℕ → A → Consumer A

pub record System (A : Type 0) : Type 0 where
  pub ring : RingBuffer A
  pub producer : Producer A
  pub consumer : Consumer A
  pub accepted : List A
  pub taken : List A

module _ {A : Type 0} where
  -- what `rb_create_named` leaves, before any call
  unfoldable pub start : A → System A
  unfolding rb_init
  start blank = record {
    ring = rb_init blank;
    producer = Producer.idle;
    consumer = Consumer.idle;
    accepted = [];
    taken = [];
  }

  pub data Step : System A → System A → Type 0 where
    load_head :
        (s : System A) (m : A)
        → s.producer ≡ Producer.idle
        → Step s (record s { producer = Producer.loaded s.ring.head m })
    see_full :
        (s : System A) (h : ℕ) (m : A)
        → s.producer ≡ Producer.loaded h m
        → next h ≡ s.ring.tail
        → Step s (record s { producer = Producer.idle })
    see_room :
        (s : System A) (h : ℕ) (m : A)
        → s.producer ≡ Producer.loaded h m
        → next h ≢ s.ring.tail
        → Step s (record s { producer = Producer.claimed h m })
    write_slot :
        (s : System A) (h : ℕ) (m : A)
        → s.producer ≡ Producer.claimed h m
        → Step s (record s {
          ring = record { slots = set s.ring.slots h m; head = s.ring.head; tail = s.ring.tail };
          producer = Producer.written h m;
        })
    publish_head :
        (s : System A) (h : ℕ) (m : A)
        → s.producer ≡ Producer.written h m
        → Step s (record s {
          ring = record { slots = s.ring.slots; head = next h; tail = s.ring.tail };
          producer = Producer.idle;
          accepted = s.accepted ++ m ∷ [];
        })
    load_tail :
        (s : System A)
        → s.consumer ≡ Consumer.idle
        → Step s (record s { consumer = Consumer.loaded s.ring.tail })
    see_empty :
        (s : System A) (t : ℕ)
        → s.consumer ≡ Consumer.loaded t
        → t ≡ s.ring.head
        → Step s (record s { consumer = Consumer.idle })
    see_entry :
        (s : System A) (t : ℕ)
        → s.consumer ≡ Consumer.loaded t
        → t ≢ s.ring.head
        → Step s (record s { consumer = Consumer.claimed t })
    read_slot :
        (s : System A) (t : ℕ)
        → s.consumer ≡ Consumer.claimed t
        → Step s (record s { consumer = Consumer.copied t (s.ring.slots t) })
    publish_tail :
        (s : System A) (t : ℕ) (m : A)
        → s.consumer ≡ Consumer.copied t m
        → Step s (record s {
          ring = record { slots = s.ring.slots; head = s.ring.head; tail = next t };
          consumer = Consumer.idle;
          taken = s.taken ++ m ∷ [];
        })

  pub data Reach (s : System A) : System A → Type 0 where
    here : Reach s s
    then_step : {t u : System A} → Reach s t → Step t u → Reach s u

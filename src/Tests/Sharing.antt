-- ===== src/Tests/Sharing.antt =====
-- Shared memory, on a small kernel: creating, attaching and destroying rings of numbers.
use capstone_monitor.Base.{
  ℕ, ◌≡◌, ◌≢◌, refl, false, Option, none, some, List, [], ◌∷◌, same_text, set, arith,
}
use capstone_monitor.RingBuffer.Shared.{
  shm_name, rb_create_named, rb_attach_named, rb_destroy_named, push_each, pop_each, size_new,
  map_new, mmap_shm, clear_ring, map_old,
}
use capstone_monitor.RingBuffer.Shared.Created.{IsCreated, rb_create_named-IsCreated}
use capstone_monitor.RingBuffer.Shared.Attached.{attach-rb_destroy_named}
use capstone_monitor.RingBuffer.Shared.Delivered.{pop_each-push_each}
use capstone_monitor.Shm.{set_name}
use capstone_monitor.Tests.Memory.{State, small, small_laws}

-- descriptor 0 is open, and a ring of an earlier run is still named and mapped at 5
abbrev stale : State ℕ
stale = record {
  fds = (0, some 0) ∷ [];
  names = (shm_name, some 3) ∷ [];
  maps = (5, some 3) ∷ [];
  rings = λ _. record { slots = λ n. n; head = 4; tail = 2 };
}

abbrev created : Option ℕ × State ℕ
created = rb_create_named (small 0) 0 shm_name stale

abbrev attached : Option ℕ × State ℕ
attached = rb_attach_named (small 0) shm_name created.1

rb_create_named-IsCreated_example :
    IsCreated 0 shm_name ((small 0).view stale) created.0 ((small 0).view created.1)
rb_create_named-IsCreated_example =
    rb_create_named-IsCreated (small 0) (small_laws 0) 0 shm_name stale

attach-rb_destroy_named_example :
    let u = rb_destroy_named (small 0) 5 shm_name stale in
    ((rb_attach_named (small 0) shm_name u).0 ≡ none)
    × ((small 0).view (rb_attach_named (small 0) shm_name u).1 ≡ (small 0).view u)
    × ((m : List ℕ)
        → same_text shm_name m ≡ false
        → ((small 0).view u).names m ≡ ((small 0).view stale).names m)
    × ((b : ℕ) → 5 ≢ b → ((small 0).view u).maps b ≡ ((small 0).view stale).maps b)
    × (((small 0).view u).rings ≡ stale.rings)
attach-rb_destroy_named_example = attach-rb_destroy_named (small 0) (small_laws 0) 5 shm_name stale

pop_each-push_each_example :
    pop_each (small 0) 12 2 (push_each (small 0) 6 (8 ∷ 9 ∷ []) attached.1) ≡ some 8 ∷ some 9 ∷ []
unfolding rb_create_named size_new map_new mmap_shm clear_ring rb_attach_named map_old set set_name
    same_text
pop_each-push_each_example =
    pop_each-push_each (small 0) (small_laws 0) 0 shm_name stale 6 12 (8 ∷ 9 ∷ []) refl refl
      (omega arith)

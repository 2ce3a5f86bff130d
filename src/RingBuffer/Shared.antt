-- ===== src/RingBuffer/Shared.antt =====
-- The rings in shared memory, in final/src/ring_buffer.c: creating, attaching, detaching and
-- destroying, and a push and a pop through a mapping. A NULL is `none`. Messages are left out.
pub mod Views
pub mod Created
pub mod Attached
pub mod Delivered
use capstone_monitor.Base.{
  ℕ, zero, suc, [], ◌∷◌, Bool, Option, none, some, List, if◌then◌else◌, not, codes,
}
use capstone_monitor.RingBuffer.{RingBuffer, rb_push, rb_pop}
use capstone_monitor.Shm.{Shm}

-- `SHM_NAME` and `SHM_NAME_DASH`
abbrev pub shm_name : List ℕ
shm_name = codes "/monitor_rb"

abbrev pub shm_name_dash : List ℕ
shm_name_dash = codes "/monitor_rb_dash"

module _ {A : Type 0} (shm : Shm A) where
  open shm use {
    World, shm_unlink, shm_create, shm_open, fchmod, ftruncate, mmap, munmap, close, load, store,
  }

  -- `mmap_shm`
  unfoldable pub mmap_shm : ℕ → World → Option ℕ × World
  mmap_shm fd w = mmap fd w

  -- the stores of `rb_create_named`: `blank` is the zeroed entry
  unfoldable pub clear_ring : A → ℕ → World → World
  clear_ring blank rb w =
      let w1 = store rb (λ r. record r { slots = λ _. blank }) w in
      let w2 = store rb (λ r. record r { head = 0 }) w1 in store rb (λ r. record r { tail = 0 }) w2

  -- behind ftruncate
  unfoldable pub map_new : A → ℕ → World → Option ℕ × World
  unfolding mmap_shm clear_ring
  map_new blank fd w =
      let m = mmap_shm fd w in
      let closed = close fd m.1 in
      elim m.0 [ none ↦ (none, closed) | some rb ↦ (some rb, clear_ring blank rb closed) ]

  -- behind shm_open: a failure of fchmod is only reported
  unfoldable pub size_new : A → ℕ → World → Option ℕ × World
  unfolding map_new
  size_new blank fd w =
      let t = ftruncate fd (fchmod fd w).1 in
      if not t.0 then (none, close fd t.1) else map_new blank fd t.1

  unfoldable pub rb_create_named : A → List ℕ → World → Option ℕ × World
  unfolding size_new
  rb_create_named blank name w =
      let r = shm_create name (shm_unlink name w) in
      elim r.0 [ none ↦ (none, r.1) | some fd ↦ size_new blank fd r.1 ]

  -- behind shm_open
  unfoldable pub map_old : ℕ → World → Option ℕ × World
  unfolding mmap_shm
  map_old fd w = let m = mmap_shm fd w in (m.0, close fd m.1)

  unfoldable pub rb_attach_named : List ℕ → World → Option ℕ × World
  unfolding map_old
  rb_attach_named name w =
      let r = shm_open name w in elim r.0 [ none ↦ (none, r.1) | some fd ↦ map_old fd r.1 ]

  unfoldable pub rb_destroy_named : ℕ → List ℕ → World → World
  rb_destroy_named rb name w = shm_unlink name (munmap rb w)

  unfoldable pub rb_create : A → World → Option ℕ × World
  unfolding rb_create_named
  rb_create blank w = rb_create_named blank shm_name w

  unfoldable pub rb_attach : World → Option ℕ × World
  unfolding rb_attach_named
  rb_attach w = rb_attach_named shm_name w

  unfoldable pub rb_destroy : ℕ → World → World
  unfolding rb_destroy_named
  rb_destroy rb w = rb_destroy_named rb shm_name w

  unfoldable pub rb_create_dash : A → World → Option ℕ × World
  unfolding rb_create_named
  rb_create_dash blank w = rb_create_named blank shm_name_dash w

  unfoldable pub rb_attach_dash : World → Option ℕ × World
  unfolding rb_attach_named
  rb_attach_dash w = rb_attach_named shm_name_dash w

  unfoldable pub rb_destroy_dash : ℕ → World → World
  unfolding rb_destroy_named
  rb_destroy_dash rb w = rb_destroy_named rb shm_name_dash w

  unfoldable pub rb_detach : ℕ → World → World
  rb_detach rb w = munmap rb w

  -- `rb_push` and `rb_pop` through the mapping at `rb`
  unfoldable pub push_at : ℕ → A → World → Bool × World
  unfolding rb_push
  push_at rb m w = ((rb_push (load rb w) m).1, store rb (λ r. (rb_push r m).0) w)

  unfoldable pub pop_at : ℕ → World → Option A × World
  unfolding rb_pop
  pop_at rb w = ((rb_pop (load rb w)).1, store rb (λ r. (rb_pop r).0) w)

  -- a run of pushes, and a run of pops with what they return
  unfoldable pub push_each : ℕ → List A → World → World
  unfolding push_at
  push_each rb [] w = w
  push_each rb (m ∷ ms) w = push_each rb ms (push_at rb m w).1

  unfoldable pub pop_each : ℕ → ℕ → World → List (Option A)
  unfolding pop_at
  pop_each rb zero w = []
  pop_each rb (suc n) w = (pop_at rb w).0 ∷ pop_each rb n (pop_at rb w).1

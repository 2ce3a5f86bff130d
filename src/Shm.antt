-- ===== src/Shm.antt =====
-- What final/src/ring_buffer.c asks of the kernel for shared memory: shm_open(3), shm_unlink(3),
-- fchmod(2), ftruncate(2), mmap(2), munmap(2), close(2) and the accesses through a mapping, as an
-- interface. A descriptor of -1, MAP_FAILED and a result of -1 are `none` and `false`. The sizes are
-- those of a RingBuffer. An address stands for a mapping of one process. The laws are what the manual
-- pages say of the descriptors, the names, the mappings and the objects behind them.
use capstone_monitor.Base.{
  ℕ, ◌≡◌, ◌≢◌, ◌⊎◌, Bool, Option, none, some, List, if◌then◌else◌, Array, set, same_text,
}
use capstone_monitor.RingBuffer.{RingBuffer}

-- which object a descriptor, a name and an address stand for, and what the objects hold
pub record View (A : Type 0) : Type 0 where
  pub fds : Array (Option ℕ)
  pub names : List ℕ → Option ℕ
  pub maps : Array (Option ℕ)
  pub rings : Array (RingBuffer A)

-- the names behind a change of one of them
unfoldable pub set_name : (List ℕ → Option ℕ) → List ℕ → Option ℕ → List ℕ → Option ℕ
set_name names n o m = if same_text n m then o else names m

pub record Shm (A : Type 0) : Type 1 where
  pub World : Type 0
  pub shm_unlink : List ℕ → World → World
  -- shm_open with O_CREAT | O_RDWR, and with O_RDWR
  pub shm_create : List ℕ → World → Option ℕ × World
  pub shm_open : List ℕ → World → Option ℕ × World
  pub fchmod : ℕ → World → Bool × World
  pub ftruncate : ℕ → World → Bool × World
  pub mmap : ℕ → World → Option ℕ × World
  pub munmap : ℕ → World → World
  pub close : ℕ → World → World
  pub load : ℕ → World → RingBuffer A
  pub store : ℕ → (RingBuffer A → RingBuffer A) → World → World
  pub view : World → View A

module _ {A : Type 0} (shm : Shm A) where
  open shm use {
    World, shm_unlink, shm_create, shm_open, fchmod, ftruncate, mmap, munmap, close, load, store,
    view,
  }

  -- the object that a name gets: the one that it has, or one that is new
  abbrev pub IsLinked : View A → List ℕ → ℕ → Type 0
  IsLinked v n o = (v.names n ≡ some o) ⊎ ((v.names n ≡ none) × ((a : ℕ) → v.maps a ≢ some o))

  pub record ShmLaws : Type 0 where
    pub unlink :
        (n : List ℕ) (w : World)
        → view (shm_unlink n w) ≡ record (view w) { names = set_name (view w).names n none }
    pub create_none :
        (n : List ℕ) (w : World) → (shm_create n w).0 ≡ none → view (shm_create n w).1 ≡ view w
    pub create_some :
        (n : List ℕ) (w : World) (fd : ℕ)
        → (shm_create n w).0 ≡ some fd
        → (o : ℕ) × ((view w).fds fd ≡ none)
          × IsLinked (view w) n o
          × (view (shm_create n w).1 ≡ record (view w) {
            fds = set (view w).fds fd (some o);
            names = set_name (view w).names n (some o);
          })
    pub open_none :
        (n : List ℕ) (w : World) → (shm_open n w).0 ≡ none → view (shm_open n w).1 ≡ view w
    pub open_some :
        (n : List ℕ) (w : World) (fd : ℕ)
        → (shm_open n w).0 ≡ some fd
        → (o : ℕ) × ((view w).fds fd ≡ none)
          × ((view w).names n ≡ some o)
          × (view (shm_open n w).1 ≡ record (view w) { fds = set (view w).fds fd (some o) })
    pub chmod : (fd : ℕ) (w : World) → view (fchmod fd w).1 ≡ view w
    -- the bytes that it adds or cuts are those of the object of the descriptor
    pub truncate :
        (fd : ℕ) (w : World) (o : ℕ)
        → (view w).fds fd ≡ some o
        → (r : RingBuffer A) × (view (ftruncate fd w).1
            ≡ record (view w) { rings = set (view w).rings o r })
    pub mmap_none : (fd : ℕ) (w : World) → (mmap fd w).0 ≡ none → view (mmap fd w).1 ≡ view w
    pub mmap_some :
        (fd : ℕ) (w : World) (o a : ℕ)
        → (view w).fds fd ≡ some o
        → (mmap fd w).0 ≡ some a
        → ((view w).maps a ≡ none)
          × (view (mmap fd w).1 ≡ record (view w) { maps = set (view w).maps a (some o) })
    pub unmap :
        (a : ℕ) (w : World)
        → view (munmap a w) ≡ record (view w) { maps = set (view w).maps a none }
    pub closes :
        (fd : ℕ) (w : World)
        → view (close fd w) ≡ record (view w) { fds = set (view w).fds fd none }
    pub loads : (a : ℕ) (w : World) (o : ℕ) → (view w).maps a ≡ some o → load a w ≡ (view w).rings o
    pub stores :
        (a : ℕ) (f : RingBuffer A → RingBuffer A) (w : World) (o : ℕ)
        → (view w).maps a ≡ some o
        → view (store a f w)
          ≡ record (view w) { rings = set (view w).rings o (f ((view w).rings o)) }

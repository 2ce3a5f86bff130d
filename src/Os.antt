-- ===== src/Os.antt =====
-- What the sources ask of the kernel for performance counters: perf_event_open(2), ioctl(2),
-- read(2) and close(2), as an interface. A descriptor is `none` for -1. The laws are a record of
-- their own; they are what the manual pages say of the table of open descriptors and of a read.
use capstone_monitor.Base.{
  ℕ, ◌≡◌, Bool, true, false, ◌||◌, ◌&&◌, not, Option, none, some, List, ◌==◌,
}

-- `type` and `config` of `struct perf_event_attr`, in the combinations that are used
pub data Event : Type 0 where
  cpu_cycles instructions cache_misses cpu_clock : Event

-- the arguments of a call: `grouped` is read_format = PERF_FORMAT_GROUP | PERF_FORMAT_ID
pub record Attr : Type 0 where
  pub event : Event
  pub pid : ℕ
  pub cpu : Option ℕ
  pub group_fd : Option ℕ
  pub grouped : Bool

pub data Request : Type 0 where
  reset enable disable : Request

-- a member of a grouped read
pub record Sample : Type 0 where
  pub value : ℕ
  pub id : ℕ

pub record Os : Type 1 where
  pub World : Type 0
  pub perf_event_open : Attr → World → Option ℕ × World
  -- the flag is PERF_IOC_FLAG_GROUP
  pub ioctl : Request → Bool → ℕ → World → World
  pub event_id : ℕ → World → ℕ
  -- a read of one `uint64_t`, and a read of a whole group; `none` if fewer bytes come back
  pub read_word : ℕ → World → Option ℕ
  pub read_group : ℕ → World → Option (List Sample)
  pub close : ℕ → World → World
  -- whether a descriptor is open, and whether it was opened with the group format
  pub is_open : World → ℕ → Bool
  pub is_grouped : World → ℕ → Bool

pub record IsKernel (os : Os) : Type 0 where
  -- a new descriptor was not open before, and nothing else changes
  pub open_fresh :
      (a : Attr) (w : os.World) (fd : ℕ)
      → (os.perf_event_open a w).0 ≡ some fd
      → os.is_open w fd ≡ false
  pub open_adds :
      (a : Attr) (w : os.World) (fd : ℕ)
      → (os.perf_event_open a w).0 ≡ some fd
      → (f : ℕ) → os.is_open (os.perf_event_open a w).1 f ≡ (os.is_open w f || fd == f)
  pub open_fails :
      (a : Attr) (w : os.World)
      → (os.perf_event_open a w).0 ≡ none
      → (f : ℕ) → os.is_open (os.perf_event_open a w).1 f ≡ os.is_open w f
  pub open_format :
      (a : Attr) (w : os.World) (fd : ℕ)
      → (os.perf_event_open a w).0 ≡ some fd
      → os.is_grouped (os.perf_event_open a w).1 fd ≡ a.grouped
  pub close_removes :
      (fd : ℕ) (w : os.World) (f : ℕ)
      → os.is_open (os.close fd w) f ≡ (os.is_open w f && not (fd == f))
  pub ioctl_keeps :
      (r : Request) (b : Bool) (fd : ℕ) (w : os.World) (f : ℕ)
      → os.is_open (os.ioctl r b fd w) f ≡ os.is_open w f
  pub ioctl_format :
      (r : Request) (b : Bool) (fd : ℕ) (w : os.World) (f : ℕ)
      → os.is_grouped (os.ioctl r b fd w) f ≡ os.is_grouped w f
  -- ENOSPC: a grouped read does not fit into one word
  pub read_small : (fd : ℕ) (w : os.World) → os.is_grouped w fd ≡ true → os.read_word fd w ≡ none

-- ===== src/PerfCounter.antt =====
-- final/src/perf_counter.c and perf_counter.h: the counters of one process on one core or on all,
-- their descriptors, and the rates computed from two readings. A descriptor or a `cpu_id` of -1 is
-- `none`; a result of 0 is `true` and one of -1 is `false`. Messages to stderr are left out.
pub mod Descriptors
pub mod Opening
pub mod Reading
pub mod Rates
use capstone_monitor.Base.{
  ℕ, zero, suc, ◌+◌, ◌-◌, ◌*◌, ◌%◌, ◌^◌, ◌≡◌, Bool, true, false, ◌||◌, Option, none, some, List, [],
  ◌∷◌, ◌==◌, if◌then◌else◌, take,
}
use capstone_monitor.Double.{Double}
use capstone_monitor.Os.{
  Os, Event, cpu_cycles, instructions, cache_misses, cpu_clock, Request, reset, enable, disable,
  Attr, Sample,
}

-- `raw_counters_t`
pub record RawCounters : Type 0 where
  pub cycles : ℕ
  pub instructions : ℕ
  pub llc_misses : ℕ

abbrev pub zero_counters : RawCounters
zero_counters = record { cycles = 0; instructions = 0; llc_misses = 0 }

-- `perf_counter_t`
pub record PerfCounter : Type 0 where
  pub pid : ℕ
  pub cpu_id : Option ℕ
  pub fd_cycles : Option ℕ
  pub fd_instr : Option ℕ
  pub fd_llc : Option ℕ
  pub hw_available : Bool
  pub id_cycles : ℕ
  pub id_instr : ℕ
  pub id_llc : ℕ

-- `memset(pc, 0, sizeof(*pc))`: every descriptor is 0, which is not -1
abbrev pub zeroed : PerfCounter
zeroed = record {
  pid = 0;
  cpu_id = some 0;
  fd_cycles = some 0;
  fd_instr = some 0;
  fd_llc = some 0;
  hw_available = false;
  id_cycles = 0;
  id_instr = 0;
  id_llc = 0;
}

-- zeroed, with the three descriptors set to -1 behind the memset
abbrev pub no_fds : PerfCounter
no_fds = record zeroed { fd_cycles = none; fd_instr = none; fd_llc = none }

-- The group format is asked for whenever there is no leader.
abbrev pub counter_attr : Event → ℕ → Option ℕ → Option ℕ → Attr
counter_attr event pid cpu_id leader = record {
  event = event;
  pid = pid;
  cpu = cpu_id;
  group_fd = leader;
  grouped = elim leader [ none ↦ true | some _ ↦ false ];
}

module _ (os : Os) where
  open os use {World, perf_event_open, ioctl, event_id, read_word, read_group, close}

  unfoldable pub open_counter : Event → ℕ → Option ℕ → Option ℕ → World → Option ℕ × World
  open_counter event pid cpu_id leader = perf_event_open (counter_attr event pid cpu_id leader)

  close_fd : Option ℕ → World → World
  close_fd none w = w
  close_fd (some fd) w = close fd w

  disable_fd : Bool → Option ℕ → World → World
  disable_fd hw none w = w
  disable_fd hw (some fd) w = ioctl disable hw fd w

  unfoldable pub perf_counter_close : PerfCounter → World → PerfCounter × World
  unfolding close_fd disable_fd
  perf_counter_close pc w = (
    no_fds,
    close_fd pc.fd_llc
        (close_fd pc.fd_instr (close_fd pc.fd_cycles (disable_fd pc.hw_available pc.fd_cycles w))),
  )

  -- the fallback: one software clock, which is its own leader
  unfoldable pub open_software : PerfCounter → World → Bool × PerfCounter × World
  unfolding open_counter
  open_software pc w =
      let r = open_counter cpu_clock pc.pid pc.cpu_id none w in
      elim r.0 [
        | none ↦ (false, record pc { hw_available = false }, r.1)
        | some fd ↦ (
          true,
          record pc { hw_available = false; fd_cycles = some fd },
          ioctl enable false fd (ioctl reset false fd r.1),
        )
      ]

  unfoldable pub enable_group : PerfCounter → ℕ → ℕ → ℕ → World → PerfCounter × World
  enable_group pc leader fi fl w = (
    record pc { id_cycles = event_id leader w; id_instr = event_id fi w; id_llc = event_id fl w },
    ioctl enable true leader (ioctl reset true leader w),
  )

  -- the third counter of the group
  unfoldable pub open_llc : PerfCounter → ℕ → ℕ → World → Bool × PerfCounter × World
  unfolding open_counter enable_group perf_counter_close
  open_llc pc leader fi w =
      let r = open_counter cache_misses pc.pid pc.cpu_id (some leader) w in
      elim r.0 [
        | none ↦ let c = perf_counter_close pc r.1 in (false, c.0, c.1)
        | some fl ↦
            let e = enable_group (record pc { fd_llc = some fl }) leader fi fl r.1 in
            (true, e.0, e.1)
      ]

  -- the second counter of the group
  unfoldable pub open_instr : PerfCounter → ℕ → World → Bool × PerfCounter × World
  unfolding open_counter open_llc perf_counter_close
  open_instr pc leader w =
      let r = open_counter instructions pc.pid pc.cpu_id (some leader) w in
      elim r.0 [
        | none ↦ let c = perf_counter_close pc r.1 in (false, c.0, c.1)
        | some fi ↦ open_llc (record pc { fd_instr = some fi }) leader fi r.1
      ]

  -- The whole of `perf_counter_open`: what stood in `*pc` before is overwritten.
  unfoldable pub perf_counter_open : ℕ → Option ℕ → World → Bool × PerfCounter × World
  unfolding open_counter open_software open_instr
  perf_counter_open pid cpu_id w =
      let pc : PerfCounter = record no_fds { pid = pid; cpu_id = cpu_id; hw_available = true } in
      let r = open_counter cpu_cycles pid cpu_id none w in
      elim r.0 [
        | none ↦ open_software pc r.1
        | some leader ↦ open_instr (record pc { fd_cycles = some leader }) leader r.1
      ]

-- the loop over a group: a sample goes to the counter whose id it carries
unfoldable pub decode : PerfCounter → List Sample → RawCounters → RawCounters
decode pc [] out = out
decode pc (s ∷ ss) out = decode pc ss (
    if s.id == pc.id_cycles
    then record out { cycles = s.value }
    else if s.id == pc.id_instr
    then record out { instructions = s.value }
    else if s.id == pc.id_llc
    then record out { llc_misses = s.value }
    else out)

module _ (os : Os) where
  open os use {World, read_word, read_group}

  read_hardware : PerfCounter → Option (List Sample) → Option RawCounters
  read_hardware pc none = none
  read_hardware pc (some ss) = some (decode pc (take 3 ss) zero_counters)

  read_software : Option ℕ → Option RawCounters
  read_software none = none
  read_software (some v) = some (record zero_counters { cycles = v })

  -- What goes through `out`, `none` for -1. A read of descriptor -1 fails.
  unfoldable pub perf_counter_read : PerfCounter → World → Option RawCounters
  unfolding read_hardware read_software
  perf_counter_read pc w = elim pc.fd_cycles [
    | none ↦ none
    | some fd ↦
        if pc.hw_available
        then read_hardware pc (read_group fd w)
        else read_software (read_word fd w)
  ]

-- `uint64_t` subtraction
abbrev pub sub64 : ℕ → ℕ → ℕ
sub64 a b = (a + 2 ^ 64 - b) % 2 ^ 64

-- `prev ? cur - prev : cur`
delta : (RawCounters → ℕ) → RawCounters → Option RawCounters → ℕ
delta field cur none = field cur
delta field cur (some prev) = sub64 (field cur) (field prev)

module _ (d : Double) where
  open d use {Carrier, mul, div, of_ℕ}

  unfoldable pub perf_counter_ipc : RawCounters → Option RawCounters → Carrier
  unfolding delta
  perf_counter_ipc cur prev =
      let cycles = delta (λ r. r.cycles) cur prev in
      let instr = delta (λ r. r.instructions) cur prev in
      if cycles == 0 then of_ℕ 0 else div (of_ℕ instr) (of_ℕ cycles)

  unfoldable pub perf_counter_llc_miss_rate : RawCounters → Option RawCounters → Carrier
  unfolding delta
  perf_counter_llc_miss_rate cur prev =
      let instr = delta (λ r. r.instructions) cur prev in
      let llc = delta (λ r. r.llc_misses) cur prev in
      if instr == 0 then of_ℕ 0 else div (mul (of_ℕ 100) (of_ℕ llc)) (of_ℕ instr)

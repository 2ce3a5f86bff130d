-- ===== src/Tests/Counters.antt =====
-- A kernel that numbers its descriptors in turn, and counters opened on it.
use capstone_monitor.Base.{
  ℕ, ◌+◌, ◌-◌, ◌^◌, ◌≡◌, ◌≢◌, refl, Bool, true, false, ◌&&◌, ◌||◌, not, Option, none, some, List,
  [], ◌∷◌, ◌==◌, if◌then◌else◌, ltb, arith, inl, inr,
}
use capstone_monitor.Os.{Os, IsKernel, Attr, Event, cpu_clock, Sample}
use capstone_monitor.PerfCounter.{PerfCounter, RawCounters, perf_counter_open, perf_counter_read}
use capstone_monitor.PerfCounter.Descriptors.{holds}
use capstone_monitor.PerfCounter.Opening.{perf_counter_open-is_open}
use capstone_monitor.PerfCounter.Reading.{IsGroup, perf_counter_read-group, fallback_unreadable}

-- the next descriptor, those that are closed, the group formats, and whether there is a PMU
pub record Kernel : Type 0 where
  pub next_fd : ℕ
  pub closed : ℕ → Bool
  pub grouped : ℕ → Bool
  pub pmu : Bool

abbrev pub is_clock : Event → Bool
is_clock cpu_clock = true
is_clock _ = false

abbrev pub is_granted : Attr → Kernel → Bool
is_granted a w = w.pmu || is_clock a.event

abbrev pub grant : Attr → Kernel → Kernel
grant a w = record w {
  next_fd = w.next_fd + 1;
  closed = λ f. not (w.next_fd == f) && w.closed f;
  grouped = λ f. if w.next_fd == f then a.grouped else w.grouped f;
}

abbrev pub answer : Bool → Attr → Kernel → Option ℕ × Kernel
answer true a w = (some w.next_fd, grant a w)
answer false a w = (none, w)

-- every group has the same three samples, with ids 1, 2 and 3
abbrev pub samples : List Sample
samples =
    record { value = 70; id = 3 }
    ∷ record { value = 50; id = 1 }
    ∷ record { value = 60; id = 2 }
    ∷ []

abbrev pub fake : Os
fake = record {
  World = Kernel;
  perf_event_open = λ a w. answer (is_granted a w) a w;
  ioctl = λ r b fd w. w;
  event_id = λ fd w. fd;
  read_word = λ fd w. if w.grouped fd then none else some 40;
  read_group = λ fd w. if w.grouped fd then some samples else none;
  close = λ fd w. record w { closed = λ f. (fd == f) || w.closed f };
  is_open = λ w f. ltb f w.next_fd && not (w.closed f);
  is_grouped = λ w fd. w.grouped fd;
}

-- What a successful answer is.
answered :
    (b : Bool) (a : Attr) (w : Kernel) (fd : ℕ)
    → (answer b a w).0 ≡ some fd
    → (w.next_fd ≡ fd) × ((answer b a w).1 ≡ grant a w)
answered true a w fd h = (grind arith, refl)
answered false a w fd h = absurd (grind arith)

refused : (b : Bool) (a : Attr) (w : Kernel) → (answer b a w).0 ≡ none → (answer b a w).1 ≡ w
refused true a w h = absurd (grind arith)
refused false a w h = refl

pub fake-IsKernel : IsKernel fake
fake-IsKernel = record {
  open_fresh = λ a w fd h. let n = (answered (is_granted a w) a w fd h).0 in ground arith;
  open_adds = λ a w fd h f.
      let r = answered (is_granted a w) a w fd h in let n = r.0 in rw r.1 (ground arith);
  open_fails = λ a w h f. rw (refused (is_granted a w) a w h);
  open_format = λ a w fd h.
      let r = answered (is_granted a w) a w fd h in let n = r.0 in rw r.1 (ground arith);
  close_removes = λ fd w f. ground arith;
  ioctl_keeps = λ r b fd w f. refl;
  ioctl_format = λ r b fd w f. refl;
  read_small = λ fd w h. rw h;
}

-- Descriptors 0, 1 and 2 are open.
abbrev pub machine : Kernel
machine = record { next_fd = 3; closed = λ _. false; grouped = λ _. false; pmu = true }

abbrev pub no_pmu : Kernel
no_pmu = record machine { pmu = false }

-- the counter that the first three opens would give
abbrev pub opened : PerfCounter
opened = record {
  pid = 42;
  cpu_id = none;
  fd_cycles = some 3;
  fd_instr = some 4;
  fd_llc = some 5;
  hw_available = true;
  id_cycles = 3;
  id_instr = 4;
  id_llc = 5;
}

abbrev after_open : Kernel
after_open = record machine { next_fd = 6; grouped = λ f. f == 3 }

open_machine : (perf_counter_open fake 42 none machine).1 ≡ opened
unfolding perf_counter_open
open_machine = refl

perf_counter_open-is_open_example :
    let r = perf_counter_open fake 42 (some 1) machine in
    (fake.is_open r.2 5 ≡ (fake.is_open machine 5 || holds r.1 5))
    × ((holds r.1 5 && fake.is_open machine 5) ≡ false)
    × (holds r.1 5 ≡ (r.0 && holds r.1 5))
perf_counter_open-is_open_example =
    perf_counter_open-is_open fake fake-IsKernel 42 (some 1) machine 5

abbrev tagged : PerfCounter
tagged = record opened { id_cycles = 1; id_instr = 2; id_llc = 3 }

tagged-IsGroup : IsGroup tagged
tagged-IsGroup = record {
  cycles_instr = λ e. omega (arith, e);
  cycles_llc = λ e. omega (arith, e);
  instr_llc = λ e. omega (arith, e);
}

differ : {a b : ℕ} → (a == b) ≡ false → a ≢ b
differ {a} {b} h = λ e. grind arith

perf_counter_read-group_example :
    perf_counter_read fake tagged after_open
    ≡ some (record { cycles = 50; instructions = 60; llc_misses = 70 })
perf_counter_read-group_example =
    perf_counter_read-group fake tagged after_open 3 50 60 70 samples refl refl tagged-IsGroup refl
      (omega arith) (inr (differ refl, inl (refl, refl, (differ refl, tt))))
      (inr (differ refl, inr (differ refl, inl (refl, refl, tt))))
      (inl (refl, refl, (differ refl, (differ refl, tt))))

fallback_unreadable_example :
    let r = perf_counter_open fake 42 none no_pmu in perf_counter_read fake r.1 r.2 ≡ none
unfolding perf_counter_open
fallback_unreadable_example = fallback_unreadable fake fake-IsKernel 42 none no_pmu refl refl

-- The cycle counter is about to wrap.
abbrev before : RawCounters
before = record { cycles = 2 ^ 64 - 10; instructions = 500; llc_misses = 7 }

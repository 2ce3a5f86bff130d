-- ===== src/Monitor/Deadline.antt =====
-- The absolute deadline of a tick of `run_sampling_loop` in final/src/monitor_final.c. The numbers
-- are `int64_t` and `time_t`, not negative.
use capstone_monitor.Base.{ℕ, ◌+◌, ◌*◌, ◌/◌, ◌%◌, ◌^◌, ◌<◌, ◌≡◌, arith}

-- `struct timespec`
pub record Timespec : Type 0 where
  pub tv_sec : ℕ
  pub tv_nsec : ℕ

-- `now_ns`, as a number without bound
abbrev pub nanoseconds : Timespec → ℕ
nanoseconds t = t.tv_sec * 1000000000 + t.tv_nsec

-- the end of a tick that starts at `t_start`
unfoldable pub deadline : ℕ → Timespec → Timespec
deadline interval_ms t_start =
    let interval_ns = interval_ms * 1000000 in
    let deadline_ns = t_start.tv_nsec + interval_ns % 1000000000 in
    record {
      tv_sec = (t_start.tv_sec + interval_ns / 1000000000) + deadline_ns / 1000000000;
      tv_nsec = deadline_ns % 1000000000;
    }

-- From a start with a `tv_nsec` below 10^9, and with an interval that is an `int`, the deadline lies
-- exactly the interval after the start and its `tv_nsec` is again below 10^9; `interval_ns` stays
-- below 2^63 and `deadline_ns` below 2^31.
pub deadline_lem :
    (interval_ms : ℕ) (t_start : Timespec)
    → interval_ms < 2 ^ 31
    → t_start.tv_nsec < 1000000000
    → (nanoseconds (deadline interval_ms t_start) ≡ nanoseconds t_start + interval_ms * 1000000)
      × ((deadline interval_ms t_start).tv_nsec < 1000000000)
      × (interval_ms * 1000000 < 2 ^ 63)
      × (t_start.tv_nsec + (interval_ms * 1000000) % 1000000000 < 2 ^ 31)
unfolding deadline
deadline_lem interval_ms t_start hi hs = omega arith

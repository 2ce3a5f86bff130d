-- ===== src/PerfCounter/Rates.antt =====
-- The rates of final/src/perf_counter.c over counters that may have wrapped.
use capstone_monitor.Base.{ℕ, ◌+◌, ◌%◌, ◌^◌, ◌<◌, ◌≡◌, refl, some, ◌==◌, if◌then◌else◌, arith}
use capstone_monitor.Double.{Double}
use capstone_monitor.PerfCounter.{RawCounters, sub64, perf_counter_ipc, perf_counter_llc_miss_rate}

-- `uint64_t` addition
abbrev pub add64 : ℕ → ℕ → ℕ
add64 a b = (a + b) % 2 ^ 64

-- the counters after `c` more cycles, `i` more instructions and `l` more misses
abbrev pub advance : RawCounters → ℕ → ℕ → ℕ → RawCounters
advance prev c i l = record {
  cycles = add64 prev.cycles c;
  instructions = add64 prev.instructions i;
  llc_misses = add64 prev.llc_misses l;
}

pub sub64-add64 : (a n : ℕ) → a < 2 ^ 64 → n < 2 ^ 64 → sub64 (add64 a n) a ≡ n
sub64-add64 a n ha hn = omega arith

module _ (d : Double) where
  open d use {mul, div, of_ℕ}

  -- Between two readings the rates are those of the events that happened, also when a 64-bit counter
  -- wrapped on the way: instructions per cycle, 0 with no cycle, and misses per hundred
  -- instructions, 0 with no instruction.
  pub rates_lem :
      (prev : RawCounters) (c i l : ℕ)
      → prev.cycles < 2 ^ 64
      → prev.instructions < 2 ^ 64
      → prev.llc_misses < 2 ^ 64
      → c < 2 ^ 64
      → i < 2 ^ 64
      → l < 2 ^ 64
      → let cur = advance prev c i l in
        (perf_counter_ipc d cur (some prev) ≡ (if c == 0 then of_ℕ 0 else div (of_ℕ i) (of_ℕ c)))
        × (perf_counter_llc_miss_rate d cur (some prev)
            ≡ (if i == 0 then of_ℕ 0 else div (mul (of_ℕ 100) (of_ℕ l)) (of_ℕ i)))
  unfolding perf_counter_ipc perf_counter_llc_miss_rate
  rates_lem prev c i l pc pi pl hc hi hl =
      rw
        (
          sub64-add64 prev.cycles c pc hc,
          sub64-add64 prev.instructions i pi hi,
          sub64-add64 prev.llc_misses l pl hl,
        )
        (refl, refl)

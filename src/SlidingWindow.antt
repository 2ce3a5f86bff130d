-- ===== src/SlidingWindow.antt =====
-- final/src/sliding_window.c and sliding_window.h: the mean of the last SWAG_CAPACITY samples, kept
-- by a running sum that is recomputed from the buffer once in SWAG_CAPACITY^2 pushes. `head` and
-- `count` are `int`s between 0 and SWAG_CAPACITY (SlidingWindow/History.antt).
pub mod History
pub mod CellSums
pub mod RunningSum
use capstone_monitor.Base.{
  ℕ, zero, suc, ◌+◌, ◌*◌, ◌%◌, ◌^◌, ◌==◌, leb, if◌then◌else◌, Array, set, List, [], ◌∷◌,
}
use capstone_monitor.Double.{Double}

-- `SWAG_CAPACITY`
abbrev pub swag_capacity : ℕ
swag_capacity = 10

pub record SlidingWindow (D : Type 0) : Type 0 where
  pub buffer : Array D
  pub head : ℕ
  pub count : ℕ
  pub run_sum : D
  pub push_count : ℕ

module _ (d : Double) where
  open d use {Carrier, add, sub, div, of_ℕ}

  unfoldable pub sw_init : SlidingWindow Carrier
  sw_init = record { buffer = λ _. of_ℕ 0; head = 0; count = 0; run_sum = of_ℕ 0; push_count = 0 }

  -- `for (j = 0; j < n; j++) exact += buffer[j];` from `exact = 0.0`
  unfoldable pub exact_sum : Array Carrier → ℕ → Carrier
  exact_sum buffer zero = of_ℕ 0
  exact_sum buffer (suc j) = add (exact_sum buffer j) (buffer j)

  -- the head of `sw_push`: the sample stored, the counters moved
  unfoldable pub store_sample : SlidingWindow Carrier → Carrier → SlidingWindow Carrier
  store_sample sw sample =
      let full = sw.count == swag_capacity in
      record {
        buffer = set sw.buffer sw.head sample;
        head = (sw.head + 1) % swag_capacity;
        count = if full then sw.count else sw.count + 1;
        run_sum = add (if full then sub sw.run_sum (sw.buffer sw.head) else sw.run_sum) sample;
        push_count = (sw.push_count + 1) % 2 ^ 32;
      }

  -- its tail: the periodic recomputation
  unfoldable pub recompute : SlidingWindow Carrier → SlidingWindow Carrier
  recompute sw =
      if leb (swag_capacity * swag_capacity) sw.push_count
      then record sw { push_count = 0; run_sum = exact_sum sw.buffer sw.count }
      else sw

  unfoldable pub sw_push : SlidingWindow Carrier → Carrier → SlidingWindow Carrier
  unfolding store_sample recompute
  sw_push sw sample = recompute (store_sample sw sample)

  unfoldable pub sw_mean : SlidingWindow Carrier → Carrier
  sw_mean sw = if sw.count == 0 then of_ℕ 0 else div sw.run_sum (of_ℕ sw.count)

  -- the window after the samples of a list, the newest first
  unfoldable pub pushes : List Carrier → SlidingWindow Carrier
  unfolding sw_init
  pushes [] = sw_init
  pushes (x ∷ xs) = sw_push (pushes xs) x

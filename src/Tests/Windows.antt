-- ===== src/Tests/Windows.antt =====
-- The sliding window over numbers in place of doubles.
use capstone_monitor.Base.{ℕ, ◌+◌, ◌-◌, ◌*◌, ◌/◌, ◌≡◌, refl, List, [], ◌∷◌, replicate, arith, set}
use capstone_monitor.Double.{Double, IsExact}
use capstone_monitor.SlidingWindow.{sw_push, sw_mean, pushes}
use capstone_monitor.SlidingWindow.RunningSum.{sw_mean-pushes}

abbrev pub whole : Double
whole = record {
  Carrier = ℕ;
  add = ◌+◌;
  sub = ◌-◌;
  mul = ◌*◌;
  div = ◌/◌;
  of_ℕ = λ n. n;
  of_decimal = λ m k. m;
}

whole-IsExact : IsExact whole
whole-IsExact = record { add_exact = λ a b h. refl; sub_exact = λ a b h k. refl }

abbrev samples : List ℕ
samples = 12 ∷ 11 ∷ 10 ∷ 9 ∷ 8 ∷ 7 ∷ 6 ∷ 5 ∷ 4 ∷ 3 ∷ 2 ∷ 1 ∷ []

mean_of_samples : sw_mean whole (pushes whole samples) ≡ 7
unfolding sw_mean pushes sw_push set
mean_of_samples = refl

sw_mean-pushes_example : sw_mean whole (pushes whole samples) ≡ 75 / 10
sw_mean-pushes_example = sw_mean-pushes whole whole-IsExact samples (omega arith)

abbrev hundred : List ℕ
hundred = replicate 100 5

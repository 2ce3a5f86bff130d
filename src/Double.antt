-- ===== src/Double.antt =====
-- The C type `double`, which the sources use and do not define: a type with the operations that
-- they apply to it. What IEEE 754 promises is a record of its own.
use capstone_monitor.Base.{ℕ, ◌+◌, ◌-◌, ◌^◌, ◌≤◌, ◌≡◌}

pub record Double : Type 1 where
  pub Carrier : Type 0
  pub add : Carrier → Carrier → Carrier
  pub sub : Carrier → Carrier → Carrier
  pub mul : Carrier → Carrier → Carrier
  pub div : Carrier → Carrier → Carrier
  -- the conversion of an unsigned integer
  pub of_ℕ : ℕ → Carrier
  -- the literal `me-k`
  pub of_decimal : ℕ → ℕ → Carrier

-- IEEE 754 binary64: whole numbers up to 2^53 convert exactly, and a sum or difference of two of
-- them that is again such a number is exact.
pub record IsExact (d : Double) : Type 0 where
  pub add_exact : (a b : ℕ) → a + b ≤ 2 ^ 53 → d.add (d.of_ℕ a) (d.of_ℕ b) ≡ d.of_ℕ (a + b)
  pub sub_exact : (a b : ℕ) → b ≤ a → a ≤ 2 ^ 53 → d.sub (d.of_ℕ a) (d.of_ℕ b) ≡ d.of_ℕ (a - b)

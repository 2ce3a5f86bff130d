-- ===== src/Base/Bits.antt =====
-- The bits of a mask: a bit that `|` sets, as `&` with one bit sees it.
use Prim.Native.Nat.{
  ℕ, zero, suc, ◌+◌, ◌*◌, ◌/◌, ◌%◌, ◌^◌, ◌≤◌, ◌<◌, min, max, bit_and, bit_or, digits, bitwise,
  bit_and-bitwise, bit_or-bitwise,
}
use mathlib.Core.Path.{◌≡◌, refl, sym, ap, ap₂, ◌∙◌}
use mathlib.Core.Logic.{◌≢◌}
use native.Mathlib.Nat.{pow-suc, div-div-eq-div-mul}
use native.Mathlib.Omega.{arith}
use capstone_monitor.Base.Tests.{◌==◌}

-- Fuel beyond the number is not used.
digits_more :
    (z : ℕ → ℕ) (f : ℕ → ℕ → ℕ) (n m a b : ℕ) → a ≤ n → n ≤ m → digits z f m a b ≡ digits z f n a b
digits_more z f zero zero a b h k = refl
digits_more z f zero (suc m) zero b h k = refl
digits_more z f zero (suc m) (suc a) b h k = absurd (omega (arith, h))
digits_more z f (suc n) zero a b h k = absurd (omega (arith, k))
digits_more z f (suc n) (suc m) zero b h k = refl
digits_more z f (suc n) (suc m) (suc a) b h k =
    ap (λ (r : ℕ). r * 2 + f (suc a % 2) (b % 2))
      (digits_more z f n m (suc a / 2) (b / 2) (omega (arith, h)) (omega (arith, k)))

-- the lowest digit and the rest
bitwise_next :
    (z : ℕ → ℕ) (f : ℕ → ℕ → ℕ) (a b : ℕ)
    → bitwise z f (suc a) b ≡ bitwise z f (suc a / 2) (b / 2) * 2 + f (suc a % 2) (b % 2)
bitwise_next z f a b =
    let half = suc a / 2 in
    ap (λ (r : ℕ). r * 2 + f (suc a % 2) (b % 2))
      (digits_more z f half a half (b / 2) (omega arith) (omega arith))

bit_and-next : (a b : ℕ) → bit_and a b ≡ bit_and (a / 2) (b / 2) * 2 + min (a % 2) (b % 2)
bit_and-next zero b = omega (arith, bit_and-bitwise 0 b, bit_and-bitwise 0 (b / 2))
bit_and-next (suc a) b = omega (
  arith,
  bit_and-bitwise (suc a) b,
  bit_and-bitwise (suc a / 2) (b / 2),
  bitwise_next (λ y. 0) min a b,
)

bit_or-next : (a b : ℕ) → bit_or a b ≡ bit_or (a / 2) (b / 2) * 2 + max (a % 2) (b % 2)
bit_or-next zero b = omega (arith, bit_or-bitwise 0 b, bit_or-bitwise 0 (b / 2))
bit_or-next (suc a) b = omega (
  arith,
  bit_or-bitwise (suc a) b,
  bit_or-bitwise (suc a / 2) (b / 2),
  bitwise_next (λ y. y) max a b,
)

bit_and_nothing : (n a : ℕ) → a ≤ n → bit_and a 0 ≡ 0
bit_and_nothing zero zero h = refl
bit_and_nothing zero (suc a) h = absurd (omega (arith, h))
bit_and_nothing (suc n) zero h = refl
bit_and_nothing (suc n) (suc a) h =
    omega (arith, bit_and-next (suc a) 0, bit_and_nothing n (suc a / 2) (omega (arith, h)))

bit_or_nothing : (n a : ℕ) → a ≤ n → bit_or a 0 ≡ a
bit_or_nothing zero zero h = refl
bit_or_nothing zero (suc a) h = absurd (omega (arith, h))
bit_or_nothing (suc n) zero h = refl
bit_or_nothing (suc n) (suc a) h =
    omega (arith, bit_or-next (suc a) 0, bit_or_nothing n (suc a / 2) (omega (arith, h)))

lowest : (a : ℕ) → bit_and a 1 ≡ a % 2
lowest a = omega (arith, bit_and-next a 1, bit_and_nothing a (a / 2) (omega arith))

half_pow : (c : ℕ) → 2 ^ suc c / 2 ≡ 2 ^ c
half_pow c = omega (arith, pow-suc 2 c)

even_pow : (c : ℕ) → 2 ^ suc c % 2 ≡ 0
even_pow c = omega (arith, pow-suc 2 c)

rest : (c m : ℕ) → bit_or m (2 ^ suc c) / 2 ≡ bit_or (m / 2) (2 ^ c)
rest c m = omega (arith, bit_or-next m (2 ^ suc c), even_pow c, ap (bit_or (m / 2)) (half_pow c))

-- Behind `m | 1 << c`, bit `c` is set, and the others are as they were.
pub bit_or_self : (c m : ℕ) → bit_and (bit_or m (2 ^ c)) (2 ^ c) ≡ 2 ^ c
bit_or_self zero m = omega (arith, lowest (bit_or m 1), bit_or-next m 1)
bit_or_self (suc c) m =
    let p = 2 ^ suc c in
    let x = bit_or m p in
    let half : bit_and (x / 2) (p / 2) ≡ 2 ^ c =
      ap₂ bit_and (rest c m) (half_pow c) ∙ bit_or_self c (m / 2) in
    omega (arith, bit_and-next x p, half, even_pow c, pow-suc 2 c)

pub bit_or_other : (c e m : ℕ) → c ≢ e → bit_and (bit_or m (2 ^ c)) (2 ^ e) ≡ bit_and m (2 ^ e)
bit_or_other zero zero m ne = absurd (ne refl)
bit_or_other zero (suc e) m ne =
    let x = bit_or m 1 in
    let p = 2 ^ suc e in
    let half : x / 2 ≡ m / 2 =
      omega (arith, bit_or-next m 1, bit_or_nothing m (m / 2) (omega arith)) in
    omega (arith, bit_and-next x p, bit_and-next m p, even_pow e, ap (λ y. bit_and y (p / 2)) half)
bit_or_other (suc c) zero m ne =
    let x = bit_or m (2 ^ suc c) in
    omega (arith, lowest x, lowest m, bit_or-next m (2 ^ suc c), even_pow c)
bit_or_other (suc c) (suc e) m ne =
    let p = 2 ^ suc e in
    let x = bit_or m (2 ^ suc c) in
    let half : bit_and (x / 2) (p / 2) ≡ bit_and (m / 2) (p / 2) =
      ap₂ bit_and (rest c m) (half_pow e)
      ∙ bit_or_other c e (m / 2) (λ k. ne (ap suc k))
      ∙ ap (bit_and (m / 2)) (sym (half_pow e)) in
    omega (arith, bit_and-next x p, bit_and-next m p, half, even_pow e)

pub bit_or_lt : (n c m : ℕ) → c < n → m < 2 ^ n → bit_or m (2 ^ c) < 2 ^ n
bit_or_lt zero c m lt h = absurd (omega (arith, lt))
bit_or_lt (suc n) zero m lt h =
    omega (arith, h, pow-suc 2 n, bit_or-next m 1, bit_or_nothing m (m / 2) (omega arith))
bit_or_lt (suc n) (suc c) m lt h = omega (
  arith,
  pow-suc 2 n,
  pow-suc 2 c,
  bit_or-next m (2 ^ suc c),
  ap (bit_or (m / 2)) (half_pow c),
  bit_or_lt n c (m / 2) (omega (arith, lt)) (omega (arith, h, pow-suc 2 n)),
)

-- `&` with one bit tests the digit of that bit.
pub bit_and_pow : (c m : ℕ) → (bit_and m (2 ^ c) == 0) ≡ (m / 2 ^ c % 2 == 0)
bit_and_pow zero m = ap (λ x. x == 0) (omega (arith, lowest m))
bit_and_pow (suc c) m =
    let p = 2 ^ suc c in
    let twice : bit_and m p ≡ bit_and (m / 2) (2 ^ c) * 2 =
      omega (arith, bit_and-next m p, even_pow c, ap (bit_and (m / 2)) (half_pow c)) in
    let digit : m / 2 / 2 ^ c ≡ m / p =
      div-div-eq-div-mul m 2 (2 ^ c) ∙ ap (λ q. m / q) (omega (arith, pow-suc 2 c)) in
    ap (λ x. x == 0) twice
    ∙ doubled (bit_and (m / 2) (2 ^ c))
    ∙ bit_and_pow c (m / 2)
    ∙ ap (λ x. x % 2 == 0) digit
  where
    doubled : (x : ℕ) → (x * 2 == 0) ≡ (x == 0)
    doubled x = ground arith

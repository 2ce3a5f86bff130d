-- ===== src/Monitor/Args/Cores.antt =====
-- Which cores `--cores` of final/src/monitor_final.c selects.
use Prim.Native.Nat.{bit_and, bit_or, bit_and-bitwise}
use native.Mathlib.Nat.{one-le-pow}
use mathlib.Core.Path.{subst}
use capstone_monitor.Base.{
  ℕ, ◌^◌, ◌<◌, ◌≡◌, refl, sym, ap, ap₂, ◌∙◌, inl, inr, Bool, true, false, ◌&&◌, ◌||◌, not, List, [],
  ◌∷◌, map, elem, ◌==◌, eq→==, ne→==, ltb, Bool-cases, eq_cases, atoi, bit_or_self, bit_or_other,
  arith,
}
use capstone_monitor.Monitor.{max_cores}
use capstone_monitor.Monitor.FastPath.{is_selected}
use capstone_monitor.Monitor.Args.{take_core, take_cores}

-- bit `c` of a mask, as the code reads it
bit : ℕ → ℕ → Bool
bit mask c = not (bit_and mask (2 ^ c) == 0)

-- whether a number of the list is that of a core
abbrev pub names_core : List ℕ → Bool
names_core [] = false
names_core (c ∷ cs) = ltb c max_cores || names_core cs

bit-bit_or : (c e mask : ℕ) → bit (bit_or mask (2 ^ c)) e ≡ (c == e || bit mask e)
unfolding bit
bit-bit_or c e mask = elim (eq_cases c e) [
  | inl k ↦
      let on : bit_and (bit_or mask (2 ^ c)) (2 ^ e) ≡ 2 ^ e =
        subst (λ x. bit_and (bit_or mask (2 ^ c)) (2 ^ x) ≡ 2 ^ x) k (bit_or_self c mask) in
      rw (eq→== c e k) (ap not (ne→== _ 0 (λ z. omega (arith, on, z, one-le-pow e 2))))
  | inr ne ↦ rw (ne→== c e ne) (ap (λ x. not (x == 0)) (bit_or_other c e mask ne))
]

bit-take_core : (c e mask : ℕ) → e < max_cores → bit (take_core c mask) e ≡ (c == e || bit mask e)
unfolding take_core
bit-take_core c e mask h = elim (Bool-cases (ltb c (2 ^ 31) && ltb c max_cores)) [
  | inl k ↦ rw k (bit-bit_or c e mask)
  | inr k ↦ let other : (c == e) ≡ false = ground (arith, k, h) in rw (k, other) refl
]

bit-take_cores :
    (toks : List (List ℕ)) (e mask : ℕ)
    → e < max_cores
    → bit (take_cores toks mask) e ≡ (elem e (map atoi toks) || bit mask e)
unfolding take_cores
bit-take_cores [] e mask h = refl
bit-take_cores (tok ∷ toks) e mask h =
    bit-take_cores toks e (take_core (atoi tok) mask) h
    ∙ ap (λ b. elem e (map atoi toks) || b) (bit-take_core (atoi tok) e mask h)
    ∙ or_swap (elem e (map atoi toks)) (atoi tok == e) (bit mask e)
  where
    or_swap : (a b c : Bool) → (a || (b || c)) ≡ ((b || a) || c)
    or_swap true true c = refl
    or_swap true false c = refl
    or_swap false true c = refl
    or_swap false false c = refl

zero-bit_and : (p : ℕ) → bit_and 0 p ≡ 0
zero-bit_and p = bit_and-bitwise 0 p

none-take_core : (c mask : ℕ) → (take_core c mask == 0) ≡ (not (ltb c max_cores) && mask == 0)
unfolding take_core
none-take_core c mask = elim (Bool-cases (ltb c max_cores)) [
  | inl k ↦
      let small : ltb c (2 ^ 31) ≡ true = ground (arith, k) in
      let on = bit_or_self c mask in
      let set = λ (z : bit_or mask (2 ^ c) ≡ 0).
        sym (zero-bit_and (2 ^ c)) ∙ ap (λ m. bit_and m (2 ^ c)) (sym z) ∙ on in
      rw (small, k)
        (ne→== _ 0 (λ (z : bit_or mask (2 ^ c) ≡ 0). omega (arith, set z, one-le-pow c 2)))
  | inr k ↦ elim (Bool-cases (ltb c (2 ^ 31))) [ inl s ↦ rw (s, k) refl | inr s ↦ rw (s, k) refl ]
]

none-take_cores :
    (toks : List (List ℕ)) (mask : ℕ)
    → (take_cores toks mask == 0) ≡ (not (names_core (map atoi toks)) && mask == 0)
unfolding take_cores
none-take_cores [] mask = refl
none-take_cores (tok ∷ toks) mask =
    none-take_cores toks (take_core (atoi tok) mask)
    ∙ ap (λ b. not (names_core (map atoi toks)) && b) (none-take_core (atoi tok) mask)
    ∙ and_not (names_core (map atoi toks)) (ltb (atoi tok) max_cores) (mask == 0)
  where
    and_not : (a b c : Bool) → (not a && (not b && c)) ≡ (not (b || a) && c)
    and_not true true c = refl
    and_not true false c = refl
    and_not false true c = refl
    and_not false false c = refl

-- Under the mask that `--cores` builds from 0, a core below MAX_CORES is selected just if its number is
-- in the list, or if no number in the list is that of a core: the mask 0 stands for all cores.
pub is_selected-take_cores :
    (toks : List (List ℕ)) (e : ℕ)
    → e < max_cores
    → is_selected (take_cores toks 0) e
      ≡ (not (names_core (map atoi toks)) || elem e (map atoi toks))
unfolding is_selected bit
is_selected-take_cores toks e h =
    let clear : bit 0 e ≡ false = ap (λ x. not (x == 0)) (zero-bit_and (2 ^ e)) in
    ap₂ ◌||◌ (none-take_cores toks 0) (bit-take_cores toks e 0 h)
    ∙ rw clear (simplify (names_core (map atoi toks)) (elem e (map atoi toks)))
  where
    simplify : (a b : Bool) → ((not a && true) || (b || false)) ≡ (not a || b)
    simplify true true = refl
    simplify true false = refl
    simplify false b = refl

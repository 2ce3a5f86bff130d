-- ===== src/Base/Arrays.antt =====
-- C arrays as functions of the index. The size of an array is not part of the function: that every
-- index in use stays within it is a theorem of the module that declares the array.
use Prim.Native.Nat.{ℕ}
use mathlib.Core.Path.{◌≡◌, sym, ap, ◌∙◌}
use mathlib.Core.Logic.{◌≢◌, inl, inr}
use native.Mathlib.Omega.{arith}
use capstone_monitor.Base.Tests.{◌==◌, if◌then◌else◌, eq_cases}

abbrev pub Array {ℓ} : Type ℓ → Type ℓ
Array A = ℕ → A

module _ {ℓ} {A : Type ℓ} where
  -- `a[i] = v`
  unfoldable pub set : Array A → ℕ → A → Array A
  set a i v j = if i == j then v else a j

  pub set_self : (a : Array A) (i : ℕ) (v : A) → set a i v i ≡ v
  unfolding set
  set_self a i v = ground arith

  pub set_ne : (a : Array A) (i j : ℕ) (v : A) → i ≢ j → set a i v j ≡ a j
  unfolding set
  set_ne a i j v h = ground arith

-- A write that a function cannot see.
pub set-absorb {ℓ κ} :
    {A : Type ℓ} {B : Type κ} (f : A → B) (a : Array A) (i k : ℕ) (v : A)
    → f v ≡ f (a i)
    → f (set a i v k) ≡ f (a k)
set-absorb f a i k v h = elim (eq_cases i k) [
  | inl e ↦ ap (λ m. f (set a i v m)) (sym e) ∙ ap f (set_self a i v) ∙ h ∙ ap (λ m. f (a m)) e
  | inr ne ↦ ap f (set_ne a i k v ne)
]

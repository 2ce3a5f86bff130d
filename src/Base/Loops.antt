-- ===== src/Base/Loops.antt =====
-- `for (c = 0; c < n; c++) s = body(c, s);`, and rows of two-dimensional arrays.
use Prim.Native.Nat.{ℕ, zero, suc, ◌<◌}
use mathlib.Core.Path.{◌≡◌, refl, ap, ◌∙◌}
use mathlib.Core.Logic.{◌≢◌, inl, inr}
use native.Mathlib.Omega.{arith}
use capstone_monitor.Base.Tests.{eq_cases}
use capstone_monitor.Base.Arrays.{Array, set, set_ne, set-absorb}

unfoldable pub for_below {ℓ} : {S : Type ℓ} → ℕ → (ℕ → S → S) → S → S
for_below zero body s = s
for_below (suc c) body s = body c (for_below c body s)

-- What every round keeps, the loop keeps.
pub for_below-keeps {ℓ κ} :
    {S : Type ℓ} {A : Type κ} (field : S → A) (body : ℕ → S → S) (n : ℕ) (s : S)
    → ((c : ℕ) (t : S) → field (body c t) ≡ field t)
    → field (for_below n body s) ≡ field s
unfolding for_below
for_below-keeps field body zero s h = refl
for_below-keeps field body (suc c) s h = h c (for_below c body s) ∙ for_below-keeps field body c s h

module _ {ℓ} {A : Type ℓ} where
  -- `a[i][c] = v`
  unfoldable pub set_cell : Array (Array A) → ℕ → ℕ → A → Array (Array A)
  set_cell a i c v = set a i (set (a i) c v)

  pub set_cell_self : (a : Array (Array A)) (i c : ℕ) (v : A) → set_cell a i c v i c ≡ v
  unfolding set_cell set
  set_cell_self a i c v = ground arith

  pub set_cell-ne_col :
      (a : Array (Array A)) (i c k : ℕ) (v : A) → c ≢ k → set_cell a i c v i k ≡ a i k
  unfolding set_cell set
  set_cell-ne_col a i c k v h = ground arith

  pub set_cell-ne_row : (a : Array (Array A)) (i j c : ℕ) (v : A) → i ≢ j → set_cell a i c v j ≡ a j
  unfolding set_cell
  set_cell-ne_row a i j c v h = set_ne a i j (set (a i) c v) h

-- What a loop does to one field, if every round acts on that field alone.
pub for_below-field {ℓ κ} :
    {S : Type ℓ} {A : Type κ} (field : S → A) (body : ℕ → S → S) (g : ℕ → A → A) (n : ℕ) (s : S)
    → ((c : ℕ) (t : S) → field (body c t) ≡ g c (field t))
    → field (for_below n body s) ≡ for_below n g (field s)
unfolding for_below
for_below-field field body g zero s h = refl
for_below-field field body g (suc c) s h =
    h c (for_below c body s) ∙ ap (g c) (for_below-field field body g c s h)

-- `for (c = 0; c < n; c++) a[i][c] = a[j][c];`
module _ {ℓ} {A : Type ℓ} (i j : ℕ) where
  abbrev pub copy_cell : ℕ → Array (Array A) → Array (Array A)
  copy_cell c a = set_cell a i c (a j c)

  pub copy-other_row : (n k : ℕ) (a : Array (Array A)) → i ≢ k → for_below n copy_cell a k ≡ a k
  unfolding for_below
  copy-other_row zero k a h = refl
  copy-other_row (suc c) k a h =
      set_cell-ne_row (for_below c copy_cell a) i k c (for_below c copy_cell a j c) h
      ∙ copy-other_row c k a h

  pub copy-row :
      (n c : ℕ) (a : Array (Array A)) → i ≢ j → c < n → for_below n copy_cell a i c ≡ a j c
  unfolding for_below
  copy-row zero c a h lt = absurd (omega (arith, lt))
  copy-row (suc n) c a h lt = elim (eq_cases n c) [
    | inl e ↦ rw (← e) (
        set_cell_self (for_below n copy_cell a) i n (for_below n copy_cell a j n)
        ∙ ap (λ r. r n) (copy-other_row n j a h))
    | inr ne ↦
        set_cell-ne_col (for_below n copy_cell a) i n c (for_below n copy_cell a j n) ne
        ∙ copy-row n c a h (omega arith)
  ]

-- An invariant of every round holds behind the loop.
pub for_below_inv {ℓ κ} :
    {S : Type ℓ} (P : S → Type κ) (body : ℕ → S → S) (n : ℕ) (s : S)
    → ((c : ℕ) (t : S) → P t → P (body c t))
    → P s
    → P (for_below n body s)
unfolding for_below
for_below_inv P body zero s h p = p
for_below_inv P body (suc c) s h p = h c (for_below c body s) (for_below_inv P body c s h p)

pub set_cell-absorb {ℓ κ} :
    {A : Type ℓ} {B : Type κ} (f : A → B) (a : Array (Array A)) (i c k l : ℕ) (v : A)
    → f v ≡ f (a i c)
    → f (set_cell a i c v k l) ≡ f (a k l)
unfolding set_cell
set_cell-absorb f a i c k l v h =
    set-absorb (λ r. f (r l)) a i k (set (a i) c v) (set-absorb f (a i) c l v h)

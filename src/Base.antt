-- ===== src/Base.antt =====
-- The names that the other modules share: the libraries', passed on, and those of the children.
mod Arrays
mod Bits
mod Lists
mod Loops
mod Tests
mod Text
pub use Arrays.{Array, set_self, set_ne, set-absorb}
unfoldable pub use Arrays.{set}
pub use Loops.{
  for_below-keeps, for_below-field, for_below_inv, copy-row, copy-other_row, set_cell_self,
  set_cell-absorb, set_cell-ne_col, set_cell-ne_row,
}
unfoldable pub use Loops.{for_below, set_cell, copy_cell}
pub use Lists.*
pub use Bits.{bit_and_pow, bit_or_self, bit_or_other, bit_or_lt}
pub use Text.{codes, c_text, token, is_digit, all_digits, is_space}
unfoldable pub use Text.{
  same_text, tokens_from, tokens, leading, positive_int, negative_int, signed, atoi,
}
pub use Tests.*
pub use Prim.Native.Nat.{ℕ, zero, suc, ◌+◌, ◌-◌, ◌*◌, ◌/◌, ◌%◌, ◌^◌, ◌≤◌, ◌<◌, min}
pub use mathlib.Core.Path.{◌≡◌, refl, sym, ap, ap₂, ◌∙◌}
pub use mathlib.Core.Logic.{◌≢◌, ◌⊎◌, inl, inr}
pub use mathlib.Core.Bool.{Bool, true, false, ◌&&◌, ◌||◌, not}
pub use mathlib.Core.Option.{Option, none, some}
pub use mathlib.Core.List.{List, [], ◌∷◌, ◌++◌, map}
pub use native.Mathlib.Omega.{arith}

-- ===== src/Prelude.antt =====
-- What every module of the development shares: the libraries' names, passed on, and the children's.
mod Tests
mod Lists
mod Text
mod Search
mod Decimal
pub mod Bits
pub use Tests.*
pub use Lists.*
pub use Text.*
pub use Search.{
  npos, find_char, starts_with, find_text, find_char-append, find_text-skip, find_text-none,
  find_from-append, sub_string-append, sub_string-rest,
}
unfoldable pub use Search.{same_text, add64, sub64, position, find_from, sub_string}
pub use Decimal.{
  ℤ, pos, negsuc, IsDigit, decimal-IsDigit, decimal_cons, stoi-decimal, stoi-decimal-then,
}
unfoldable pub use Decimal.{
  to_string, digits, decimal, stoi, signed, skip_spaces, leading_digits, value, positive, negative,
}
pub use Prim.Native.Nat.{ℕ, zero, suc, ◌+◌, ◌-◌, ◌*◌, ◌/◌, ◌%◌, ◌^◌, ◌≤◌, ◌<◌, bit_and, bit_or}
pub use mathlib.Core.Path.{◌≡◌, refl, sym, ap, ap₂, ◌∙◌}
pub use mathlib.Core.Logic.{◌≢◌, ◌↔◌, ◌⊎◌, inl, inr}
pub use mathlib.Core.Bool.{Bool, true, false, not, ◌&&◌, ◌||◌}
pub use mathlib.Core.Option.{Option, none, some}
pub use mathlib.Core.List.{List, [], ◌∷◌, ◌++◌, map}
pub use native.Mathlib.Omega.{arith}

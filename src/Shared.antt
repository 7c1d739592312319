-- ===== src/Shared.antt =====
-- The names that the other modules share: the libraries', passed on, and those of the children.
mod Tests
mod Int
mod Lists
mod Strings
mod Sums
mod Maps
mod Decimal
pub mod Rounding
pub use Tests.*
pub use Lists.*
pub use Sums.*
unfoldable pub use Maps.*
unfoldable pub use Int.*
unfoldable pub use Strings.*
unfoldable pub use Decimal.{show_ℕ, show_ℤ, is_digit, value, is_digits, is_integer, read_ℤ, big_int}
pub use Decimal.RoundTrip.{trim-show_ℤ, is_integer-show_ℤ, read_ℤ-show_ℤ}
pub use Prim.Native.Nat.{ℕ, zero, suc, ◌+◌, ◌-◌, ◌*◌, ◌/◌, ◌%◌, ◌^◌, ◌≤◌, ◌<◌}
pub use mathlib.Core.Path.{◌≡◌, refl, sym, ap, ◌∙◌}
pub use mathlib.Core.Logic.{◌≢◌, ◌↔◌, ◌⊎◌, inl, inr}
pub use mathlib.Core.Bool.{Bool, true, false, not, ◌&&◌, ◌||◌}
pub use mathlib.Core.Option.{Option, none, some}
pub use mathlib.Core.List.{List, [], ◌∷◌, ◌++◌, map, append_assoc, append-nil}
pub use native.Mathlib.Omega.{arith}

-- ===== src/Prelude.antt =====
-- Names that the modules share: the libraries', and those of the children below.
pub mod Tests
pub mod Text
pub mod Lists
pub mod Decimal
pub use Tests.*
pub use Text.*
pub use Lists.*
pub use Decimal.{
  SignedInt, IsDigits, to_string-IsDigits, stoi-to_string, stoi-to_string-overflow, atoi-to_string,
  int_max,
}
unfoldable pub use Decimal.{digits_value, to_string, stoi, atoi}
unfoldable pub use Text.{str_eq, str_lt}
pub use Prim.Native.Nat.{ℕ, zero, suc, ◌+◌, ◌-◌, ◌*◌, ◌/◌, ◌%◌, ◌^◌, ◌≤◌, ◌<◌}
pub use mathlib.Core.Path.{◌≡◌, refl, sym, ap, ◌∙◌, subst}
pub use mathlib.Core.Logic.{◌≢◌, ◌↔◌, ◌⊎◌, inl, inr}
pub use mathlib.Core.Bool.{Bool, true, false, not, ◌&&◌, ◌||◌}
pub use mathlib.Core.Option.{Option, none, some}
pub use mathlib.Core.List.{List, [], ◌∷◌, ◌++◌, map, append-nil}
pub use native.Mathlib.Omega.{arith}

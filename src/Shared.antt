-- ===== src/Shared.antt =====
-- The names that the other modules share: the libraries', passed on, and those of the children.
pub mod Table
pub mod Int
pub mod Decimal
pub mod Sort
pub mod Base64
pub mod Hex
pub mod Atoi
pub mod Dashes
pub mod Runs
pub mod Suffixes
mod Tests
mod Lists
mod Text
pub use Tests.*
pub use Lists.{
  length, take, drop, All, length-append, length-take, take-append, take-append_whole,
  drop-append_whole, all-append, any-append, All-append,
}
unfoldable pub use Lists.{all, any}
pub use Text.{
  Bytes, codes, str_eq_refl, str_eq→eq, str_eq_iff, cut_prefix-append, cut-append, is_empty→eq,
  not_empty,
}
unfoldable pub use Text.{is_empty, str_eq, str_lt, cut_prefix, cut}
pub use Prim.Native.Nat.{ℕ, zero, suc, ◌+◌, ◌-◌, ◌*◌, ◌/◌, ◌%◌, ◌^◌, ◌≤◌, ◌<◌}
pub use mathlib.Core.Path.{◌≡◌, refl, sym, ap, ◌∙◌, subst}
pub use mathlib.Core.Logic.{◌≢◌, ◌↔◌, ◌⊎◌, inl, inr}
pub use mathlib.Core.Bool.{Bool, true, false, not, ◌&&◌, ◌||◌}
pub use mathlib.Core.Option.{Option, none, some}
pub use mathlib.Core.List.{List, [], ◌∷◌, ◌++◌, map}
pub use native.Mathlib.Omega.{arith}

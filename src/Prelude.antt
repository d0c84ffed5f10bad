-- ===== src/Prelude.antt =====
-- The names that the other modules share: the libraries', passed on, and those of the children.
mod Tests
mod Lists
mod Keys
mod Text
mod Sorting
pub mod Int
pub use Tests.*
pub use Lists.*
unfoldable pub use Text.{strip_prefix, trim_prefix, strip_suffix, trim_left, trim_right, trim_space}
pub use Text.{concat, concat_filled, concat_filled_between, str_ltb, is_space}
pub use Keys.*
unfoldable pub use Sorting.{insert_by, order_by}
pub use Sorting.{SortedFrom, order_by-perm, any-order_by, Member-order_by, order_by-SortedFrom}
pub use Prim.Native.Nat.{ℕ, zero, suc, ◌+◌, ◌-◌, ◌*◌, ◌/◌, ◌%◌, ◌^◌, ◌≤◌, ◌<◌}
pub use Prim.Native.String.{String}
pub use mathlib.Core.Path.{◌≡◌, refl, sym, ap, ◌∙◌, fun_ext}
pub use mathlib.Core.Logic.{◌≢◌, ◌↔◌, ◌⊎◌, inl, inr}
pub use mathlib.Core.Bool.{Bool, true, false, not, ◌&&◌, ◌||◌, false≢true}
pub use mathlib.Core.Option.{Option, none, some}
pub use mathlib.Core.List.{List, [], ◌∷◌, ◌++◌, map}
pub use native.Mathlib.Omega.{arith}

-- ===== src/Base.antt =====
-- The names that every component shares: the library's, passed on, and those of the children.
mod Tests
mod Lists
mod Integers
mod ByteStrings
mod Sorting
mod Errors
mod Rows
mod Counts
pub use Tests.*
pub use Lists.*
pub use Integers.*
pub use ByteStrings.*
pub use Sorting.*
pub use Errors.*
pub use Rows.*
pub use Counts.*
unfoldable pub use Rows.{find_row, update_rows, delete_rows, count_rows, select_rows}
unfoldable pub use ByteStrings.{eq_bytes, lt_bytes, find_byte}
unfoldable pub use Sorting.{sort_by, insert_by}
unfoldable pub use Integers.{◌+ℤ◌, ◌-ℤ◌}
pub use Prim.Native.Nat.{ℕ, zero, suc, ◌+◌, ◌-◌, ◌*◌, ◌/◌, ◌%◌, ◌^◌, ◌≤◌, ◌<◌}
pub use Prim.Native.String.{String}
pub use mathlib.Core.Path.{◌≡◌, refl, sym, ap, ap₂, subst, ◌∙◌, fun_ext}
pub use mathlib.Core.Logic.{◌≢◌, ◌↔◌, ◌⊎◌, inl, inr}
pub use mathlib.Core.Bool.{Bool, true, false, not, ◌&&◌, ◌||◌}
pub use mathlib.Core.Option.{Option, none, some}
pub use mathlib.Core.List.{List, [], ◌∷◌, ◌++◌, map, reverse, Mem, Perm}
pub use native.Mathlib.Omega.{arith}

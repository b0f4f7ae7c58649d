-- ===== src/Base.antt =====
-- Names that the other modules share: those of the libraries, passed on, and those of the children
-- (equality tests on ids, numbers and status codes; queries on the rows of a table).
mod Tests
mod Lists
mod Sorting
pub mod Rows
pub mod Query
pub mod Unique
pub use Tests.*
pub use Lists.*
unfoldable pub use Lists.{
  select, find_row, find_last, any_row, all_rows, update_rows, count_rows, max_of, latest,
}
unfoldable pub use Sorting.{sort_by, distinct}
pub use Prim.Native.Nat.{ℕ, zero, suc, ◌+◌, ◌-◌, ◌*◌, ◌≤◌, ◌<◌, max}
pub use Prim.Native.String.{String}
pub use mathlib.Core.Path.{◌≡◌, refl, sym, ap, subst, ◌∙◌}
pub use mathlib.Core.Logic.{◌≢◌, ◌↔◌, ◌⊎◌, inl, inr}
pub use mathlib.Core.Bool.{Bool, true, false, not, ◌&&◌, ◌||◌}
pub use mathlib.Core.Option.{Option, none, some}
pub use mathlib.Core.List.{List, [], ◌∷◌, ◌++◌, map, Memᴰ}
pub use native.Mathlib.Omega.{arith}

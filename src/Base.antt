-- ===== src/Base.antt =====
-- The names that all modules share: the libraries', passed on, and those of the children.
mod Tests
mod Lists
mod Equality
mod Table
mod Sort
pub mod Int
pub mod Decimal
pub use Tests.*
pub use Lists.{length, length-append, All, take-add, drop-add, take-all, drop-all}
unfoldable pub use Lists.{take, drop}
pub use Equality.*
pub use Table.{merged, find-upsert, key-find}
unfoldable pub use Sort.{insert_by, sort_by, insert_with, sort_with}
pub use Sort.{IsOrdered, sort_by-IsOrdered, sort_by-perm, sort_with-perm, length-sort_with}
unfoldable pub use Table.{find, upsert}
pub use Prim.Native.Nat.{ℕ, zero, suc, ◌+◌, ◌-◌, ◌*◌, ◌/◌, ◌%◌, ◌^◌, ◌≤◌, ◌<◌}
pub use Prim.Native.String.{String}
pub use mathlib.Core.Path.{◌≡◌, refl, sym, ap, subst, ◌∙◌}
pub use mathlib.Core.Logic.{◌≢◌, ◌↔◌, ◌⊎◌, inl, inr}
pub use mathlib.Core.Bool.{Bool, true, false, not, ◌&&◌, ◌||◌}
pub use mathlib.Core.Option.{Option, none, some}
pub use mathlib.Core.List.{List, [], ◌∷◌, ◌++◌, map}
pub use native.Mathlib.Omega.{arith}
pub use text.Mathlib.TextEquality.{eq_iff}

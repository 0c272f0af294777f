-- ===== src/Common.antt =====
-- The names that the other modules share: the libraries', passed on, and those of the children.
mod Tests
mod Lists
mod Strings
mod Objects
pub mod Sort
pub mod Lines
pub mod Trimming
pub use Tests.*
pub use Lists.*
pub use Strings.{Text, codes, slice, or_empty, same_iff, same_refl, same_sym}
unfoldable pub use Strings.{
  same, contains, starts_with, index_of, includes, ends_with, split, join, trim_start, trim,
  is_space, last_index_of, lower, lower_code, decimal,
}
unfoldable pub use Objects.{Dict, lookup, has, put, keys, values, AllEntries}
pub use Objects.{
  lookup-put, lookup-put_self, contains-keys, AllEntries-put, AllEntries-lookup, AllEntries-map,
  AllEntries-values,
}
pub use Prim.Native.Nat.{ℕ, zero, suc, ◌+◌, ◌-◌, ◌*◌, ◌/◌, ◌%◌, ◌^◌, ◌≤◌, ◌<◌, min, max}
pub use mathlib.Core.Path.{◌≡◌, refl, sym, ap, subst, ◌∙◌}
pub use mathlib.Core.Logic.{◌≢◌, ◌↔◌, ◌⊎◌, inl, inr}
pub use mathlib.Core.Bool.{Bool, true, false, not, ◌&&◌, ◌||◌}
pub use mathlib.Core.Option.{Option, none, some}
pub use mathlib.Core.List.{List, [], ◌∷◌, ◌++◌, map, foldl, reverse}
pub use native.Mathlib.Omega.{arith}

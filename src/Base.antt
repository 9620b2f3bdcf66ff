-- ===== src/Base.antt =====
-- The names that the other modules share: those of the libraries, passed on, and the helpers of
-- the children. Base/Tests: Boolean tests on native numbers; Base/Lists: lists measured and cut by
-- native numbers; Base/Dicts: Python's `dict` in insertion order; Base/Sort: Python's stable `sort`;
-- Base/SortKeys: sorts of the same rows agree on the keys; Base/Filtered: sorts, cuts and filters
-- together.
mod Tests
mod Lists
mod Dicts
mod Sort
mod SortKeys
mod Filtered
pub use Tests.*
pub use Lists.*
pub use Dicts.{
  Dict, get, contains, keys, values, Unique, Entries, get-remove_self, get-remove_ne, get-put_self,
  get-put_ne, contains-put, contains-remove, put-Unique, remove-Unique, contains-get-none,
  get-none-contains, put-Entries, remove-Entries, get-Entries,
}
unfoldable pub use Dicts.{put, remove}
pub use SortKeys.{pages_agree}
pub use Filtered.{
  drop-add, length-drop, keep-sort, length-keep-le, length-sort, keep_both, keep-split, keep-All,
}
pub use Sort.{
  in_order, sorted_insert, IsSorted, sort-perm, sort-All, sort-IsSorted, IsSorted-drop,
  page-IsSorted, page-All,
}
unfoldable pub use Sort.{sort}
pub use Prim.Native.Nat.{ℕ, zero, suc, ◌+◌, ◌-◌, ◌*◌, ◌≤◌, ◌<◌}
pub use Prim.Native.String.{String}
pub use mathlib.Core.Path.{◌≡◌, refl, sym, ap, ap₂, subst, ◌∙◌}
pub use mathlib.Core.Logic.{◌≢◌, ◌↔◌, ◌⊎◌, inl, inr}
pub use mathlib.Core.Bool.{Bool, true, false, not, ◌&&◌, ◌||◌}
pub use mathlib.Core.Option.{Option, none, some}
pub use mathlib.Core.List.{List, [], ◌∷◌, ◌++◌, map}
pub use native.Mathlib.Omega.{arith}
pub use text.Mathlib.Text.{◌==◌ as str_eq}
pub use text.Mathlib.TextEquality.{eq_iff}

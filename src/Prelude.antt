-- ===== src/Prelude.antt =====
-- The names that the other modules share: the libraries', passed on, and those of the children.
mod Tests
mod Lists
mod Strings
mod Maps
mod Cuts
pub use Cuts.{Result, ok, err}
unfoldable pub use Cuts.{
  cut, before_first, split, trim_prefix, trim_suffix, replace_from, replace_all, cut_text, drop,
  join, strip_suffix,
}
pub use Tests.*
pub use Lists.*
pub use Maps.{
  Dict, IsDistinct, insert-IsDistinct, delete-IsDistinct, lookup-insert, lookup-delete,
  is_empty-insert,
}
unfoldable pub use Maps.{lookup, insert, delete, is_empty}
pub use Strings.{Text, codes, head_or_zero, str_eq_iff, str_eq_refl, length-has_prefix}
unfoldable pub use Strings.{str_eq, has_prefix, comes_before}
pub use Prim.Native.Nat.{ℕ, zero, suc, ◌+◌, ◌-◌, ◌*◌, ◌/◌, ◌%◌, ◌≤◌, ◌<◌}
pub use mathlib.Core.Path.{◌≡◌, refl, sym, ap, ◌∙◌}
pub use mathlib.Core.Logic.{◌≢◌, ◌↔◌, ◌⊎◌, inl, inr}
pub use mathlib.Core.Bool.{Bool, true, false, not, ◌&&◌, ◌||◌}
pub use mathlib.Core.Option.{Option, none, some}
pub use mathlib.Core.List.{List, [], ◌∷◌, ◌++◌, map, append_assoc, append-nil}
pub use native.Mathlib.Omega.{arith}

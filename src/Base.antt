-- ===== src/Base.antt =====
-- The names that the modules share: the libraries', passed on, and those of the children.
mod Tests
mod Lists
mod Strings
mod Results
mod Maps
pub use Tests.*
pub use Lists.*
pub use Results.*
unfoldable pub use Maps.{set, delete}
pub use Maps.{
  contains, text_eq_sym, text_eq-cases, lookup, keys, values, has_key, lookup-set, lookup-set_self,
  lookup-delete, length-le, has_key-set, has_key-delete, lookup-set-cases, length-set,
  length-delete-le, IsDistinct, set-IsDistinct, delete-IsDistinct, length-delete,
}
unfoldable pub use Strings.{text_eq, trim}
pub use Strings.{
  Text, codes, text_eq→eq, text_eq_refl, ne_of_text_eq, is_space, trim_kept, take-take,
}
pub use Prim.Native.Nat.{ℕ, zero, suc, ◌+◌, ◌-◌, ◌*◌, ◌/◌, ◌%◌, ◌^◌, ◌≤◌, ◌<◌}
pub use mathlib.Core.Path.{◌≡◌, refl, sym, ap, subst, ◌∙◌}
pub use mathlib.Core.Logic.{◌≢◌, ◌↔◌, ◌⊎◌, inl, inr}
pub use mathlib.Core.Bool.{Bool, true, false, not, ◌&&◌, ◌||◌}
pub use mathlib.Core.Option.{Option, none, some}
pub use mathlib.Core.List.{List, [], ◌∷◌, ◌++◌, map}
pub use native.Mathlib.Omega.{arith}

-- ===== src/Prelude.antt =====
-- The names that the modules share: the libraries', passed on, and those of the children.
mod Tests
pub mod Lists
mod Texts
pub mod Int
pub mod Sorting
pub mod Split
pub use Tests.*
pub use Lists.*
pub use Texts.{
  Text, codes, text_eq_iff, text_eq_refl, text_eq_ne, to_lower_idem, index_of-append,
  index_of-append_none, take-length_append, drop-length_append, trim_suffix-append, text_eq-append,
  trim_space-append,
}
unfoldable pub use Texts.{
  text_eq, text_ltb, lower, to_lower, trim_space, trim_suffix, trim_prefix, has_prefix, has_suffix,
  index_of,
}
pub use Prim.Native.Nat.{ℕ, zero, suc, ◌+◌, ◌-◌, ◌*◌, ◌/◌, ◌%◌, ◌^◌, ◌≤◌, ◌<◌, min, max}
pub use mathlib.Core.Path.{◌≡◌, refl, sym, ap, ◌∙◌, subst}
pub use mathlib.Core.Logic.{◌≢◌, ◌↔◌, ◌⊎◌, inl, inr}
pub use mathlib.Core.Bool.{Bool, true, false, not, ◌&&◌, ◌||◌, false≢true}
pub use mathlib.Core.Option.{Option, none, some}
pub use mathlib.Core.List.{List, [], ◌∷◌, ◌++◌, map}
pub use native.Mathlib.Omega.{arith}

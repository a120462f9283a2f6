-- ===== src/Prelude.antt =====
-- The names that the components share: the libraries', passed on, and those of the modules below.
mod Tests
mod Lists
mod Range
pub mod Result
pub mod Int
mod Strings
pub mod Named
mod Update
pub use Tests.*
pub use Lists.*
pub use Update.*
unfoldable pub use Named.{find_named, sort_texts}
pub use Named.{all_entries, &&-eq-true, find_named-passes, find_named-err}
pub use Strings.{Text, codes, text_eq_iff}
unfoldable pub use Strings.{text_eq, contains}
unfoldable pub use Range.{range_from, range}
pub use Range.{get_elem?-range_from, concat-slices_from, get_elem?-range, concat-slices}
pub use Prim.Native.Nat.{ℕ, zero, suc, ◌+◌, ◌-◌, ◌*◌, ◌/◌, ◌%◌, ◌^◌, ◌≤◌, ◌<◌, min, max}
pub use mathlib.Core.Path.{◌≡◌, refl, sym, ap, ◌∙◌, subst}
pub use mathlib.Core.Logic.{◌≢◌, ◌↔◌, ◌⊎◌, inl, inr}
pub use mathlib.Core.Bool.{Bool, true, false, not, ◌&&◌, ◌||◌}
pub use mathlib.Core.Option.{Option, none, some}
pub use mathlib.Core.List.{List, [], ◌∷◌, ◌++◌, map}
pub use native.Mathlib.Omega.{arith}

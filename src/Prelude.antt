-- ===== src/Prelude.antt =====
-- The names that the other modules share: the libraries', passed on, and those of four children.
mod Tests
mod Lists
mod Keys
mod Maps
pub mod Usize
pub mod Panics
pub mod Outcomes
pub mod Slices
pub mod Texts
pub mod Paths
pub use Tests.*
pub use Lists.*
pub use Keys.{Key, string_key, same, Distinct}
unfoldable pub use Keys.{contains, erase}
pub use Keys.{
  contains-append, contains-congr, contains-erase, erase-Distinct, append-Distinct, erase_absent,
}
pub use Maps.{Map, is_some, contains_key, map_laws}
unfoldable pub use Maps.{get, insert, remove}
pub use Maps.{get-nil, get-congr, get-insert, get-remove, get-insert_self, get-remove_self}
pub use Prim.Native.Nat.{ℕ, zero, suc, ◌+◌, ◌-◌, ◌*◌, ◌/◌, ◌%◌, ◌^◌, ◌≤◌, ◌<◌, min, max}
pub use Prim.Native.String.{String}
pub use mathlib.Core.Path.{◌≡◌, refl, sym, ap, ◌∙◌, subst}
pub use mathlib.Core.Logic.{◌≢◌, ◌↔◌, ◌⊎◌, inl, inr}
pub use mathlib.Core.Bool.{Bool, true, false, not, ◌&&◌, ◌||◌}
pub use mathlib.Core.Option.{Option, none, some}
pub use mathlib.Core.List.{List, [], ◌∷◌, ◌++◌, map}
pub use native.Mathlib.Omega.{arith}

-- ===== src/Prelude.antt =====
-- The names that the components share: the libraries', passed on, and those of five children.
mod Tests
mod Results
mod Maps
mod Lists
mod Utf8
pub use Tests.*
pub use Results.*
unfoldable pub use Tests.{list_beq}
unfoldable pub use Utf8.{utf8}
unfoldable pub use Lists.{keep, take, all, member, add}
pub use Lists.{length, take-all, length-append, length-keep-le, All, member-add}
unfoldable pub use Maps.{lookup, delete, insert, size}
pub use Maps.{Map, lookup-delete, lookup-insert, lookup-insert_self, size-delete-le, size-insert-le}
pub use Prim.Native.Nat.{ℕ, zero, suc, ◌+◌, ◌-◌, ◌*◌, ◌/◌, ◌%◌, ◌^◌, ◌≤◌, ◌<◌, min}
pub use Prim.Native.String.{String}
pub use mathlib.Core.Path.{◌≡◌, refl, sym, ap, ◌∙◌, subst}
pub use mathlib.Core.Logic.{◌≢◌, ◌↔◌, ◌⊎◌, inl, inr}
pub use mathlib.Core.Bool.{Bool, true, false, not, ◌&&◌, ◌||◌}
pub use mathlib.Core.Option.{Option, none, some}
pub use mathlib.Core.List.{List, [], ◌∷◌, ◌++◌, map}
pub use native.Mathlib.Omega.{arith}
pub use text.Mathlib.TextEquality.{eq_iff}

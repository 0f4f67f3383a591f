-- ===== src/Base.antt =====
-- The names that the other modules share: the libraries', passed on, and those of the children.
mod Tests
mod Lists
mod Maps
mod Results
mod Text
pub use Tests.*
pub use Lists.{
  length, get_elem?, take, drop, select-append, length-append, length-drop, take-append-drop, All,
  All-append,
}
unfoldable pub use Lists.{select}
pub use Results.*
pub use Text.{codes, is_space}
unfoldable pub use Text.{is_blank}
unfoldable pub use Maps.{lookup, insert, delete, retain}
pub use Maps.{lookup-insert, lookup-delete, lookup-retain, keep_if, length-retain-le}
pub use Prim.Native.Nat.{ℕ, zero, suc, ◌+◌, ◌-◌, ◌*◌, ◌/◌, ◌%◌, ◌^◌, ◌≤◌, ◌<◌, min, max}
pub use Prim.Native.String.{String, ◌++◌ as ◌<>◌}
pub use mathlib.Core.Path.{◌≡◌, refl, sym, ap, ◌∙◌, subst}
pub use mathlib.Core.Logic.{◌≢◌, ◌↔◌, ◌⊎◌, inl, inr}
pub use mathlib.Core.Bool.{Bool, true, false, not, ◌&&◌, ◌||◌}
pub use mathlib.Core.Option.{Option, none, some}
pub use mathlib.Core.List.{List, [], ◌∷◌, ◌++◌, map}
pub use native.Mathlib.Omega.{arith}
unfoldable pub use native.Mathlib.Decide.{ℕ_discrete}

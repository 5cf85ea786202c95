-- ===== src/Base.antt =====
-- The names that the other modules share: the libraries', passed on, and those of the children.
mod Tests
mod Lists
mod Assoc
mod Errors
mod Counting
pub mod Text
pub mod Int
pub use Tests.*
pub use Lists.{
  append_nil, append_assoc, drop_first, take, drop_first-get_elem?, get_elem?-take, length-take,
  drop_first-length, take-append-drop_first, length, get_elem?, length-append, get_elem?-some, All,
  Distinct, contains-append, Distinct-snoc,
}
unfoldable pub use Lists.{contains}
pub use Assoc.{Map, IsMap, lookup-delete, lookup-put, delete-IsMap, put-IsMap, delete-absent}
unfoldable pub use Assoc.{lookup, delete, put, has, count_if}
pub use Counting.*
pub use Errors.*
pub use Prim.Native.Nat.{ℕ, zero, suc, ◌+◌, ◌-◌, ◌*◌, ◌/◌, ◌%◌, ◌^◌, ◌≤◌, ◌<◌}
pub use Prim.Native.String.{String}
pub use mathlib.Core.Path.{◌≡◌, refl, sym, ap, subst, ◌∙◌}
pub use mathlib.Core.Logic.{◌≢◌, ◌↔◌, ◌⊎◌, inl, inr}
pub use mathlib.Core.Bool.{Bool, true, false, not, ◌&&◌, ◌||◌}
pub use mathlib.Core.Option.{Option, none, some}
pub use mathlib.Core.List.{List, [], ◌∷◌, ◌++◌, map}
pub use native.Mathlib.Omega.{arith}
pub use text.Mathlib.Text.{◌==◌}
pub use text.Mathlib.TextEquality.{eq_iff}

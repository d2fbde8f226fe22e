-- ===== src/Prelude.antt =====
-- The names that the other modules share: the libraries', passed on, and those of the children.
mod Tests
mod Lists
mod Splice
mod Text
mod Map
pub use Tests.*
pub use Lists.*
unfoldable pub use Splice.{splice}
pub use Splice.{
  drop-add, read-splice, splice-append, length-splice, read-splice_before, read-splice_behind,
}
unfoldable pub use Text.{equal, starts_with}
unfoldable pub use Map.{find, insert_or_assign}
pub use Map.{find-insert_or_assign}
pub use Text.{Bytes, codes, contains, equal_iff, equal_refl}
pub use Prim.Native.Nat.{ℕ, zero, suc, ◌+◌, ◌-◌, ◌*◌, ◌/◌, ◌%◌, ◌^◌, ◌≤◌, ◌<◌, min, max}
pub use mathlib.Core.Path.{◌≡◌, refl, sym, ap, ap₂, subst, ◌∙◌}
pub use mathlib.Core.Logic.{◌≢◌, ◌↔◌, ◌⊎◌, inl, inr}
pub use mathlib.Core.Bool.{Bool, true, false, not, ◌&&◌, ◌||◌}
pub use mathlib.Core.Option.{Option, none, some}
pub use mathlib.Core.List.{List, [], ◌∷◌, ◌++◌, map, append_assoc, append-nil}
pub use native.Mathlib.Omega.{arith}

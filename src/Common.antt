-- ===== src/Common.antt =====
-- The names that the other modules share: the libraries', passed on, and those of the children.
mod Tests
mod Lists
mod Keys
pub mod Text
pub use Tests.*
pub use Lists.*
unfoldable pub use Lists.{IsOneOf}
unfoldable pub use Keys.{list_eq, contains, add, discard, lookup, insert, delete}
pub use Keys.{
  Eq, ◌==◌, nat_Eq, list_Eq, list_eq_iff, contains-append, contains-add, contains-discard,
  lookup-insert, lookup-delete,
}
pub use Prim.Native.Nat.{ℕ, zero, suc, ◌+◌, ◌-◌, ◌*◌, ◌/◌, ◌%◌, ◌^◌, ◌≤◌, ◌<◌}
pub use mathlib.Core.Path.{◌≡◌, refl, sym, ap, ◌∙◌}
pub use mathlib.Core.Logic.{◌≢◌, ◌↔◌, ◌⊎◌, inl, inr}
pub use mathlib.Core.Bool.{Bool, true, false, not, ◌&&◌, ◌||◌}
pub use mathlib.Core.Option.{Option, none, some}
pub use mathlib.Core.List.{List, [], ◌∷◌, ◌++◌, map}
pub use native.Mathlib.Omega.{arith}

-- An integer, of the native numbers.
pub data ℤ : Type 0 where
  pos negsuc : ℕ → ℤ

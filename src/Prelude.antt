-- ===== src/Prelude.antt =====
-- The names that the other modules share: the libraries', passed on, and those of the children.
mod Tests
mod Lists
mod Int
pub mod Bits
mod Equality
mod Dicts
pub use Tests.*
pub use Lists.*
pub use Int.*
pub use Equality.*
unfoldable pub use Dicts.{lookup, insert, remove, contains}
pub use Dicts.{Dict, lookup-insert, lookup-remove, beq_refl}
pub use Prim.Native.String.{String}
pub use Prim.Native.Nat.{ℕ, zero, suc, ◌+◌, ◌-◌, ◌*◌, ◌/◌, ◌%◌, ◌^◌, ◌≤◌, ◌<◌}
pub use mathlib.Core.Path.{◌≡◌, refl, sym, ap, ◌∙◌}
pub use mathlib.Core.Logic.{◌≢◌, ◌↔◌, ◌⊎◌, inl, inr}
pub use mathlib.Core.Bool.{Bool, true, false, not, ◌&&◌, ◌||◌}
pub use mathlib.Core.Option.{Option, none, some}
pub use mathlib.Core.List.{
  List, [], ◌∷◌, ◌++◌, map, reverse, reverse-reverse, append_assoc, append-nil,
}
pub use native.Mathlib.Omega.{arith}

-- A step of a chain, and the rest of the chain.
infixr 5 ◌▸◌
pub ◌▸◌ {ℓ ℓ'} : {A : Type ℓ} → {B : Type ℓ'} → (A → B) → A → B
f ▸ rest = f rest

-- ===== src/Prelude.antt =====
-- Names that the modules of this library share: those of the libraries, passed on, and those of
-- the children. Texts and stored values are lists of bytes.
mod Tests
mod Lists
mod Text
pub mod Result
pub mod Decimal
pub mod Dict
pub use Tests.*
pub use Lists.*
unfoldable pub use Text.{beq, blt, starts_with, ends_with, contains}
pub use Text.{
  Bytes, bytes, beq_iff, beq_self, beq_ne, starts_with_iff, ends_with_iff, contains_iff,
  starts_with-append,
}
pub use Prim.Native.Nat.{ℕ, zero, suc, ◌+◌, ◌-◌, ◌*◌, ◌/◌, ◌%◌, ◌^◌, ◌≤◌, ◌<◌}
pub use Prim.Native.String.{String}
pub use mathlib.Core.Path.{◌≡◌, refl, sym, ap, subst, ◌∙◌}
pub use mathlib.Core.Logic.{◌≢◌, ◌↔◌, ◌⊎◌, inl, inr}
pub use mathlib.Core.Bool.{Bool, true, false, not, ◌&&◌, ◌||◌}
pub use mathlib.Core.Option.{Option, none, some}
pub use mathlib.Core.List.{List, [], ◌∷◌, ◌++◌, map}
pub use native.Mathlib.Omega.{arith}

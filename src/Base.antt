-- ===== src/Base.antt =====
-- The names that the other modules share.
mod Tests
mod Lists
mod Fallible
mod Equality
mod Ascii
pub mod Map
pub mod Set
pub use Tests.*
pub use Lists.*
pub use Fallible.*
pub use Ascii.*
unfoldable pub use Equality.{bytes_eq}
pub use Equality.{Eq, ◌==◌, nat_has_eq, bytes_eq_iff, bytes_has_eq}
pub use Prim.Native.Nat.{ℕ, zero, suc, ◌+◌, ◌-◌, ◌*◌, ◌/◌, ◌%◌, ◌^◌, ◌≤◌, ◌<◌}
pub use Prim.Native.String.{String}
pub use mathlib.Core.Path.{◌≡◌, refl, sym, ap, ◌∙◌, subst}
pub use mathlib.Core.Logic.{◌≢◌, ◌↔◌, ◌⊎◌, inl, inr}
pub use mathlib.Core.Bool.{Bool, true, false, not, ◌&&◌, ◌||◌}
pub use mathlib.Core.Option.{Option, none, some}
pub use mathlib.Core.List.{List, [], ◌∷◌, ◌++◌, map, append_assoc, append-nil}
pub use native.Mathlib.Omega.{arith}

-- ===== src/Prelude.antt =====
-- The names that every other module shares: the libraries', passed on, and the Boolean tests, the
-- list functions over the native numbers, the byte texts and the results of the children.
mod Tests
mod Lists
mod Membership
mod Text
mod Unicode
mod Results
mod Paths
mod Integers
pub use Tests.*
pub use Lists.*
pub use Membership.*
unfoldable pub use Text.*
pub use Integers.*
unfoldable pub use Unicode.*
pub use Results.*
unfoldable pub use Paths.*
pub use Prim.Native.Nat.{ℕ, zero, suc, ◌+◌, ◌-◌, ◌*◌, ◌/◌, ◌%◌, ◌^◌, ◌≤◌, ◌<◌, min}
pub use Prim.Native.String.{String}
pub use mathlib.Core.Path.{◌≡◌, refl, sym, ap, ◌∙◌, subst, subst₂}
pub use mathlib.Core.Logic.{◌≢◌, ◌↔◌, ◌⊎◌, inl, inr}
pub use mathlib.Core.Bool.{Bool, true, false, not, ◌&&◌, ◌||◌}
pub use mathlib.Core.Option.{Option, none, some}
pub use mathlib.Core.List.{List, [], ◌∷◌, ◌++◌, map, append_assoc, append-nil}
pub use native.Mathlib.Omega.{arith}

-- ===== src/Common.antt =====
-- The names that the other modules share.
pub mod Tests
pub mod Equality
pub mod Maps
pub mod Lists
pub mod Words
mod Outcome
pub mod Attempt
unfoldable pub use Tests.*
unfoldable pub use Maps.*
unfoldable pub use Lists.*
unfoldable pub use Words.*
pub use Outcome.{Fallible, done, failed, ensure, and_then}
pub use Equality.*
pub use Prim.Native.Nat.{ℕ, zero, suc, ◌+◌, ◌-◌, ◌*◌, ◌^◌, ◌≤◌, ◌<◌}
pub use Prim.Native.String.{String}
pub use mathlib.Core.Path.{◌≡◌, refl, sym, ap, ◌∙◌}
pub use mathlib.Core.Logic.{◌≢◌, ◌↔◌, ◌⊎◌, inl, inr}
pub use mathlib.Core.Bool.{Bool, true, false, not, ◌&&◌, ◌||◌}
pub use mathlib.Core.Option.{Option, none, some}
pub use mathlib.Core.List.{List, [], ◌∷◌, ◌++◌, map}
pub use native.Mathlib.Omega.{arith}

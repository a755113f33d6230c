-- ===== src/Prelude.antt =====
-- The names that the other modules share: those of the libraries, passed on, and those of its children: Boolean
-- tests, lists under native indices, finite maps as functions, integers, orders and logic.
mod Tests
mod Lists
mod Maps
mod Int
mod Order
mod Logic
pub use Tests.*
pub use Lists.*
pub use Maps.*
pub use Int.*
pub use Order.*
pub use Logic.*
pub use Prim.Native.Nat.{ℕ, zero, suc, ◌+◌, ◌-◌, ◌*◌, ◌/◌, ◌%◌, ◌^◌, ◌≤◌, ◌<◌}
pub use Prim.Native.String.{String}
pub use mathlib.Core.Path.{◌≡◌, refl, sym, ap, subst, ◌∙◌}
pub use mathlib.Core.Logic.{◌≢◌, ◌↔◌, ◌⊎◌, inl, inr}
pub use mathlib.Core.Bool.{Bool, true, false, not, ◌&&◌, ◌||◌}
pub use mathlib.Core.Option.{Option, none, some}
pub use mathlib.Core.List.{List, [], ◌∷◌, ◌++◌, map}
pub use native.Mathlib.Omega.{arith}
pub use text.Mathlib.TextEquality.{eq_iff}

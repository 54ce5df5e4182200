-- ===== src/Prelude.antt =====
-- Shared notation: the libraries' names passed on, and those of the child modules.
mod Tests
mod Lists
mod Str
mod Int
mod Outcome
mod Split
mod Joined
pub use Tests.*
pub use Lists.*
unfoldable pub use Str.*
unfoldable pub use Int.*
pub use Outcome.*
unfoldable pub use Split.*
pub use Joined.*
pub use Prim.Native.Nat.{ℕ, zero, suc, ◌+◌, ◌-◌, ◌*◌, ◌/◌, ◌%◌, ◌^◌, ◌≤◌, ◌<◌}
pub use Prim.Native.String.{String}
pub use mathlib.Core.Path.{◌≡◌, refl, sym, ap, ◌∙◌, subst}
pub use mathlib.Core.Logic.{◌≢◌, ◌↔◌, ◌⊎◌, inl, inr}
pub use mathlib.Core.Bool.{Bool, true, false, not, ◌&&◌, ◌||◌}
pub use mathlib.Core.Option.{Option, none, some}
pub use mathlib.Core.List.{List, [], ◌∷◌, ◌++◌, map, map-append, reverse, append_assoc, append-nil}
pub use native.Mathlib.Omega.{arith}

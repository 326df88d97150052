-- ===== src/Common.antt =====
-- The names that the other modules share: the libraries' names passed on, and those of the children
-- (tests on numbers and keys, lists over native numbers, sets and dictionaries, results).
mod Tests
mod Lists
mod Keys
mod Sets
mod Dicts
mod Results
pub use Tests.*
pub use Lists.*
pub use Keys.*
unfoldable pub use Sets.*
unfoldable pub use Dicts.*
pub use Results.*
pub use Prim.Native.Nat.{ℕ, zero, suc, ◌+◌, ◌-◌, ◌*◌, ◌/◌, ◌%◌, ◌^◌, ◌≤◌, ◌<◌, min, max}
pub use Prim.Native.String.{String}
pub use mathlib.Core.Path.{◌≡◌, refl, sym, ap, ap₂, ◌∙◌, fun_ext, subst}
pub use mathlib.Core.Logic.{◌≢◌, ◌↔◌, ◌⊎◌, inl, inr}
pub use mathlib.Core.Bool.{Bool, true, false, not, ◌&&◌, ◌||◌}
pub use mathlib.Core.Option.{Option, none, some}
pub use mathlib.Core.List.{List, [], ◌∷◌, ◌++◌, map, append_assoc, append-nil}
pub use native.Mathlib.Omega.{arith}

-- ===== src/Base.antt =====
-- What the other modules share: the libraries' names, Boolean tests, lists measured by native
-- numbers, byte strings and fallible results.
mod Tests
mod Lists
mod Text
mod Maps
mod Members
mod Results
pub use Tests.*
pub use Lists.*
pub use Text.*
unfoldable pub use Text.{str_eq, str_lt, cut_prefix}
pub use Maps.*
unfoldable pub use Maps.{lookup, has, put, remove}
pub use Members.*
pub use mathlib.Core.List.{Memᴰ}
pub use Results.*
pub use Prim.Native.Nat.{ℕ, zero, suc, ◌+◌, ◌-◌, ◌*◌, ◌/◌, ◌%◌, ◌^◌, ◌≤◌, ◌<◌}
pub use mathlib.Core.Path.{◌≡◌, refl, sym, ap, ◌∙◌}
pub use mathlib.Core.Logic.{◌≢◌, ◌↔◌, ◌⊎◌, inl, inr}
pub use mathlib.Core.Bool.{Bool, true, false, not, ◌&&◌, ◌||◌}
pub use mathlib.Core.Option.{Option, none, some}
pub use mathlib.Core.List.{List, [], ◌∷◌, ◌++◌, map}
pub use native.Mathlib.Omega.{arith}

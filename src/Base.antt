-- ===== src/Base.antt =====
-- The names that the components share: the libraries', passed on, and those of the children
-- (Boolean tests, lists, bytes).
pub mod Tests
pub mod Lists
pub mod Octets
pub mod Strings
pub mod Trim
pub mod Int64
pub mod Digits
pub mod Maps
pub use Tests.*
pub use Lists.*
pub use Octets.*
unfoldable pub use Strings.*
pub use Trim.*
pub use Int64.*
unfoldable pub use Digits.*
pub use Maps.*
pub use Prim.Native.Nat.{ℕ, zero, suc, ◌+◌, ◌-◌, ◌*◌, ◌/◌, ◌%◌, ◌^◌, ◌≤◌, ◌<◌, bit_and, bit_or}
pub use mathlib.Core.Path.{◌≡◌, refl, sym, ap, ◌∙◌, fun_ext}
pub use mathlib.Core.Logic.{◌≢◌, ◌↔◌, ◌⊎◌, inl, inr}
pub use mathlib.Core.Bool.{Bool, true, false, not, ◌&&◌, ◌||◌, false≢true}
pub use mathlib.Core.Option.{Option, none, some}
pub use mathlib.Core.List.{List, [], ◌∷◌, ◌++◌, map, reverse, append_assoc, append-nil}
pub use native.Mathlib.Omega.{arith}

-- ===== src/Shared.antt =====
-- Names that every module shares: the libraries', passed on, with tests, lists, signed integers,
-- byte strings and ordered maps (the C++ `std::string` and `std::map` of the program).
mod Tests
mod Lists
mod Integers
mod ByteStrings
mod OrderedMaps
mod KeyOrder
mod Decimal
mod Outcomes
pub mod IntSets
pub use Tests.*
pub use Lists.*
unfoldable pub use Integers.*
unfoldable pub use ByteStrings.*
unfoldable pub use OrderedMaps.*
pub use KeyOrder.*
unfoldable pub use Outcomes.*
unfoldable pub use Decimal.*
pub use Prim.Native.Nat.{ℕ, zero, suc, ◌+◌, ◌-◌, ◌*◌, ◌/◌, ◌%◌, ◌^◌, ◌≤◌, ◌<◌, max}
pub use mathlib.Core.Path.{◌≡◌, refl, sym, ap, ◌∙◌, subst}
pub use mathlib.Core.Logic.{◌≢◌, ◌↔◌, ◌⊎◌, inl, inr}
pub use mathlib.Core.Bool.{Bool, true, false, ◌&&◌, ◌||◌, not}
pub use mathlib.Core.Option.{Option, none, some}
pub use mathlib.Core.List.{List, [], ◌∷◌, ◌++◌, map, append_assoc, append-nil}
pub use native.Mathlib.Omega.{arith}

-- ===== src/Common.antt =====
-- What the other modules share: the libraries' names passed on, Boolean tests, lists over the native
-- numbers, results, big-endian integers and Go's byte streams.
mod Tests
mod Lists
mod Results
pub mod BigEndian
pub mod Io
pub mod Net
pub mod Text
pub mod Decimal
pub mod Integers
pub mod Times
pub mod Maps
pub mod Sorted
pub mod Crypto
pub use Tests.*
pub use Lists.*
pub use Results.*
pub use Prim.Native.Nat.{ℕ, zero, suc, ◌+◌, ◌-◌, ◌*◌, ◌/◌, ◌%◌, ◌^◌, ◌≤◌, ◌<◌, min}
pub use mathlib.Core.Path.{◌≡◌, refl, sym, ap, ◌∙◌, subst}
pub use mathlib.Core.Logic.{◌≢◌, ◌↔◌, ◌⊎◌, inl, inr}
pub use mathlib.Core.Bool.{Bool, true, false, ◌&&◌, ◌||◌, not}
pub use mathlib.Core.Option.{Option, none, some}
pub use mathlib.Core.List.{List, [], ◌∷◌, ◌++◌, map, append-nil, append_assoc}
pub use native.Mathlib.Omega.{arith}

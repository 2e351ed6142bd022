-- ===== src/Common.antt =====
-- The names that the other modules share: the libraries', passed on, and those of the children.
mod Tests
mod Lists
mod Outcome
mod Xor
mod Int
mod CInt
mod Word
mod Bits
mod Buffer
mod Decimal
pub use Xor.{xor_cancel, xor_self}
unfoldable pub use Word.{add32, sub32, rank, int_lt, to_int}
pub use Word.*
unfoldable pub use Int.{ltz, ◌+ℤ◌, ◌-ℤ◌, div_trunc}
pub use Int.*
unfoldable pub use CInt.{checked, int_add, int_sub}
pub use CInt.*
pub use Prim.Native.Nat.{bit_xor, bit_and, bit_or}
pub use Bits.{bit_and_step, bit_or_step, bit_and-mask}
unfoldable pub use Buffer.{take, filled, read_bytes}
pub use Buffer.*
unfoldable pub use Decimal.{print_int, atol}
pub use Decimal.*
pub use Tests.*
pub use Outcome.*
unfoldable pub use Lists.{at, hit, count, count_window}
pub use Lists.*
pub use Prim.Native.Nat.{ℕ, zero, suc, ◌+◌, ◌-◌, ◌*◌, ◌/◌, ◌%◌, ◌^◌, ◌≤◌, ◌<◌}
pub use mathlib.Core.Path.{◌≡◌, refl, sym, ap, ◌∙◌}
pub use mathlib.Core.Logic.{◌≢◌, ◌↔◌, ◌⊎◌, inl, inr}
pub use mathlib.Core.Bool.{Bool, true, false, not, ◌&&◌, ◌||◌}
pub use mathlib.Core.Option.{Option, none, some}
pub use mathlib.Core.List.{List, [], ◌∷◌, ◌++◌, map}
pub use native.Mathlib.Omega.{arith}

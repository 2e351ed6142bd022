-- ===== src/Common/CInt.antt =====
-- Arithmetic of the C type `int` of 32 bits. A result that does not fit is undefined behaviour,
-- which the model calls a fault.
use Prim.Native.Nat.{ℕ, ◌+◌, ◌-◌, ◌^◌, ◌≤◌, ◌<◌}
use mathlib.Core.Path.{◌≡◌}
use mathlib.Core.Bool.{true}
use native.Mathlib.Omega.{arith}
use armory.Common.Tests.{ltb, if◌then◌else◌}
use armory.Common.Int.{ℤ, pos, negsuc, ◌+ℤ◌, ◌-ℤ◌, ltz}
use armory.Common.Outcome.{Run, ok, fault}

abbrev pub int_limit : ℕ
int_limit = 2 ^ 31

unfoldable pub checked : ℤ → Run ℤ
checked (pos n) = if ltb n int_limit then ok (pos n) else fault
checked (negsuc n) = if ltb n int_limit then ok (negsuc n) else fault

unfoldable pub int_add : ℤ → ℤ → Run ℤ
unfolding checked ◌+ℤ◌
int_add a b = checked (a +ℤ b)

unfoldable pub int_sub : ℤ → ℤ → Run ℤ
unfolding checked ◌-ℤ◌
int_sub a b = checked (a -ℤ b)

pub int_add-pos : (a b : ℕ) → a + b < int_limit → int_add (pos a) (pos b) ≡ ok (pos (a + b))
unfolding int_add
int_add-pos a b h = ground arith

pub int_sub-pos : (a b : ℕ) → b ≤ a → a < int_limit → int_sub (pos a) (pos b) ≡ ok (pos (a - b))
unfolding int_sub
int_sub-pos a b h k = ground arith

pub int_sub-negsuc :
    (a b : ℕ) → a < b → b ≤ int_limit → int_sub (pos a) (pos b) ≡ ok (negsuc (b - a - 1))
unfolding int_sub
int_sub-negsuc a b h k = ground arith

-- From a difference back to the larger number.
pub int_add-back :
    (a b : ℕ) → a < b → b < int_limit → int_add (negsuc (b - a - 1)) (pos b) ≡ ok (pos a)
unfolding int_add
int_add-back a b h k = ground arith

pub ltz-pos : (a b : ℕ) → ltz (pos a) (pos b) ≡ ltb a b
unfolding ltz
ltz-pos a b = ground arith

pub ltz-negsuc : (n : ℕ) → ltz (negsuc n) (pos 0) ≡ true
unfolding ltz
ltz-negsuc n = ground arith

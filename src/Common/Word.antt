-- ===== src/Common/Word.antt =====
-- Machine words. A `uint32_t`, and the bit pattern of an `int`, is a number below 2 ^ 32.
use Prim.Native.Nat.{ℕ, ◌+◌, ◌-◌, ◌%◌, ◌^◌, ◌≤◌, ◌<◌}
use mathlib.Core.Path.{◌≡◌}
use mathlib.Core.Bool.{Bool, true, false}
use mathlib.Core.Logic.{◌↔◌}
use native.Mathlib.Omega.{arith}
use armory.Common.Int.{ℤ, pos, negsuc, ◌<ℤ◌}
use armory.Common.Tests.{ltb, ltb→lt, ltb-false→le, if◌then◌else◌}

abbrev pub u32_mod : ℕ
u32_mod = 2 ^ 32

-- `x + y`, `x - y` on `uint32_t`.
unfoldable pub add32 : ℕ → ℕ → ℕ
add32 x y = (x + y) % u32_mod

unfoldable pub sub32 : ℕ → ℕ → ℕ
sub32 x y = (x + u32_mod - y) % u32_mod

pub add32_small : (x y : ℕ) → x + y < u32_mod → add32 x y ≡ x + y
unfolding add32
add32_small x y h = omega arith

pub sub32_small : (x y : ℕ) → y ≤ x → x < u32_mod → sub32 x y ≡ x - y
unfolding sub32
sub32_small x y h k = omega arith

-- The place of a bit pattern in the order of the signed values: the sign bit is turned over.
unfoldable pub rank : ℕ → ℕ
rank x = (x + 2 ^ 31) % u32_mod

-- `x < y` on `int`.
unfoldable pub int_lt : ℕ → ℕ → Bool
int_lt x y = ltb (rank x) (rank y)

pub int_lt→lt : (x y : ℕ) → int_lt x y ≡ true → rank x < rank y
unfolding int_lt
int_lt→lt x y h = ltb→lt _ _ h

pub int_lt-false→le : (x y : ℕ) → int_lt x y ≡ false → rank y ≤ rank x
unfolding int_lt
int_lt-false→le x y h = ltb-false→le _ _ h

-- The value of a pattern: those from 2 ^ 31 on stand for the value less 2 ^ 32.
unfoldable pub to_int : ℕ → ℤ
to_int x = if ltb x (2 ^ 31) then pos x else negsuc (u32_mod - 1 - x)

-- The rank orders the patterns as their signed values are ordered.
pub int_lt-iff-to_int :
    (x y : ℕ) → x < u32_mod → y < u32_mod → (int_lt x y ≡ true) ↔ (to_int x <ℤ to_int y)
unfolding int_lt rank to_int
int_lt-iff-to_int x y h k = ground arith

pub rank_injective : (x y : ℕ) → x < u32_mod → y < u32_mod → rank x ≡ rank y → x ≡ y
unfolding rank
rank_injective x y h k e = omega arith

-- A length below 2 ^ 31 keeps its value when it is turned into an `int`.
pub to_int-pos : (n : ℕ) → n < 2 ^ 31 → to_int n ≡ pos n
unfolding to_int
to_int-pos n h = ground arith

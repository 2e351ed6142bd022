-- ===== src/Common/Bits.antt =====
-- Binary `and` and `or` at variables: the law of the lowest digit, and masks of low bits. The
-- native operations mean a recursion on binary digits with fuel.
use Prim.Native.Nat.{
  ℕ, zero, suc, ◌+◌, ◌-◌, ◌*◌, ◌/◌, ◌%◌, ◌^◌, ◌≤◌, ◌<◌, min, max, bit_and, bit_or, digits, bitwise,
  bit_and-bitwise, bit_or-bitwise,
}
use mathlib.Core.Path.{◌≡◌, refl, ap, ◌∙◌}
use native.Mathlib.Omega.{arith}

-- An operation on digits that gives `f b` where the first number has none left.
module _ (f : ℕ → ℕ) (g : ℕ → ℕ → ℕ) where
  one_round_more : (fuel a b : ℕ) → a ≤ fuel → digits f g (suc fuel) a b ≡ digits f g fuel a b
  one_round_more zero zero b h = refl
  one_round_more zero (suc a) b h = absurd (omega arith)
  one_round_more (suc fuel) zero b h = refl
  one_round_more (suc fuel) (suc a) b h =
      omega (arith, one_round_more fuel (suc a / 2) (b / 2) (omega arith))

  rounds_more :
      (extra fuel a b : ℕ) → a ≤ fuel → digits f g (extra + fuel) a b ≡ digits f g fuel a b
  rounds_more zero fuel a b h = let e : zero + fuel ≡ fuel = omega arith in rw e
  rounds_more (suc extra) fuel a b h =
      let e : suc extra + fuel ≡ suc (extra + fuel) = omega arith in
      rw e (one_round_more (extra + fuel) a b (omega arith) ∙ rounds_more extra fuel a b h)

  -- The lowest digit of the result, and the others.
  bitwise_step :
      ((b : ℕ) → f b ≡ f (b / 2) * 2 + g 0 (b % 2))
      → (a b : ℕ) → bitwise f g a b ≡ bitwise f g (a / 2) (b / 2) * 2 + g (a % 2) (b % 2)
  bitwise_step at_end zero b = at_end b
  bitwise_step at_end (suc a) b =
      let less = suc a / 2 in
      let e : a - less + less ≡ a = omega arith in
      let fewer = rounds_more (a - less) less less (b / 2) (omega arith) in
      let same = ap (λ k. digits f g k less (b / 2)) e in omega (arith, same, fewer)

pub bit_and_step : (a b : ℕ) → bit_and a b ≡ bit_and (a / 2) (b / 2) * 2 + min (a % 2) (b % 2)
bit_and_step a b =
    let law = bitwise_step (λ d. zero) min (λ d. omega arith) a b in
    omega (arith, law, bit_and-bitwise a b, bit_and-bitwise (a / 2) (b / 2))

pub bit_or_step : (a b : ℕ) → bit_or a b ≡ bit_or (a / 2) (b / 2) * 2 + max (a % 2) (b % 2)
bit_or_step a b =
    let law = bitwise_step (λ d. d) max (λ d. omega arith) a b in
    omega (arith, law, bit_or-bitwise a b, bit_or-bitwise (a / 2) (b / 2))

-- Nothing is left of a number by an empty mask.
bit_and-none : (fuel a : ℕ) → a < fuel → bit_and a 0 ≡ 0
bit_and-none zero a h = absurd (omega arith)
bit_and-none (suc fuel) zero h = refl
bit_and-none (suc fuel) (suc a) h =
    omega (arith, bit_and_step (suc a) 0, bit_and-none fuel (suc a / 2) (omega arith))

pow_pos : (k : ℕ) → 0 < 2 ^ k
pow_pos zero = omega arith
pow_pos (suc k) = omega (arith, pow_pos k)

half-mod : (a m : ℕ) → 0 < m → a / 2 % m * 2 + a % 2 ≡ a % (m * 2)
half-mod a m h = grind arith

-- The mask of `k` ones keeps what is left by a division by 2 ^ k.
pub bit_and-mask : (k a : ℕ) → bit_and a (2 ^ k - 1) ≡ a % 2 ^ k
bit_and-mask zero a = omega (arith, bit_and-none (suc a) a (omega arith))
bit_and-mask (suc k) a =
    let e : (2 ^ suc k - 1) / 2 ≡ 2 ^ k - 1 = omega (arith, pow_pos k) in
    let double : 2 ^ suc k ≡ 2 ^ k * 2 = omega arith in
    let low : (2 ^ suc k - 1) % 2 ≡ 1 = omega (arith, pow_pos k) in
    let digit : min (a % 2) ((2 ^ suc k - 1) % 2) ≡ a % 2 = omega (arith, low) in
    let half = ap (λ b. bit_and (a / 2) b) e ∙ bit_and-mask k (a / 2) in
    let wide : a / 2 % 2 ^ k * 2 + a % 2 ≡ a % 2 ^ suc k =
      rw double (half-mod a (2 ^ k) (pow_pos k)) in
    omega (arith, bit_and_step a (2 ^ suc k - 1), half, digit, wide)

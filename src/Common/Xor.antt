-- ===== src/Common/Xor.antt =====
-- Exclusive or at variables: the native operation means a recursion on binary digits with fuel.
-- Three laws are what the program's `swap_value` rests on.
use Prim.Native.Nat.{differ, digits, bit_xor, bit_xor-bitwise}
use mathlib.Core.WellFounded.{Acc, WellFounded, induction}
use Prim.Native.Nat.{ℕ, zero, suc, ◌+◌, ◌*◌, ◌/◌, ◌%◌, ◌≤◌, ◌<◌}
use mathlib.Core.Path.{◌≡◌, refl}
use native.Mathlib.Omega.{arith}
use native.Mathlib.Nat.{le_refl}

Acc-below : (k n : ℕ) → n < k → Acc ◌<◌ n
Acc-below zero n h = elim h [ ]
Acc-below (suc k) n h = Acc.intro n (λ m hm. Acc-below k m (omega arith))

lt_wf : WellFounded ◌<◌
lt_wf = record { apply = λ n. Acc-below (suc n) n (omega arith) }

abbrev xor_digits : ℕ → ℕ → ℕ → ℕ
xor_digits n a b = digits (λ b. b) differ n a b

xor_digits_fuel : (n m a b : ℕ) → a ≤ n → a ≤ m → xor_digits n a b ≡ xor_digits m a b
xor_digits_fuel zero zero a b p q = refl
xor_digits_fuel zero (suc m) zero b p q = refl
xor_digits_fuel zero (suc m) (suc a) b p q = absurd (omega arith)
xor_digits_fuel (suc n) zero zero b p q = refl
xor_digits_fuel (suc n) zero (suc a) b p q = absurd (omega arith)
xor_digits_fuel (suc n) (suc m) zero b p q = refl
xor_digits_fuel (suc n) (suc m) (suc a) b p q =
    rw (xor_digits_fuel n m (suc a / 2) (b / 2) (omega arith) (omega arith))

zero-bit_xor : (b : ℕ) → bit_xor 0 b ≡ b
zero-bit_xor b = bit_xor-bitwise 0 b

bit_xor_step : (a b : ℕ) → bit_xor a b ≡ bit_xor (a / 2) (b / 2) * 2 + differ (a % 2) (b % 2)
bit_xor_step zero b = omega (arith, zero-bit_xor b, zero-bit_xor (b / 2))
bit_xor_step (suc a) b = omega (
  arith,
  bit_xor-bitwise (suc a) b,
  bit_xor-bitwise (suc a / 2) (b / 2),
  xor_digits_fuel a (suc a / 2) (suc a / 2) (b / 2) (omega arith) (le_refl _),
)

differ-lt-two : (x y : ℕ) → x < 2 → y < 2 → differ x y < 2
differ-lt-two zero y p q = q
differ-lt-two (suc zero) zero p q = omega arith
differ-lt-two (suc zero) (suc zero) p q = omega arith
differ-lt-two (suc zero) (suc (suc y)) p q = absurd (omega arith)
differ-lt-two (suc (suc x)) y p q = absurd (omega arith)

differ_cancel :
    (x y : ℕ) → x < 2 → y < 2 → (differ (differ x y) y ≡ x) × (differ (differ x y) x ≡ y)
differ_cancel zero zero p q = (refl, refl)
differ_cancel zero (suc zero) p q = (refl, refl)
differ_cancel (suc zero) zero p q = (refl, refl)
differ_cancel (suc zero) (suc zero) p q = (refl, refl)
differ_cancel zero (suc (suc y)) p q = absurd (omega arith)
differ_cancel (suc zero) (suc (suc y)) p q = absurd (omega arith)
differ_cancel (suc (suc x)) y p q = absurd (omega arith)

differ-zero : (x : ℕ) → differ x 0 ≡ x
differ-zero zero = refl
differ-zero (suc x) = refl

differ_self : (x : ℕ) → x < 2 → differ x x ≡ 0
differ_self zero p = refl
differ_self (suc zero) p = refl
differ_self (suc (suc x)) p = absurd (omega arith)

xor_halves :
    (a b : ℕ)
    → (bit_xor a b / 2 ≡ bit_xor (a / 2) (b / 2)) × (bit_xor a b % 2 ≡ differ (a % 2) (b % 2))
xor_halves a b =
    let small = differ-lt-two (a % 2) (b % 2) (omega arith) (omega arith) in
    (omega (arith, bit_xor_step a b), omega (arith, bit_xor_step a b))

abbrev Cancels : ℕ → Type 0
Cancels a = (b : ℕ) → (bit_xor (bit_xor a b) b ≡ a) × (bit_xor (bit_xor a b) a ≡ b)

xor_cancel_zero : (b : ℕ) → bit_xor b b ≡ 0
xor_cancel_zero b = induction lt_wf {C = λ n. bit_xor n n ≡ 0} b step
  where
    step : (n : ℕ) → ((m : ℕ) → m < n → bit_xor m m ≡ 0) → bit_xor n n ≡ 0
    step zero ih = zero-bit_xor 0
    step (suc n) ih = omega (
      arith,
      bit_xor_step (suc n) (suc n),
      ih (suc n / 2) (omega arith),
      differ_self (suc n % 2) (omega arith),
    )

bit_xor-zero : (a : ℕ) → bit_xor a 0 ≡ a
bit_xor-zero a = induction lt_wf {C = λ n. bit_xor n 0 ≡ n} a step
  where
    step : (n : ℕ) → ((m : ℕ) → m < n → bit_xor m 0 ≡ m) → bit_xor n 0 ≡ n
    step zero ih = zero-bit_xor 0
    step (suc n) ih =
        omega (arith, bit_xor_step (suc n) 0, ih (suc n / 2) (omega arith), differ-zero (suc n % 2))

xor_cancel_step : (a : ℕ) → ((m : ℕ) → m < a → Cancels m) → Cancels a
xor_cancel_step zero ih b = (rw zero-bit_xor (xor_cancel_zero b), rw zero-bit_xor (bit_xor-zero b))
xor_cancel_step (suc a) ih b =
    let half = ih (suc a / 2) (omega arith) (b / 2) in
    let low = differ_cancel (suc a % 2) (b % 2) (omega arith) (omega arith) in
    let parts = xor_halves (suc a) b in
    (
      rw (bit_xor_step (bit_xor (suc a) b) b, parts.0, parts.1, half.0, low.0) (omega arith),
      rw (bit_xor_step (bit_xor (suc a) b) (suc a), parts.0, parts.1, half.1, low.1) (omega arith),
    )

-- Each argument comes back from the combination and the other one.
pub xor_cancel : (a b : ℕ) → (bit_xor (bit_xor a b) b ≡ a) × (bit_xor (bit_xor a b) a ≡ b)
xor_cancel a = induction lt_wf {C = Cancels} a xor_cancel_step

pub xor_self : (a : ℕ) → bit_xor a a ≡ 0
xor_self a = xor_cancel_zero a

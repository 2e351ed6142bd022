-- ===== src/CasQueue/Rounding.antt =====
-- `ceil_power_of_two` and `roundup_power_of_two` of common/cas_queue.hpp, for all numbers.
use Prim.Native.Nat.{max}
use armory.Common.{
  ℕ, zero, suc, ◌+◌, ◌-◌, ◌*◌, ◌/◌, ◌%◌, ◌^◌, ◌≤◌, ◌<◌, ◌≡◌, refl, sym, ap, ◌∙◌, false, arith,
  sub32, sub32_small, bit_or, bit_or_step, bit_and, bit_and_step, u32_mod, ◌==◌,
}
use native.Mathlib.Nat.{mod-lt, div-add-mod, div-div-eq-div-mul, div-le_self}
use native.Mathlib.Decide.{dec_lt}
use armory.CasQueue.Indices.{IsSize, size_for-power}
use armory.CasQueue.{power_of_two, ceil_power_of_two, roundup_power_of_two, size_for}

pow_pos : (k : ℕ) → 0 < 2 ^ k
pow_pos zero = omega arith
pow_pos (suc k) = omega (arith, pow_pos k)

-- The digits of an `or`.
or-bounds :
    (a b : ℕ)
    → (bit_or (a / 2) (b / 2) * 2 ≤ bit_or a b) × (bit_or a b ≤ bit_or (a / 2) (b / 2) * 2 + 1)
or-bounds a b = (omega (arith, bit_or_step a b), omega (arith, bit_or_step a b))

-- All ones stay.
or-full : (n b : ℕ) → b < 2 ^ n → bit_or (2 ^ n - 1) b ≡ 2 ^ n - 1
or-full zero b h = let e : b ≡ 0 = omega arith in rw e
or-full (suc n) b h =
    let half : (2 ^ suc n - 1) / 2 ≡ 2 ^ n - 1 = omega (arith, pow_pos n) in
    let low : (2 ^ suc n - 1) % 2 ≡ 1 = omega (arith, pow_pos n) in
    let digit : max ((2 ^ suc n - 1) % 2) (b % 2) ≡ 1 = omega (arith, low) in
    let rest = or-full n (b / 2) (omega arith) in
    let step =
      bit_or_step (2 ^ suc n - 1) b
      ∙ ap (λ a. bit_or a (b / 2) * 2 + max ((2 ^ suc n - 1) % 2) (b % 2)) half in
    omega (arith, step, digit, rest, pow_pos n)

-- Halving commutes with a division.
half-div : (m t : ℕ) → m / 2 / t ≡ m / t / 2
half-div m t =
    div-div-eq-div-mul m 2 t ∙ ap (λ n. m / n) (omega arith) ∙ sym (div-div-eq-div-mul m t 2)

pow_add : (a t : ℕ) → 2 ^ (a + t) ≡ 2 ^ t * 2 ^ a
pow_add zero t = let e : zero + t ≡ t = omega arith in rw e (omega arith)
pow_add (suc a) t =
    let e : suc a + t ≡ suc (a + t) = omega arith in rw e (grind (arith, pow_add a t))

mul_le : (n a b : ℕ) → a ≤ b → n * a ≤ n * b
mul_le n a b h = grind arith

mul_far : (n a b : ℕ) → a + 2 ≤ b → n * a + 2 * n ≤ n * b
mul_far n a b h =
    let e : n * (a + 2) ≡ n * a + 2 * n = grind arith in omega (arith, e, mul_le n (a + 2) b h)

pow_le : (k n : ℕ) → k ≤ n → 2 ^ k ≤ 2 ^ n
pow_le k zero h = let e : k ≡ 0 = omega arith in rw e (omega arith)
pow_le zero (suc n) h = pow_pos (suc n)
pow_le (suc k) (suc n) h = omega (arith, pow_le k n (omega arith))

-- The quotient of a number whose upper digits are ones.
top-quotient : (p t m : ℕ) → 0 < p → p ≤ t → t * p ≤ m + p → m < t * p → m / t ≡ p - 1
top-quotient p t m pos small low high =
    let parts = div-add-mod m t in
    let left = mod-lt m {m = t} (omega arith) in
    elim (dec_lt (m / t) p) [
      | yes less ↦ elim (dec_lt (m / t + 1) p) [
        | yes far ↦ absurd (omega (arith, parts, left, mul_far t (m / t) p (omega arith)))
        | no near ↦ omega arith
      ]
      | no more ↦ absurd (omega (arith, parts, mul_le t p (m / t) (omega arith)))
    ]

-- One round: the upper digits, `t` of them ones, are twice as many ones after it.
smear :
    (t a m : ℕ)
    → 2 ^ (a + t) ≤ m + 2 ^ a
    → m < 2 ^ (a + t)
    → (2 ^ (a + t) ≤ bit_or m (m / 2 ^ t) + 2 ^ (a - t)) × (bit_or m (m / 2 ^ t) < 2 ^ (a + t))
smear t zero m low high =
    let e : zero + t ≡ t = omega arith in
    let e' : 0 - t ≡ 0 = omega arith in
    let ones : m ≡ 2 ^ t - 1 = omega (arith, ap (λ k. 2 ^ k) e) in
    let below : m / 2 ^ t < 2 ^ t = omega (arith, div-le_self m (2 ^ t), ones, pow_pos t) in
    let full = ap (λ k. bit_or k (m / 2 ^ t)) ones ∙ or-full t (m / 2 ^ t) below in
    rw (e, e') (omega (arith, full, pow_pos t), omega (arith, full, pow_pos t))
smear t (suc a) m low high =
    let e : suc a + t ≡ suc (a + t) = omega arith in
    let double : 2 ^ (suc a + t) ≡ 2 ^ (a + t) * 2 = rw e (omega arith) in
    let ih = smear t a (m / 2) (omega (arith, double, low)) (omega (arith, double, high)) in
    let bounds = or-bounds m (m / 2 ^ t) in
    let half = ap (λ k. bit_or (m / 2) k) (half-div m (2 ^ t)) in
    elim (dec_lt a t) [
      | yes less ↦
          let gone : suc a - t ≡ 0 = omega arith in
          let gone' : a - t ≡ 0 = omega arith in
          let sum = pow_add (suc a) t in
          let quotient =
            top-quotient (2 ^ suc a) (2 ^ t) m (pow_pos (suc a)) (pow_le (suc a) t less)
              (omega (arith, low, sum)) (omega (arith, high, sum)) in
          let odd : m / 2 ^ t % 2 ≡ 1 = omega (arith, quotient, pow_pos a) in
          let digit : max (m % 2) (m / 2 ^ t % 2) ≡ 1 = omega (arith, odd) in
          let low' : 2 ^ (a + t) ≤ bit_or (m / 2) (m / 2 / 2 ^ t) + 1 =
            omega (arith, ih.0, ap (λ k. 2 ^ k) gone') in
          rw gone (
            omega (arith, double, bit_or_step m (m / 2 ^ t), digit, half, low'),
            omega (arith, double, bounds.1, half, ih.1),
          )
      | no more ↦
          let kept : suc a - t ≡ suc (a - t) = omega arith in
          rw kept (
            omega (arith, double, bounds.0, half, ih.0),
            omega (arith, double, bounds.1, half, ih.1),
          )
    ]

-- A number of `n` digits, of which the upper `t` are ones, or all.
abbrev Ones : ℕ → ℕ → ℕ → Type 0
Ones n t m = (m < 2 ^ n) × (2 ^ n ≤ m + 2 ^ (n - t))

Ones-or : (n t u m : ℕ) → t + t ≡ u → Ones n t m → Ones n u (bit_or m (m / 2 ^ t))
Ones-or n t u m d ones = elim (dec_lt t n) [
  | yes less ↦
      let e : n - t + t ≡ n = omega arith in
      let e' : n - t - t ≡ n - u = omega arith in
      let round =
        smear t (n - t) m (omega (arith, ones.1, ap (λ k. 2 ^ k) e))
          (omega (arith, ones.0, ap (λ k. 2 ^ k) e)) in
      (
        omega (arith, round.1, ap (λ k. 2 ^ k) e),
        omega (arith, round.0, ap (λ k. 2 ^ k) e, ap (λ k. 2 ^ k) e'),
      )
  | no more ↦
      let e : n - t ≡ 0 = omega arith in
      let all : m ≡ 2 ^ n - 1 = omega (arith, ones.0, ones.1, ap (λ k. 2 ^ k) e) in
      let below : m / 2 ^ t < 2 ^ n = omega (arith, div-le_self m (2 ^ t), ones.0) in
      let full = ap (λ k. bit_or k (m / 2 ^ t)) all ∙ or-full n (m / 2 ^ t) below in
      (omega (arith, full, pow_pos n), omega (arith, full, pow_pos n, pow_pos (n - u)))
]

-- `ceil_power_of_two` gives the highest power of two that is not above the number.
pub ceil_power_of_two-top :
    (j m : ℕ) → j < 32 → 2 ^ j ≤ m → m < 2 ^ suc j → ceil_power_of_two m ≡ 2 ^ j
unfolding ceil_power_of_two
ceil_power_of_two-top j m h low high =
    let n = suc j in
    let m1 = bit_or m (m / 2) in
    let m2 = bit_or m1 (m1 / 2 ^ 2) in
    let m3 = bit_or m2 (m2 / 2 ^ 4) in
    let m4 = bit_or m3 (m3 / 2 ^ 8) in
    let m5 = bit_or m4 (m4 / 2 ^ 16) in
    let before : suc j - 1 ≡ j = omega arith in
    let o1 : Ones n 2 m1 =
      Ones-or n 1 2 m refl (high, omega (arith, low, ap (λ k. 2 ^ k) before)) in
    let o2 : Ones n 4 m2 = Ones-or n 2 4 m1 refl o1 in
    let o3 : Ones n 8 m3 = Ones-or n 4 8 m2 refl o2 in
    let o4 : Ones n 16 m4 = Ones-or n 8 16 m3 refl o3 in
    let o5 : Ones n 32 m5 = Ones-or n 16 32 m4 refl o4 in
    let e : n - 32 ≡ 0 = omega arith in
    let all : m5 ≡ 2 ^ suc j - 1 = omega (arith, o5.0, o5.1, ap (λ k. 2 ^ k) e) in
    let wide = pow_le j 31 (omega arith) in
    sub32_small m5 (m5 / 2) (omega arith) (omega (arith, all, wide)) ∙ omega (arith, all, pow_pos j)

-- Two numbers with the same highest digit share it.
and-top : (j a b : ℕ) → 2 ^ j ≤ a → a < 2 ^ suc j → 2 ^ j ≤ b → b < 2 ^ suc j → 2 ^ j ≤ bit_and a b
and-top zero a b la ha lb hb =
    let e : a ≡ 1 = omega arith in let e' : b ≡ 1 = omega arith in rw (e, e') (omega arith)
and-top (suc j) a b la ha lb hb =
    let half = and-top j (a / 2) (b / 2) (omega arith) (omega arith) (omega arith) (omega arith) in
    omega (arith, half, bit_and_step a b)

-- A size that is no power of two is rounded up to the next one, if it is not above 2 ^ 31.
pub size_for-next :
    (j size : ℕ) → suc j < 32 → 2 ^ j < size → size < 2 ^ suc j → size_for size ≡ 2 ^ suc j
unfolding size_for power_of_two roundup_power_of_two
size_for-next j size h low high =
    let wide = pow_le (suc j) 31 (omega arith) in
    let some' = pow_pos j in
    let not_one : (size == 1) ≡ false = ground (arith, low, some') in
    let not_zero : (size == 0) ≡ false = ground (arith, low) in
    let less : sub32 size 1 ≡ size - 1 =
      sub32_small size 1 (omega (arith, low)) (omega (arith, high, wide)) in
    let shared =
      and-top j size (size - 1) (omega (arith, low)) high (omega (arith, low))
        (omega (arith, high)) in
    let no_power : (bit_and size (size - 1) == 0) ≡ false = ground (arith, shared, some') in
    let twice : (size - 1) * 2 % u32_mod ≡ (size - 1) * 2 = omega (arith, high, wide) in
    let top =
      ceil_power_of_two-top (suc j) ((size - 1) * 2) h (omega (arith, low)) (omega (arith, high)) in
    rw (not_one, not_zero, less, no_power, twice) top

-- The highest digit of a number.
digits_of : (fuel n : ℕ) → n < fuel → 0 < n → (j : ℕ) × (2 ^ j ≤ n) × (n < 2 ^ suc j)
digits_of zero n f h = absurd (omega arith)
digits_of (suc fuel) n f h = elim (dec_lt n 2) [
  | yes one ↦ (0, omega arith, omega arith)
  | no more ↦
      let (j, low, high) = digits_of fuel (n / 2) (omega arith) (omega arith) in
      (suc j, omega (arith, low), omega (arith, high))
]

few_digits : (j n : ℕ) → 2 ^ j ≤ n → n ≤ 2 ^ 31 → j < 32
few_digits j n low h = elim (dec_lt j 32) [
  | yes less ↦ less
  | no more ↦ absurd (omega (arith, low, h, pow_le 32 j (omega arith)))
]

size_for-one : size_for 1 ≡ 2
unfolding size_for
size_for-one = refl

-- What the constructor makes of the size.
abbrev Rounded : ℕ → Type 0
Rounded size = IsSize (size_for size) × (size ≤ size_for size) × (size_for size ≤ 2 * size)

Rounded-of :
    (size k : ℕ)
    → 0 < k
    → k < 32
    → size_for size ≡ 2 ^ k
    → size ≤ 2 ^ k
    → 2 ^ k ≤ 2 * size
    → Rounded size
Rounded-of size k h l e low high = (
  record { exponent = k; some_bits = h; few_bits = l; power = e },
  omega (arith, e, low),
  omega (arith, e, high),
)

Rounded-power : (j size : ℕ) → j < 32 → size ≡ 2 ^ j → Rounded size
Rounded-power zero size l e =
    Rounded-of size 1 (omega arith) (omega arith) (ap size_for e ∙ size_for-one) (omega (arith, e))
      (omega (arith, e))
Rounded-power (suc j) size l e =
    Rounded-of size (suc j) (omega arith) l (ap size_for e ∙ size_for-power (suc j) (omega arith) l)
      (omega (arith, e)) (omega (arith, e))

-- For every size from 1 to 2 ^ 31 the constructor sets a power of two, from 2 on, that is not below the
-- size and at most twice as large.
pub size_for-IsSize :
    (size : ℕ)
    → 0 < size
    → size ≤ 2 ^ 31
    → IsSize (size_for size) × (size ≤ size_for size) × (size_for size ≤ 2 * size)
size_for-IsSize size h l =
    let (j, low, high) = digits_of (suc size) size (omega arith) h in
    let few = few_digits j size low l in
    elim (dec_lt (2 ^ j) size) [
      | no more ↦ Rounded-power j size few (omega (arith, low))
      | yes less ↦ elim (dec_lt (suc j) 32) [
        | yes room ↦
            Rounded-of size (suc j) (omega arith) room (size_for-next j size room less high)
              (omega (arith, high)) (omega (arith, less))
        | no none' ↦
            let last : j ≡ 31 = omega arith in absurd (omega (arith, less, l, ap (λ k. 2 ^ k) last))
      ]
    ]

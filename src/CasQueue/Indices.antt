-- ===== src/CasQueue/Indices.antt =====
-- The sizes and the masked indices of common/cas_queue.hpp.
use armory.Common.{
  ℕ, zero, suc, ◌+◌, ◌-◌, ◌*◌, ◌/◌, ◌%◌, ◌^◌, ◌≤◌, ◌<◌, ◌≡◌, ◌≢◌, sym, ap, ◌∙◌, false, arith, sub32,
  sub32_small, bit_and, bit_and-mask, ◌==◌,
}
use native.Mathlib.Nat.{mod-lt, mod_self, add-mod_right, div-add-mod}
use native.Mathlib.Decide.{dec_lt}
use armory.CasQueue.{power_of_two, size_for, index_of_queue}

-- A size that the constructor can set and that is of use.
pub record IsSize (size : ℕ) : Type 0 where
  pub exponent : ℕ
  pub some_bits : 0 < exponent
  pub few_bits : exponent < 32
  pub power : size ≡ 2 ^ exponent

pow_pos : (k : ℕ) → 0 < 2 ^ k
pow_pos zero = omega arith
pow_pos (suc k) = omega (arith, pow_pos k)

pow_le : (k n : ℕ) → k ≤ n → 2 ^ k ≤ 2 ^ n
pow_le k zero h = let e : k ≡ 0 = omega arith in rw e (omega arith)
pow_le zero (suc n) h = pow_pos (suc n)
pow_le (suc k) (suc n) h = omega (arith, pow_le k n (omega arith))

pub IsSize-bounds : (size : ℕ) → IsSize size → (2 ≤ size) × (size ≤ 2 ^ 31)
IsSize-bounds size d =
    let low = pow_le 1 d.exponent d.some_bits in
    let e = d.power in
    let few = d.few_bits in
    let high = pow_le d.exponent 31 (omega (arith, few)) in
    (omega (arith, low, e), omega (arith, high, e))

pub index_of_queue-mod : (size i : ℕ) → IsSize size → index_of_queue size i ≡ i % size
unfolding index_of_queue
index_of_queue-mod size i d =
    let bounds = IsSize-bounds size d in
    let less : sub32 size 1 ≡ 2 ^ d.exponent - 1 =
      sub32_small size 1 (omega (arith, bounds.0)) (omega (arith, bounds.1))
      ∙ ap (λ n. n - 1) d.power in
    rw less (bit_and-mask d.exponent i ∙ ap (λ n. i % n) (sym d.power))

mul_le : (n a b : ℕ) → a ≤ b → n * a ≤ n * b
mul_le n a b h = grind arith

mul_next : (n a b : ℕ) → a < b → n * a + n ≤ n * b
mul_next n a b h = grind arith

mod-apart : (size i j : ℕ) → i < j → j < i + size → i % size ≢ j % size
mod-apart size i j h k e =
    let a = div-add-mod i size in
    let b = div-add-mod j size in
    elim (dec_lt (i / size) (j / size)) [
      | yes less ↦ let far = mul_next size (i / size) (j / size) less in omega (arith, a, b, e, far)
      | no more ↦
          let near = mul_le size (j / size) (i / size) (omega arith) in omega (arith, a, b, e, near)
    ]

-- An index stays inside the array.
pub index_of_queue-lt : (size i : ℕ) → IsSize size → index_of_queue size i < size
index_of_queue-lt size i d =
    let bounds = IsSize-bounds size d in
    rw (index_of_queue-mod size i d) (mod-lt i (omega (arith, bounds.0)))

-- Two indices less than the size apart stand for different places, and one a size further for
-- the same.
pub index_of_queue-apart :
    (size i j : ℕ)
    → IsSize size
    → i < j
    → j < i + size
    → index_of_queue size i ≢ index_of_queue size j
index_of_queue-apart size i j d h k e =
    mod-apart size i j h k (sym (index_of_queue-mod size i d) ∙ e ∙ index_of_queue-mod size j d)

pub index_of_queue-round :
    (size i : ℕ) → IsSize size → index_of_queue size (i + size) ≡ index_of_queue size i
index_of_queue-round size i d =
    index_of_queue-mod size (i + size) d ∙ add-mod_right i size ∙ sym (index_of_queue-mod size i d)

-- A power of two is kept as the size.
pub size_for-power : (k : ℕ) → 0 < k → k < 32 → size_for (2 ^ k) ≡ 2 ^ k
unfolding size_for power_of_two
size_for-power k h l =
    let low = pow_le 1 k h in
    let high = pow_le k 31 (omega arith) in
    let less : sub32 (2 ^ k) 1 ≡ 2 ^ k - 1 =
      sub32_small (2 ^ k) 1 (omega (arith, low)) (omega (arith, high)) in
    let masked : bit_and (2 ^ k) (sub32 (2 ^ k) 1) ≡ 0 =
      rw less (bit_and-mask k (2 ^ k) ∙ mod_self (2 ^ k)) in
    let not_one : (2 ^ k == 1) ≡ false = ground (arith, low) in
    let not_zero : (2 ^ k == 0) ≡ false = ground (arith, low) in rw (not_one, not_zero, masked)

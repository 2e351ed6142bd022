-- ===== src/ClassicSort/Quick/Partition.antt =====
-- The partition of `quick_recursion`: the entry at the start was read into `basis`, a hole moves
-- between the two ends, and in the end small entries stand below it and large ones above.
use armory.Common.{
  ℕ, ◌+◌, ◌-◌, ◌≤◌, ◌<◌, ◌≡◌, ap, ◌∙◌, List, arith, length, set, length-set, at, at-set, hit, count,
  count-set, rank,
}

-- The ranks between the indices `s` and `e`, `e` left out, lie between `lo` and `hi`.
abbrev pub Within : List ℕ → ℕ → ℕ → ℕ → ℕ → Type 0
Within a s e lo hi = (k : ℕ) → s ≤ k → k < e → (lo ≤ rank (at a k)) × (rank (at a k) ≤ hi)

-- What does not change while the range from `s` to `e` is worked on.
pub record Local (a0 : List ℕ) (s e : ℕ) (a : List ℕ) : Type 0 where
  pub same_length : length a ≡ length a0
  pub under : (k : ℕ) → k < s → at a k ≡ at a0 k
  pub over : (k : ℕ) → e ≤ k → at a k ≡ at a0 k
  pub bounds : (lo hi : ℕ) → Within a0 s e lo hi → Within a s e lo hi

-- The hole is at `h`; the entries below `i` are at most `basis`, those above `j` at least.
pub record PartInv (a0 : List ℕ) (s e basis : ℕ) (a : List ℕ) (i j h : ℕ) : Type 0 where
  pub frame : Local a0 s e a
  pub inside : e ≤ length a
  pub low : s ≤ i
  pub meet : i ≤ j
  pub high : j < e
  pub items : (v : ℕ) → count v a + hit v basis ≡ count v a0 + hit v (at a h)
  pub left : (k : ℕ) → s ≤ k → k < i → rank (at a k) ≤ rank basis
  pub right : (k : ℕ) → j < k → k < e → rank basis ≤ rank (at a k)

-- A copy inside the range keeps the frame.
Local-set :
    (a0 : List ℕ) (s e : ℕ) (a : List ℕ) (i j : ℕ)
    → Local a0 s e a
    → e ≤ length a
    → s ≤ i
    → i < e
    → s ≤ j
    → j < e
    → Local a0 s e (set a i (at a j))
Local-set a0 s e a i j f le si ie sj je =
    let at_b = λ (k : ℕ). at-set a i k (at a j) (omega arith) in
    record {
      same_length = length-set a i (at a j) ∙ f.same_length;
      under = λ k p. ground (arith, at_b k, f.under k);
      over = λ k p. ground (arith, at_b k, f.over k);
      bounds =
          λ lo hi w k p q. ground (arith, at_b k, f.bounds lo hi w k p q, f.bounds lo hi w j sj je);
    }

module _ (a0 : List ℕ) (s e basis : ℕ) (a : List ℕ) (i j : ℕ) (lt : i < j) where
  -- `array[i] = array[j]; i++` with the hole at `i`.
  pub PartInv-left :
      PartInv a0 s e basis a i j i
      → rank (at a j) ≤ rank basis
      → PartInv a0 s e basis (set a i (at a j)) (i + 1) j j
  PartInv-left v small =
      let hi : i < length a = omega (arith, v.inside, v.high) in
      let at_b = λ (k : ℕ). at-set a i k (at a j) hi in
      let size : length (set a i (at a j)) ≡ length a = length-set a i (at a j) in
      let kept : at (set a i (at a j)) j ≡ at a j = ground (arith, at_b j) in
      record {
        frame =
            Local-set a0 s e a i j v.frame v.inside v.low (omega (arith, v.high))
              (omega (arith, v.low)) v.high;
        inside = omega (arith, v.inside, size);
        low = omega (arith, v.low);
        meet = omega arith;
        high = v.high;
        items = λ x. omega (arith, count-set x a i (at a j) hi, v.items x, ap (hit x) kept);
        left = λ k p q. ground (arith, at_b k, v.left k, small);
        right = λ k p q. ground (arith, at_b k, v.right k);
      }

  -- `array[j] = array[i]; j--` with the hole at `j`.
  pub PartInv-right :
      PartInv a0 s e basis a i j j
      → rank basis ≤ rank (at a i)
      → PartInv a0 s e basis (set a j (at a i)) i (j - 1) i
  PartInv-right v large =
      let hj : j < length a = omega (arith, v.inside, v.high) in
      let at_b = λ (k : ℕ). at-set a j k (at a i) hj in
      let size : length (set a j (at a i)) ≡ length a = length-set a j (at a i) in
      let kept : at (set a j (at a i)) i ≡ at a i = ground (arith, at_b i) in
      record {
        frame =
            Local-set a0 s e a j i v.frame v.inside (omega (arith, v.low)) v.high v.low
              (omega (arith, v.high));
        inside = omega (arith, v.inside, size);
        low = v.low;
        meet = omega arith;
        high = omega (arith, v.high);
        items = λ x. omega (arith, count-set x a j (at a i) hj, v.items x, ap (hit x) kept);
        left = λ k p q. ground (arith, at_b k, v.left k);
        right = λ k p q. ground (arith, at_b k, v.right k, large);
      }

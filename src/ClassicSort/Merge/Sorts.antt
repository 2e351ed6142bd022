-- ===== src/ClassicSort/Merge/Sorts.antt =====
-- `merge_sort` returns, stays inside the array and its buffer, and sorts the array.
use armory.Common.{
  ℕ, zero, suc, ◌+◌, ◌-◌, ◌/◌, ◌≤◌, ◌<◌, ◌≡◌, refl, ap, ◌∙◌, inl, inr, List, arith, length,
  length-set, at, at-set, count, count_window, count_window-eq, true, false, ok, Returns, returns,
  Returns-bind, Returns-if, Returns-map, leb, ◌==◌, leb→le, leb-false→lt, u32_mod, add32_small,
  sub32_small, Bool-cases, ==_iff,
}
use armory.ClassicSort.Memory.{load-ok, store-ok}
use armory.ClassicSort.Spec.{IsSortOf, IsOrdered, SameItems}
use armory.ClassicSort.Merge.{memcpy, merger, merge_recursion, zeros, merge_sort}
use armory.ClassicSort.Merge.Step.{Parts, MergeInv}
use armory.ClassicSort.Merge.Loop.{merge_loop-done}

-- The first `n` entries of `dst` are those of `src` from `off` on.
record Copied (dst src : List ℕ) (off n : ℕ) (r : List ℕ) : Type 0 where
  same_length : length r ≡ length dst
  copied : (t : ℕ) → t < n → at r t ≡ at src (off + t)

memcpy-Copied :
    (dst src : List ℕ) (off n : ℕ)
    → n ≤ length dst
    → off + n ≤ length src
    → Returns (Copied dst src off n) (memcpy dst src off n)
unfolding memcpy
memcpy-Copied dst src off zero p q =
    returns (record { same_length = refl; copied = λ t lt. absurd (omega arith) })
memcpy-Copied dst src off (suc n) p q =
    Returns-bind (memcpy-Copied dst src off n (omega arith) (omega arith)) λ d c.
      let hn : n < length d = omega (arith, c.same_length) in
      let x = at src (off + n) in
      rw (load-ok src (off + n) (omega arith), store-ok d n x hn)
        (returns (record {
          same_length = length-set d n x ∙ c.same_length;
          copied = λ t lt. ground (arith, at-set d n t x hn, c.copied t);
        }))

-- The range from `lo` to `hi` is in order, and all else is as it was.
record Sorted (a0 buf0 : List ℕ) (lo hi : ℕ) (r : List ℕ × List ℕ) : Type 0 where
  same_length : length r.0 ≡ length a0
  same_buffer : length r.1 ≡ length buf0
  items : SameItems r.0 a0
  under : (p : ℕ) → p < lo → at r.0 p ≡ at a0 p
  over : (p : ℕ) → hi ≤ p → at r.0 p ≡ at a0 p
  ordered : IsOrdered r.0 lo hi

MergeInv-start :
    (a buf0 buf : List ℕ) (lo l mi r hi : ℕ)
    → Parts a buf lo l mi r hi
    → Copied buf0 a lo l buf
    → MergeInv a buf lo l mi r hi a 0 0
MergeInv-start a buf0 buf lo l mi r hi s c = record {
  same_length = refl;
  left_bound = omega arith;
  right_bound = omega arith;
  under = λ p q. refl;
  rest = λ p q. refl;
  sorted = λ p q b d e. absurd (omega arith);
  below_left = λ p t b d e f. absurd (omega arith);
  below_right = λ p t b d e f. absurd (omega arith);
  items = λ v.
      ap (λ n. count v a + n)
        (count_window-eq v buf a 0 (lo + (0 + 0)) (l - 0) (λ t q. ground (arith, c.copied t)));
}

-- With the left part spent, the right one already stands where it belongs.
MergeInv-finish :
    (a0 buf0 buf : List ℕ) (lo l mi r hi : ℕ) (a : List ℕ) (k : ℕ)
    → Parts a0 buf lo l mi r hi
    → length buf ≡ length buf0
    → MergeInv a0 buf lo l mi r hi a l k
    → Sorted a0 buf0 lo hi (a, buf)
unfolding count_window
MergeInv-finish a0 buf0 buf lo l mi r hi a k s e v = record {
  same_length = v.same_length;
  same_buffer = e;
  items = λ x. let none : l - l ≡ 0 = omega arith in omega (arith, rw none at (v.items x));
  under = v.under;
  over = λ p q. v.rest p (omega (arith, s.stop, v.right_bound));
  ordered = λ p q b c d.
      ground
        (arith, v.sorted p q, v.below_right p q, v.rest p, v.rest q, s.right_sorted p q, s.mid);
}

merger-Sorted :
    (a buf : List ℕ) (lo mi hi : ℕ)
    → lo ≤ mi
    → mi ≤ hi
    → hi ≤ length a
    → mi - lo < length buf
    → length a < u32_mod
    → IsOrdered a lo mi
    → IsOrdered a mi hi
    → Returns (Sorted a buf lo hi) (merger a buf lo mi hi)
unfolding merger
merger-Sorted a buf lo mi hi p q inside room small left right =
    let l = mi - lo in
    let r = hi - mi in
    rw
      (
        sub32_small mi lo p (omega arith),
        sub32_small hi mi q (omega arith),
        sub32_small hi lo (omega arith) (omega arith),
      )
      (Returns-bind (memcpy-Copied buf a lo l (omega arith) (omega arith)) λ filled c.
        let parts : Parts a filled lo l mi r hi = record {
          mid = omega arith;
          stop = omega arith;
          inside = inside;
          room = omega (arith, c.same_length);
          small = small;
          left_sorted = λ x y lt lt'.
              rw (c.copied x (omega arith), c.copied y lt')
                (left (lo + x) (lo + y) (omega arith) (omega arith) (omega arith));
          right_sorted = right;
        } in
        Returns-bind
          (merge_loop-done a filled lo l mi r hi parts (hi - lo + 1) a 0 0 (omega arith)
            (MergeInv-start a buf filled lo l mi r hi parts c))
          λ b (k, v). returns (MergeInv-finish a buf filled lo l mi r hi b k parts c.same_length v))

merge_recursion-Sorted :
    (fuel : ℕ) (a buf : List ℕ) (lo hi : ℕ)
    → hi - lo < fuel
    → lo ≤ hi
    → hi ≤ length a
    → length a ≤ length buf
    → length a + length a ≤ u32_mod
    → Returns (Sorted a buf lo hi) (merge_recursion fuel a buf lo hi)
unfolding merge_recursion
merge_recursion-Sorted zero a buf lo hi f le inside room small = absurd (omega arith)
merge_recursion-Sorted (suc fuel) a buf lo hi f le inside room small =
    rw (sub32_small hi lo le (omega arith)) (
      Returns-if (leb (hi - lo) 1)
        (λ short. returns (record {
          same_length = refl;
          same_buffer = refl;
          items = λ v. refl;
          under = λ p q. refl;
          over = λ p q. refl;
          ordered = λ p q b c d. absurd (omega (arith, leb→le (hi - lo) 1 short));
        }))
        (λ long.
          let lt = leb-false→lt (hi - lo) 1 long in
          let mi = (lo + hi) / 2 in
          rw (add32_small lo hi (omega arith)) (
            Returns-bind
              (merge_recursion-Sorted fuel a buf lo mi (omega arith) (omega arith) (omega arith)
                room small)
              λ (b, buf1) x.
                Returns-bind
                  (merge_recursion-Sorted fuel b buf1 mi hi (omega arith) (omega arith)
                    (omega (arith, x.same_length)) (omega (arith, x.same_length, x.same_buffer))
                    (omega (arith, x.same_length)))
                  λ (c, buf2) y.
                    Returns-map
                      (merger-Sorted c buf2 lo mi hi (omega arith) (omega arith)
                        (omega (arith, x.same_length, y.same_length))
                        (omega (arith, x.same_buffer, y.same_buffer))
                        (omega (arith, x.same_length, y.same_length))
                        (λ p q d e g.
                          rw (y.under p (omega arith), y.under q g) (x.ordered p q d e g))
                        y.ordered)
                      λ t z. record {
                        same_length = z.same_length ∙ y.same_length ∙ x.same_length;
                        same_buffer = z.same_buffer ∙ y.same_buffer ∙ x.same_buffer;
                        items = λ v. z.items v ∙ y.items v ∙ x.items v;
                        under = λ p q. z.under p q ∙ y.under p (omega arith) ∙ x.under p q;
                        over = λ p q. z.over p q ∙ y.over p q ∙ x.over p (omega arith);
                        ordered = z.ordered;
                      })))

length-zeros : (n : ℕ) → length (zeros n) ≡ n
unfolding zeros
length-zeros zero = refl
length-zeros (suc n) = ap suc (length-zeros n)

-- For every array of at most 2 ^ 31 entries, `merge_sort` returns when `calloc` finds the memory,
-- makes no access outside the array and its buffer, and leaves the array in ascending order with
-- the same items.
pub merge_sort-IsSortOf :
    (a : List ℕ)
    → length a + length a ≤ u32_mod
    → Returns (IsSortOf a) (merge_sort true a (length a))
unfolding merge_sort
merge_sort-IsSortOf a small = elim (Bool-cases (length a == 0)) [
  | inl empty ↦
      let none = (==_iff (length a) 0).0 empty in
      rw empty (
        returns (record {
          same_length = refl;
          ordered = λ p q b c d. absurd (omega arith);
          items = λ v. refl;
        }))
  | inr some' ↦ rw some' (
      Returns-bind
        (merge_recursion-Sorted (length a + 1) a (zeros (length a)) 0 (length a) (omega arith)
          (omega arith) (omega arith) (omega (arith, length-zeros (length a))) small)
        λ (b, buf) s. returns (record {
          same_length = s.same_length;
          ordered = λ p q x y z. s.ordered p q x y (omega (arith, s.same_length));
          items = s.items;
        }))
]

-- Without memory for its buffer `merge_sort` returns with the array as it was.
pub merge_sort_no_memory : (a : List ℕ) (len : ℕ) → merge_sort false a len ≡ ok a
unfolding merge_sort
merge_sort_no_memory a len = ground arith

-- ===== src/ClassicSort/Quick/Sorts.antt =====
-- `quick_sort` returns, stays inside the array, and sorts it.
use armory.Common.{
  ℕ, zero, suc, ◌+◌, ◌-◌, ◌≤◌, ◌<◌, ◌≡◌, refl, ap, ◌∙◌, List, arith, length, set, length-set, at,
  at-set, count-set, ℤ, pos, negsuc, ok, Returns, returns, Returns-bind, Returns-map,
  Returns-unless, ltb, ltb→lt, ltb-false→le, rank, ltz, int_sub, int_limit, int_add-pos, to_int-pos,
  u32_mod,
}
use armory.ClassicSort.Memory.{load_int-ok, store_int-ok}
use armory.ClassicSort.Spec.{IsSortOf, IsOrdered, SameItems}
use armory.ClassicSort.Quick.{quick_recursion, quick_sort}
use armory.ClassicSort.Quick.Partition.{Within, Local, PartInv}
use armory.ClassicSort.Quick.Loops.{partition-done}

-- The value of `end` for a range whose first index behind it is `e`.
last_index : ℕ → ℤ
last_index zero = negsuc 0
last_index (suc n) = pos n

int_sub-last_index : (n : ℕ) → n < int_limit → int_sub (pos n) (pos 1) ≡ ok (last_index n)
unfolding int_sub last_index
int_sub-last_index zero h = refl
int_sub-last_index (suc n) h = ground arith

ltz-last_index : (s e : ℕ) → ltz (pos s) (last_index e) ≡ ltb (s + 1) e
unfolding ltz last_index
ltz-last_index s zero = ground arith
ltz-last_index s (suc n) = ground arith

-- The range from `s` to `e` of `r` holds the items of that of `a0` in order.
record RangeSorted (a0 : List ℕ) (s e : ℕ) (r : List ℕ) : Type 0 where
  frame : Local a0 s e r
  items : SameItems r a0
  ordered : IsOrdered r s e

rank-lt : (x : ℕ) → rank x < u32_mod
unfolding rank
rank-lt x = omega arith

-- After the partition: `basis` stands at `i`, with the small entries before and the large behind.
record Split (a0 : List ℕ) (s e i : ℕ) (c : List ℕ) : Type 0 where
  frame : Local a0 s e c
  items : SameItems c a0
  low : s ≤ i
  high : i < e
  left : Within c s i 0 (rank (at c i))
  right : Within c (i + 1) e (rank (at c i)) u32_mod

Split-of_PartInv :
    (a0 : List ℕ) (s e : ℕ) (b : List ℕ) (i : ℕ)
    → PartInv a0 s e (at a0 s) b i i i
    → Split a0 s e i (set b i (at a0 s))
Split-of_PartInv a0 s e b i v =
    let basis = at a0 s in
    let hi : i < length b = omega (arith, v.inside, v.high) in
    let at_c = λ (k : ℕ). at-set b i k basis hi in
    let mid : at (set b i basis) i ≡ basis = ground (arith, at_c i) in
    record {
      frame = record {
        same_length = length-set b i basis ∙ v.frame.same_length;
        under = λ k p. ground (arith, at_c k, v.frame.under k, v.low);
        over = λ k p. ground (arith, at_c k, v.frame.over k, v.high);
        bounds = λ lo hi' w k p q. ground (
          arith,
          at_c k,
          v.frame.bounds lo hi' w k p q,
          w s (omega arith) (omega (arith, v.low, v.high)),
        );
      };
      items = λ x. omega (arith, count-set x b i basis hi, v.items x);
      low = v.low;
      high = v.high;
      left = λ k p q. (omega arith, rw mid (ground (arith, at_c k, v.left k)));
      right = λ k p q. (
        rw mid (ground (arith, at_c k, v.right k)),
        omega (arith, rank-lt (at (set b i basis) k)),
      );
    }

module _ (a0 : List ℕ) (s e i : ℕ) (c d r : List ℕ) (v : Split a0 s e i c) (l : RangeSorted c s i d)
    (h : RangeSorted d (i + 1) e r) where
  below_split : (k : ℕ) → k < i + 1 → at r k ≡ at d k
  below_split k p = h.frame.under k p

  from_split : (k : ℕ) → i ≤ k → at d k ≡ at c k
  from_split k p = l.frame.over k p

  left_le : (k : ℕ) → s ≤ k → k < i → rank (at r k) ≤ rank (at c i)
  left_le k p q =
      let w = l.frame.bounds 0 (rank (at c i)) v.left k p q in
      rw (below_split k (omega arith)) (w.1)

  le_right : (k : ℕ) → i + 1 ≤ k → k < e → rank (at c i) ≤ rank (at r k)
  le_right k p q =
      let w : Within d (i + 1) e (rank (at c i)) u32_mod =
        λ m x y. rw (from_split m (omega arith)) (v.right m x y) in
      (h.frame.bounds (rank (at c i)) u32_mod w k p q).0

  split_fixed : at r i ≡ at c i
  split_fixed = below_split i (omega arith) ∙ from_split i (omega arith)

  join_bounds : (lo hi : ℕ) → Within a0 s e lo hi → Within r s e lo hi
  join_bounds lo hi w k p q =
      let wc = v.frame.bounds lo hi w in
      let wd : Within d s i lo hi =
        l.frame.bounds lo hi (λ m x y. wc m x (omega (arith, v.high))) in
      let wr : Within r (i + 1) e lo hi =
        h.frame.bounds lo hi
          (λ m x y. rw (from_split m (omega arith)) (wc m (omega (arith, v.low)) y)) in
      ground (arith, below_split k, split_fixed, wc i v.low v.high, wd k, wr k)

  -- The two recursive calls finish the work.
  RangeSorted-join : RangeSorted a0 s e r
  RangeSorted-join = record {
    frame = record {
      same_length = h.frame.same_length ∙ l.frame.same_length ∙ v.frame.same_length;
      under = λ k p. below_split k (omega (arith, v.low)) ∙ l.frame.under k p ∙ v.frame.under k p;
      over = λ k p. h.frame.over k p ∙ from_split k (omega (arith, v.high)) ∙ v.frame.over k p;
      bounds = join_bounds;
    };
    items = λ x. h.items x ∙ l.items x ∙ v.items x;
    ordered = λ p q a b b'. ground (
      arith,
      left_le p,
      le_right q,
      split_fixed,
      below_split p,
      below_split q,
      l.ordered p q,
      h.ordered p q,
    );
  }

RangeSorted-short : (a : List ℕ) (s e : ℕ) → e ≤ s + 1 → RangeSorted a s e a
RangeSorted-short a s e short = record {
  frame = record {
    same_length = refl;
    under = λ k p. refl;
    over = λ k p. refl;
    bounds = λ lo hi w. w;
  };
  items = λ x. refl;
  ordered = λ p q a' b c. absurd (omega arith);
}

PartInv-start : (a : List ℕ) (s e : ℕ) → s < e → e ≤ length a → PartInv a s e (at a s) a s (e - 1) s
PartInv-start a s e lt le = record {
  frame = record {
    same_length = refl;
    under = λ k p. refl;
    over = λ k p. refl;
    bounds = λ lo hi w. w;
  };
  inside = le;
  low = omega arith;
  meet = omega arith;
  high = omega arith;
  items = λ v. refl;
  left = λ k p q. absurd (omega arith);
  right = λ k p q. absurd (omega arith);
}

last_index-pos : (e : ℕ) → 0 < e → last_index e ≡ pos (e - 1)
unfolding last_index
last_index-pos zero h = absurd (omega arith)
last_index-pos (suc n) h = ap pos (omega arith)

quick_recursion-RangeSorted :
    (fuel : ℕ) (a : List ℕ) (s e : ℕ)
    → e - s < fuel
    → e ≤ length a
    → length a < int_limit
    → Returns (RangeSorted a s e) (quick_recursion fuel a (pos s) (last_index e))
unfolding quick_recursion
quick_recursion-RangeSorted zero a s e f le w = absurd (omega arith)
quick_recursion-RangeSorted (suc fuel) a s e f le w = rw (ltz-last_index s e) (
    Returns-unless (ltb (s + 1) e)
      (λ more.
        let lt = ltb→lt (s + 1) e more in
        let part =
          partition-done a s e (at a s) (omega arith) (suc fuel) a s (e - 1) (omega arith)
            (PartInv-start a s e (omega arith) le) in
        rw (load_int-ok a s (omega arith)) (
          Returns-bind (rw (← last_index-pos e (omega arith)) at part) (λ (b, r) (i, e', v).
            let c = set b i (at a s) in
            let hi : i < length b = omega (arith, v.inside, v.high) in
            let split = Split-of_PartInv a s e b i v in
            let size = split.frame.same_length in
            rw
              (
                e',
                store_int-ok b i (at a s) hi,
                int_sub-last_index i (omega (arith, v.high)),
                int_add-pos i 1 (omega (arith, v.high)),
              )
              (Returns-bind
                (quick_recursion-RangeSorted fuel c s i (omega (arith, v.high))
                  (omega (arith, v.high, size)) (omega (arith, size)))
                (λ d l.
                  let size' = l.frame.same_length in
                  Returns-map
                    (quick_recursion-RangeSorted fuel d (i + 1) e (omega (arith, v.low, v.high))
                      (omega (arith, size, size')) (omega (arith, size, size')))
                    (λ r h. RangeSorted-join a s e i c d r split l h))))))
      (λ stop. returns (RangeSorted-short a s e (ltb-false→le (s + 1) e stop))))

-- For every array whose length is less than 2 ^ 31, `quick_sort` returns, makes no access outside
-- the array and no overflow, and leaves it in ascending order with the same items.
pub quick_sort-IsSortOf :
    (a : List ℕ) → length a < int_limit → Returns (IsSortOf a) (quick_sort a (length a))
unfolding quick_sort
quick_sort-IsSortOf a w =
    rw (to_int-pos (length a) w, int_sub-last_index (length a) w)
      (Returns-map
        (quick_recursion-RangeSorted (length a + 1) a 0 (length a) (omega arith) (omega arith) w)
        (λ r h. record {
          same_length = h.frame.same_length;
          ordered = λ p q x y z. h.ordered p q x y (omega (arith, h.frame.same_length));
          items = h.items;
        }))

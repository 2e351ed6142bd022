-- ===== src/ClassicSort/Select/Sorts.antt =====
-- `select_sort` returns, stays inside the array, and sorts it.
use armory.Common.{
  ℕ, zero, suc, ◌+◌, ◌-◌, ◌≤◌, ◌<◌, ◌≡◌, ◌≢◌, refl, ◌∙◌, inl, inr, List, arith, length, at, Returns,
  returns, Returns-bind, Returns-if, ltb, ◌==◌, add32_small, rank, int_lt, int_lt→lt,
  int_lt-false→le, u32_mod, ltb→lt, ltb-false→le, Bool-cases, ==_iff,
}
use armory.ClassicSort.Memory.{
  load-ok, swap_value-ok, swapped, length-swapped, at-swapped, count-swapped,
}
use armory.ClassicSort.Spec.{IsSortOf, SameItems}
use armory.ClassicSort.Select.{select_min, select_outer, select_sort}

-- `m` is the index of a least entry between `i` and `j`, `j` left out.
record IsLeast (a : List ℕ) (i j m : ℕ) : Type 0 where
  from : i ≤ m
  before : m < j
  least : (k : ℕ) → i ≤ k → k < j → rank (at a m) ≤ rank (at a k)

select_min-IsLeast :
    (fuel : ℕ) (a : List ℕ) (i m j : ℕ)
    → length a - j < fuel
    → length a < u32_mod
    → j ≤ length a
    → IsLeast a i j m
    → Returns (IsLeast a i (length a)) (select_min fuel a (length a) m j)
unfolding select_min
select_min-IsLeast zero a i m j f w le v = absurd (omega arith)
select_min-IsLeast (suc fuel) a i m j f w le v =
    Returns-if (ltb j (length a))
      (λ more.
        let hj = ltb→lt j (length a) more in
        let x = at a j in
        let y = at a m in
        rw (load-ok a j hj, load-ok a m (omega (arith, v.before)), add32_small j 1 (omega arith))
          (elim (Bool-cases (int_lt x y)) [
            | inl less ↦ rw less (
                select_min-IsLeast fuel a i j (j + 1) (omega arith) w (omega arith) (record {
                  from = omega (arith, v.from, v.before);
                  before = omega arith;
                  least = λ k p q. ground (arith, v.least k, int_lt→lt x y less);
                }))
            | inr stay ↦ rw stay (
                select_min-IsLeast fuel a i m (j + 1) (omega arith) w (omega arith) (record {
                  from = v.from;
                  before = omega (arith, v.before);
                  least = λ k p q. ground (arith, v.least k, int_lt-false→le x y stay);
                }))
          ]))
      (λ stop.
        let e : j ≡ length a = omega (arith, ltb-false→le j (length a) stop) in returns (rw e at v))

-- The first `i` entries are at their places.
record OuterInv (a0 a : List ℕ) (i : ℕ) : Type 0 where
  same_length : length a ≡ length a0
  items : SameItems a a0
  within : i ≤ length a
  placed : (p q : ℕ) → p < q → p < i → q < length a → rank (at a p) ≤ rank (at a q)

module _ (a0 a : List ℕ) (i m : ℕ) (v : OuterInv a0 a i) (hi : i < length a)
    (min : IsLeast a i (length a) m) where
  OuterInv-exchange : OuterInv a0 (swapped a i m) (i + 1)
  OuterInv-exchange =
      let hm = min.before in
      let b = swapped a i m in
      let size : length b ≡ length a = length-swapped a i m hi hm in
      let at_b = at-swapped a i m hi hm in
      record {
        same_length = size ∙ v.same_length;
        items = λ x. count-swapped a i m hi hm x ∙ v.items x;
        within = omega (arith, size);
        placed = λ p q lt n k. ground (
          arith,
          at_b p,
          at_b q,
          v.placed p q,
          v.placed p i,
          v.placed p m,
          min.least q,
          min.least i,
          min.from,
          size,
        );
      }

  OuterInv-keep : m ≡ i → OuterInv a0 a (i + 1)
  OuterInv-keep e = record {
    same_length = v.same_length;
    items = v.items;
    within = omega arith;
    placed = λ p q lt n k. ground (arith, v.placed p q, min.least q);
  }

select_outer-IsSortOf :
    (fuel : ℕ) (a0 a : List ℕ) (i : ℕ)
    → length a0 - i < fuel
    → length a0 < u32_mod
    → OuterInv a0 a i
    → Returns (IsSortOf a0) (select_outer fuel a (length a0) i)
unfolding select_outer
select_outer-IsSortOf zero a0 a i f w v = absurd (omega arith)
select_outer-IsSortOf (suc fuel) a0 a i f w v =
    Returns-if (ltb i (length a0))
      (λ more.
        let same = v.same_length in
        let hi : i < length a = omega (arith, ltb→lt i (length a0) more) in
        let start : IsLeast a i (i + 1) i = record {
          from = omega arith;
          before = omega arith;
          least = λ k p q. ground arith;
        } in
        rw (add32_small i 1 (omega arith)) (
          Returns-bind
            (rw same at (
              select_min-IsLeast (length a + 1) a i i (i + 1) (omega arith) (omega arith)
                (omega arith) start))
            (λ m found.
              let min : IsLeast a i (length a) m = rw same found in
              elim (Bool-cases (m == i)) [
                | inl one ↦ rw one (
                    select_outer-IsSortOf fuel a0 a (i + 1) (omega arith) w
                      (OuterInv-keep a0 a i m v hi min ((==_iff m i).0 one)))
                | inr two ↦
                    let ne : i ≢ m = ground arith in
                    rw (two, swap_value-ok a i m hi min.before ne)
                      (select_outer-IsSortOf fuel a0 (swapped a i m) (i + 1) (omega arith) w
                        (OuterInv-exchange a0 a i m v hi min))
              ])))
      (λ stop. returns (record {
        same_length = v.same_length;
        ordered = λ p q _ lt n.
            v.placed p q lt (omega (arith, ltb-false→le i (length a0) stop, v.same_length)) n;
        items = v.items;
      }))

-- For every array whose length fits `uint32_t`, `select_sort` returns, makes no access outside
-- the array, and leaves it in ascending order with the same items.
pub select_sort-IsSortOf :
    (a : List ℕ) → length a < u32_mod → Returns (IsSortOf a) (select_sort a (length a))
unfolding select_sort
select_sort-IsSortOf a w = select_outer-IsSortOf (length a + 1) a a 0 (omega arith) w (record {
  same_length = refl;
  items = λ v. refl;
  within = omega arith;
  placed = λ p q lt n k. absurd (omega arith);
})

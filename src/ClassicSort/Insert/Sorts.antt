-- ===== src/ClassicSort/Insert/Sorts.antt =====
-- `insert_sort` returns, stays inside the array, and sorts it.
use armory.Common.{
  ℕ, zero, suc, ◌+◌, ◌-◌, ◌≤◌, ◌<◌, ◌≡◌, refl, ◌∙◌, inl, inr, List, arith, length, set, at, Returns,
  returns, Returns-bind, Returns-if, ltb, add32, sub32, add32_small, sub32_small, rank, int_lt,
  int_lt→lt, int_lt-false→le, u32_mod, ltb→lt, ltb-false→le,
}
use armory.ClassicSort.Memory.{load-ok, store-ok}
use armory.ClassicSort.Spec.{IsSortOf, IsOrdered-of_adjacent, SameItems}
use armory.ClassicSort.Shift.{ShiftInv, Inserted, ShiftInv-start, ShiftInv-step, Inserted-stop}
use armory.ClassicSort.Insert.{insert_shift, insert_outer, insert_sort}

-- What the inner loop leaves: `tmp` may be put down at the final index.
abbrev Placed : List ℕ → ℕ → ℕ → List ℕ × ℕ → Type 0
Placed a0 i tmp r = Inserted 1 a0 i (set r.0 r.1 tmp) × (r.1 < length r.0)

insert_shift_places :
    (fuel : ℕ) (a0 : List ℕ) (i tmp : ℕ) (a : List ℕ) (j : ℕ)
    → j < fuel
    → length a0 < u32_mod
    → ShiftInv 1 a0 i tmp a j
    → Returns (Placed a0 i tmp) (insert_shift fuel a tmp j)
unfolding insert_shift
insert_shift_places zero a0 i tmp a j f w v = absurd (omega arith)
insert_shift_places (suc fuel) a0 i tmp a j f w v =
    let hj : j < length a = omega (arith, v.place, v.inside, v.same_length) in
    Returns-if (ltb 0 j)
      (λ pos.
        let p : 0 < j = ltb→lt _ _ pos in
        let e : sub32 j 1 ≡ j - 1 = sub32_small j 1 (omega arith) (omega (arith, v.same_length)) in
        let hk : j - 1 < length a = omega arith in
        rw (e, load-ok a (j - 1) hk, store-ok a j (at a (j - 1)) hj)
          (Returns-if (int_lt tmp (at a (j - 1)))
            (λ less.
              insert_shift_places fuel a0 i tmp (set a j (at a (j - 1))) (j - 1) (omega arith) w (
                ShiftInv-step 1 a0 i tmp a j v p
                  (omega (arith, int_lt→lt tmp (at a (j - 1)) less))))
            (λ stop. returns (
              Inserted-stop 1 a0 i tmp a j v (inr (int_lt-false→le tmp (at a (j - 1)) stop)),
              hj,
            ))))
      (λ first.
        returns (Inserted-stop 1 a0 i tmp a j v (inl (omega (arith, ltb-false→le 0 j first))), hj))

-- The first `i` entries ascend, and the items are those of the start.
record OuterInv (a0 a : List ℕ) (i : ℕ) : Type 0 where
  same_length : length a ≡ length a0
  items : SameItems a a0
  reach : i ≤ length a0 + 1
  ordered : (p : ℕ) → p + 1 < i → rank (at a p) ≤ rank (at a (p + 1))

insert_outer_sorts :
    (fuel : ℕ) (a0 a : List ℕ) (i : ℕ)
    → length a0 + 1 < fuel + i
    → length a0 < u32_mod
    → OuterInv a0 a i
    → Returns (IsSortOf a0) (insert_outer fuel a (length a0) i)
unfolding insert_outer
insert_outer_sorts zero a0 a i f w v = absurd (omega (arith, v.reach))
insert_outer_sorts (suc fuel) a0 a i f w v =
    Returns-if (ltb i (length a0))
      (λ more.
        let hi : i < length a = omega (arith, ltb→lt i (length a0) more, v.same_length) in
        let e : add32 i 1 ≡ i + 1 = add32_small i 1 (omega (arith, v.same_length)) in
        let start = ShiftInv-start 1 a i (omega arith) hi (λ p c q. v.ordered p q) in
        rw (e, load-ok a i hi)
          (Returns-bind
            (insert_shift_places (i + 1) a i (at a i) a i (omega arith) (rw v.same_length w) start)
            (λ (b, j) r.
              let c = set b j (at a i) in
              let now : OuterInv a0 c (i + 1) = record {
                same_length = r.0.same_length ∙ v.same_length;
                items = λ x. r.0.items x ∙ v.items x;
                reach = omega (arith, v.same_length);
                ordered = λ p q. r.0.ordered p (omega arith) (omega arith);
              } in
              rw (store-ok b j (at a i) r.1)
                (insert_outer_sorts fuel a0 c (i + 1) (omega arith) w now))))
      (λ done. returns (record {
        same_length = v.same_length;
        ordered =
            IsOrdered-of_adjacent a 0 (length a) (λ p _ q.
              v.ordered p (omega (arith, v.same_length, ltb-false→le i (length a0) done)));
        items = v.items;
      }))

-- For every array whose length fits `uint32_t`, `insert_sort` returns, makes no access outside
-- the array, and leaves it in ascending order with the same items.
pub insert_sort-IsSortOf :
    (a : List ℕ) → length a < u32_mod → Returns (IsSortOf a) (insert_sort a (length a))
unfolding insert_sort
insert_sort-IsSortOf a w = insert_outer_sorts (length a + 1) a a 1 (omega arith) w (record {
  same_length = refl;
  items = λ v. refl;
  reach = omega arith;
  ordered = λ p h. absurd (omega arith);
})

-- ===== src/ClassicSort/Quick/Loops.antt =====
-- The loops of `quick_recursion`'s partition keep its invariant and end.
use armory.Common.{
  ℕ, zero, suc, ◌+◌, ◌-◌, ◌≤◌, ◌<◌, ◌≡◌, refl, List, arith, length, at, ℤ, pos, Returns, returns,
  Returns-bind, Returns-if, Returns-map, ltb, ltb→lt, ltb-false→le, rank, int_lt, int_lt→lt,
  int_lt-false→le, ltz-pos, int_limit, int_add-pos, int_sub-pos,
}
use mathlib.Core.Path.{subst}
use armory.ClassicSort.Memory.{load_int-ok, store_int-ok}
use armory.ClassicSort.Quick.{scan_down, scan_up, move_left, move_right, partition}
use armory.ClassicSort.Quick.Partition.{PartInv, PartInv-left, PartInv-right}

module _ (a0 : List ℕ) (s e basis : ℕ) (fits : length a0 ≤ int_limit) where
  -- The loop over `j` stops at `i` or at an entry that is at most `basis`.
  abbrev DownDone : List ℕ → ℕ → ℕ → ℤ → Type 0
  DownDone a i j r =
      (k : ℕ) × (r ≡ pos k)
      × (k ≤ j)
      × PartInv a0 s e basis a i k i
      × (i < k → rank (at a k) ≤ rank basis)

  scan_down-done :
      (fuel : ℕ) (a : List ℕ) (i j : ℕ)
      → j - i < fuel
      → PartInv a0 s e basis a i j i
      → Returns (DownDone a i j) (scan_down fuel a basis (pos i) (pos j))
  unfolding scan_down
  scan_down-done zero a i j f v = absurd (omega arith)
  scan_down-done (suc fuel) a i j f v =
      let hj : j < length a = omega (arith, v.inside, v.high) in
      let size = v.frame.same_length in
      rw (ltz-pos i j) (
        Returns-if (ltb i j)
          (λ more.
            rw (load_int-ok a j hj, int_sub-pos j 1 (omega (arith, ltb→lt i j more)) (omega arith))
              (Returns-if (int_lt basis (at a j))
                (λ large.
                  let lt = ltb→lt i j more in
                  let next : PartInv a0 s e basis a i (j - 1) i = record {
                    frame = v.frame;
                    inside = v.inside;
                    low = v.low;
                    meet = omega arith;
                    high = omega (arith, v.high);
                    items = v.items;
                    left = v.left;
                    right = λ k p q. ground (arith, v.right k, int_lt→lt basis (at a j) large);
                  } in
                  Returns-map (scan_down-done fuel a i (j - 1) (omega arith) next)
                    (λ r (k, e', le, w, small). (k, e', omega arith, w, small)))
                (λ stop.
                  returns (j, refl, omega arith, v, λ _. int_lt-false→le basis (at a j) stop))))
          (λ met.
            returns (j, refl, omega arith, v, λ lt. absurd (omega (arith, ltb-false→le i j met)))))

  -- The loop over `i` stops at `j` or at an entry that is at least `basis`.
  abbrev UpDone : List ℕ → ℕ → ℕ → ℤ → Type 0
  UpDone a i j r =
      (k : ℕ) × (r ≡ pos k)
      × (i ≤ k)
      × PartInv a0 s e basis a k j j
      × (k < j → rank basis ≤ rank (at a k))

  scan_up-done :
      (fuel : ℕ) (a : List ℕ) (i j : ℕ)
      → j - i < fuel
      → PartInv a0 s e basis a i j j
      → Returns (UpDone a i j) (scan_up fuel a basis (pos i) (pos j))
  unfolding scan_up
  scan_up-done zero a i j f v = absurd (omega arith)
  scan_up-done (suc fuel) a i j f v =
      let hi : i < length a = omega (arith, v.inside, v.high, v.meet) in
      let size = v.frame.same_length in
      rw (ltz-pos i j) (
        Returns-if (ltb i j)
          (λ more.
            rw
              (
                load_int-ok a i hi,
                int_add-pos i 1 (omega (arith, ltb→lt i j more, v.high, v.inside)),
              )
              (Returns-if (int_lt (at a i) basis)
                (λ small.
                  let lt = ltb→lt i j more in
                  let next : PartInv a0 s e basis a (i + 1) j j = record {
                    frame = v.frame;
                    inside = v.inside;
                    low = omega (arith, v.low);
                    meet = omega arith;
                    high = v.high;
                    items = v.items;
                    left = λ k p q. ground (arith, v.left k, int_lt→lt (at a i) basis small);
                    right = v.right;
                  } in
                  Returns-map (scan_up-done fuel a (i + 1) j (omega arith) next)
                    (λ r (k, e', le, w, large). (k, e', omega arith, w, large)))
                (λ stop.
                  returns (i, refl, omega arith, v, λ _. int_lt-false→le (at a i) basis stop))))
          (λ met.
            returns (i, refl, omega arith, v, λ lt. absurd (omega (arith, ltb-false→le i j met)))))

  -- After the first half of a round the hole is at `j`, and the distance has not grown.
  abbrev LeftDone : ℕ → ℕ → List ℕ × ℤ → Type 0
  LeftDone i j r =
      (k : ℕ) × (r.1 ≡ pos k) × (i ≤ k) × (i < j → i < k) × PartInv a0 s e basis r.0 k j j

  move_left-done :
      (a : List ℕ) (i j : ℕ)
      → PartInv a0 s e basis a i j i
      → (i < j → rank (at a j) ≤ rank basis)
      → Returns (LeftDone i j) (move_left a (pos i) (pos j))
  unfolding move_left
  move_left-done a i j v small =
      let hj : j < length a = omega (arith, v.inside, v.high) in
      let hi : i < length a = omega (arith, v.meet) in
      let size = v.frame.same_length in
      rw (ltz-pos i j) (
        Returns-if (ltb i j)
          (λ more.
            let lt = ltb→lt i j more in
            rw (load_int-ok a j hj, store_int-ok a i (at a j) hi, int_add-pos i 1 (omega arith))
              (returns (
                i + 1,
                refl,
                omega arith,
                (λ _. omega arith),
                PartInv-left a0 s e basis a i j lt v (small lt),
              )))
          (λ met.
            let one : i ≡ j = omega (arith, v.meet, ltb-false→le i j met) in
            returns (
              i,
              refl,
              omega arith,
              (λ lt. absurd (omega arith)),
              subst (PartInv a0 s e basis a i j) one v,
            )))

  abbrev RightDone : ℕ → ℕ → List ℕ × ℤ → Type 0
  RightDone i j r = (k : ℕ) × (r.1 ≡ pos k) × (k ≤ j) × PartInv a0 s e basis r.0 i k i

  move_right-done :
      (a : List ℕ) (i j : ℕ)
      → PartInv a0 s e basis a i j j
      → (i < j → rank basis ≤ rank (at a i))
      → Returns (RightDone i j) (move_right a (pos i) (pos j))
  unfolding move_right
  move_right-done a i j v large =
      let hj : j < length a = omega (arith, v.inside, v.high) in
      let hi : i < length a = omega (arith, v.meet) in
      let size = v.frame.same_length in
      rw (ltz-pos i j) (
        Returns-if (ltb i j)
          (λ more.
            let lt = ltb→lt i j more in
            rw
              (
                load_int-ok a i hi,
                store_int-ok a j (at a i) hj,
                int_sub-pos j 1 (omega arith) (omega arith),
              )
              (returns
                (j - 1, refl, omega arith, PartInv-right a0 s e basis a i j lt v (large lt))))
          (λ met.
            let one : j ≡ i = omega (arith, v.meet, ltb-false→le i j met) in
            returns (j, refl, omega arith, subst (PartInv a0 s e basis a i j) one v)))

  -- The two ends have met at the hole.
  abbrev pub PartDone : List ℕ × ℤ → Type 0
  PartDone r = (k : ℕ) × (r.1 ≡ pos k) × PartInv a0 s e basis r.0 k k k

  pub partition-done :
      (fuel : ℕ) (a : List ℕ) (i j : ℕ)
      → j - i < fuel
      → PartInv a0 s e basis a i j i
      → Returns PartDone (partition fuel a basis (pos i) (pos j))
  unfolding partition
  partition-done zero a i j f v = absurd (omega arith)
  partition-done (suc fuel) a i j f v = rw (ltz-pos i j) (
      Returns-if (ltb i j)
        (λ more. Returns-bind (scan_down-done (suc fuel) a i j f v) (λ r (j1, e1, le1, v1, small).
          rw e1 (
            Returns-bind (move_left-done a i j1 v1 small) (λ (b, r2) (i1, e2, le2, lt2, v2). rw e2 (
              Returns-bind (scan_up-done (suc fuel) b i1 j1 (omega arith) v2)
                (λ r3 (i2, e3, le3, v3, large). rw e3 (
                  Returns-bind (move_right-done b i2 j1 v3 large) (λ (c, r4) (j2, e4, le4, v4).
                    rw e4 (partition-done fuel c i2 j2 (ground (arith, ltb→lt i j more)) v4)))))))))
        (λ met.
          let one : j ≡ i = omega (arith, v.meet, ltb-false→le i j met) in
          returns (i, refl, subst (λ t. PartInv a0 s e basis a i t i) one v)))

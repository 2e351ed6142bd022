-- ===== src/ClassicSort/Bubble/Sorts.antt =====
-- `bubble_sort` returns, stays inside the array, and sorts it.
use armory.Common.{
  ℕ, zero, suc, ◌+◌, ◌-◌, ◌≤◌, ◌<◌, ◌≡◌, refl, ◌∙◌, List, arith, length, at, Returns, returns,
  Returns-bind, Returns-if, ltb, add32, sub32, add32_small, sub32_small, rank, int_lt, int_lt→lt,
  int_lt-false→le, u32_mod, ltb→lt, ltb-false→le,
}
use armory.ClassicSort.Memory.{
  load-ok, swap_value-ok, swapped, length-swapped, at-swapped, count-swapped,
}
use armory.ClassicSort.Spec.{IsSortOf, SameItems}
use armory.ClassicSort.Bubble.{bubble_pass, bubble_rounds, bubble_sort}

-- Every entry between the indices `m` and `n`, both counted, is at least all before it.
abbrev Settled : List ℕ → ℕ → ℕ → Type 0
Settled a m n = (p q : ℕ) → p < q → m ≤ q → q ≤ n → rank (at a p) ≤ rank (at a q)

-- The entries from `hi` on are at their places.
record RoundInv (a0 a : List ℕ) (hi : ℕ) : Type 0 where
  same_length : length a ≡ length a0
  items : SameItems a a0
  within : hi ≤ length a
  top : (p q : ℕ) → p < q → hi ≤ q → q < length a → rank (at a p) ≤ rank (at a q)

-- So far the entries from `last` up to `lo` are settled.
record PassInv (a0 a : List ℕ) (lo hi last : ℕ) : Type 0 where
  round : RoundInv a0 a hi
  behind : last ≤ lo
  inside : lo < hi
  settled : Settled a last lo

module _ (a0 a : List ℕ) (lo hi last : ℕ) (v : PassInv a0 a lo hi last) (more : lo + 1 < hi) where
  open v.round use {same_length, items, within, top}

  PassInv-keep : rank (at a lo) ≤ rank (at a (lo + 1)) → PassInv a0 a (lo + 1) hi last
  PassInv-keep le = record {
    round = v.round;
    behind = omega (arith, v.behind);
    inside = more;
    settled = λ p q lt m n. ground (arith, v.settled p q, v.settled p lo, v.behind);
  }

  PassInv-exchange :
      rank (at a (lo + 1)) ≤ rank (at a lo)
      → PassInv a0 (swapped a lo (lo + 1)) (lo + 1) hi (lo + 1)
  PassInv-exchange le =
      let hj : lo + 1 < length a = omega (arith, within) in
      let hi' : lo < length a = omega arith in
      let b = swapped a lo (lo + 1) in
      let size : length b ≡ length a = length-swapped a lo (lo + 1) hi' hj in
      let at_b = at-swapped a lo (lo + 1) hi' hj in
      record {
        round = record {
          same_length = size ∙ same_length;
          items = λ x. count-swapped a lo (lo + 1) hi' hj x ∙ items x;
          within = omega (arith, within, size);
          top =
              λ p q lt m n. ground (arith, at_b p, at_b q, top p q, top lo q, top (lo + 1) q, size);
        };
        behind = omega arith;
        inside = more;
        settled = λ p q lt m n. ground (arith, at_b p, at_b q, v.settled p lo, v.behind, le);
      }

abbrev PassDone : List ℕ → ℕ → List ℕ × ℕ → Type 0
PassDone a0 hi r = RoundInv a0 r.0 r.1 × (r.1 < hi)

-- The pass ends with everything from `last` on settled.
PassInv-stop :
    (a0 a : List ℕ) (lo hi last : ℕ)
    → PassInv a0 a lo hi last
    → hi ≤ lo + 1
    → PassDone a0 hi (a, last)
PassInv-stop a0 a lo hi last v stop = (
  record {
    same_length = v.round.same_length;
    items = v.round.items;
    within = omega (arith, v.round.within, v.behind, v.inside);
    top = λ p q lt m n. ground (arith, v.round.top p q, v.settled p q);
  },
  omega (arith, v.behind, v.inside),
)

bubble_pass-done :
    (fuel : ℕ) (a0 a : List ℕ) (lo hi last : ℕ)
    → hi - lo < fuel
    → length a0 < u32_mod
    → PassInv a0 a lo hi last
    → Returns (PassDone a0 hi) (bubble_pass fuel a lo hi last)
unfolding bubble_pass
bubble_pass-done zero a0 a lo hi last f w v = absurd (omega arith)
bubble_pass-done (suc fuel) a0 a lo hi last f w v =
    let size = v.round.same_length in
    let up : add32 lo 1 ≡ lo + 1 =
      add32_small lo 1 (omega (arith, v.inside, v.round.within, size)) in
    let down : sub32 (lo + 1) 1 ≡ lo =
      omega (arith, sub32_small (lo + 1) 1, v.inside, v.round.within, size) in
    rw up (
      Returns-if (ltb (lo + 1) hi)
        (λ more.
          let next = ltb→lt (lo + 1) hi more in
          let hj : lo + 1 < length a = omega (arith, v.round.within) in
          let hl : lo < length a = omega arith in
          rw (down, load-ok a lo hl, load-ok a (lo + 1) hj)
            (Returns-if (int_lt (at a (lo + 1)) (at a lo))
              (λ less. rw (swap_value-ok a lo (lo + 1) hl hj (omega arith)) (
                bubble_pass-done fuel a0 (swapped a lo (lo + 1)) (lo + 1) hi (lo + 1) (omega arith)
                  w (PassInv-exchange a0 a lo hi last v next (omega (arith, int_lt→lt _ _ less)))))
              (λ stay.
                bubble_pass-done fuel a0 a (lo + 1) hi last (omega arith) w
                  (PassInv-keep a0 a lo hi last v next (int_lt-false→le _ _ stay)))))
        (λ stop. returns (PassInv-stop a0 a lo hi last v (ltb-false→le (lo + 1) hi stop))))

bubble_rounds-IsSortOf :
    (fuel : ℕ) (a0 a : List ℕ) (hi : ℕ)
    → hi < fuel
    → length a0 < u32_mod
    → RoundInv a0 a hi
    → Returns (IsSortOf a0) (bubble_rounds fuel a 0 hi)
unfolding bubble_rounds
bubble_rounds-IsSortOf zero a0 a hi f w v = absurd (omega arith)
bubble_rounds-IsSortOf (suc fuel) a0 a hi f w v =
    Returns-if (ltb 0 hi)
      (λ more.
        let start : PassInv a0 a 0 hi 0 = record {
          round = v;
          behind = omega arith;
          inside = ltb→lt 0 hi more;
          settled = λ p q lt m n. absurd (omega arith);
        } in
        Returns-bind (bubble_pass-done (hi + 1) a0 a 0 hi 0 (omega arith) w start)
          (λ (b, last) (done, less). bubble_rounds-IsSortOf fuel a0 b last (omega arith) w done))
      (λ stop. returns (record {
        same_length = v.same_length;
        ordered = λ p q _ lt n. v.top p q lt (omega (arith, ltb-false→le 0 hi stop)) n;
        items = v.items;
      }))

-- For every array whose length fits `uint32_t`, `bubble_sort` returns, makes no access outside
-- the array, and leaves it in ascending order with the same items.
pub bubble_sort-IsSortOf :
    (a : List ℕ) → length a < u32_mod → Returns (IsSortOf a) (bubble_sort a (length a))
unfolding bubble_sort
bubble_sort-IsSortOf a w =
    bubble_rounds-IsSortOf (length a + 1) a a (length a) (omega arith) w (record {
      same_length = refl;
      items = λ v. refl;
      within = omega arith;
      top = λ p q lt m n. absurd (omega arith);
    })

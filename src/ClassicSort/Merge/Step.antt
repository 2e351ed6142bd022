-- ===== src/ClassicSort/Merge/Step.antt =====
-- One round of `merger`: the invariant, and that taking an entry from either side keeps it.
use armory.Common.{
  ℕ, suc, ◌+◌, ◌-◌, ◌≤◌, ◌<◌, ◌≡◌, ap, ◌∙◌, inl, List, arith, length, set, length-set, at, at-set,
  hit, count, count-set, count_window, count_window_step, count_window-last, count_window-set, rank,
  u32_mod,
}
use mathlib.Core.Path.{subst}
use native.Mathlib.Decide.{dec_lt}
use armory.ClassicSort.Spec.{IsOrdered}

-- The two parts that are merged: `buf` holds the left one, and `a0` is the array at the start.
pub record Parts (a0 buf : List ℕ) (lo l mi r hi : ℕ) : Type 0 where
  pub mid : lo + l ≡ mi
  pub stop : mi + r ≡ hi
  pub inside : hi ≤ length a0
  pub room : l < length buf
  pub small : length a0 < u32_mod
  pub left_sorted : (p q : ℕ) → p < q → q < l → rank (at buf p) ≤ rank (at buf q)
  pub right_sorted : IsOrdered a0 mi hi

-- `j` entries of the left part and `k` of the right one have been put down. The first of the
-- next `l - j` places of the array are free: their old entries wait in the buffer.
pub record MergeInv (a0 buf : List ℕ) (lo l mi r hi : ℕ) (a : List ℕ) (j k : ℕ) : Type 0 where
  pub same_length : length a ≡ length a0
  pub left_bound : j ≤ l
  pub right_bound : k ≤ r
  pub under : (p : ℕ) → p < lo → at a p ≡ at a0 p
  pub rest : (p : ℕ) → mi + k ≤ p → at a p ≡ at a0 p
  pub sorted : IsOrdered a lo (lo + (j + k))
  pub below_left :
      (p t : ℕ) → lo ≤ p → p < lo + (j + k) → j ≤ t → t < l → rank (at a p) ≤ rank (at buf t)
  pub below_right :
      (p t : ℕ) → lo ≤ p → p < lo + (j + k) → mi + k ≤ t → t < hi → rank (at a p) ≤ rank (at a0 t)
  pub items :
      (v : ℕ)
      → count v a + count_window v buf j (l - j)
        ≡ count v a0 + count_window v a (lo + (j + k)) (l - j)

module _ (a0 buf : List ℕ) (lo l mi r hi : ℕ) (s : Parts a0 buf lo l mi r hi) (a : List ℕ) (j k : ℕ)
    (v : MergeInv a0 buf lo l mi r hi a j k) where
  abbrev place : ℕ
  place = lo + (j + k)

  -- The next entry of the left part, when the right one is spent or does not come before it.
  left_items :
      j < l
      → (x : ℕ)
      → count x (set a place (at buf j)) + count_window x buf (j + 1) (l - (j + 1))
        ≡ count x a0 + count_window x (set a place (at buf j)) (lo + (j + 1 + k)) (l - (j + 1))
  left_items more x =
      let y = at buf j in
      let hp : place < length a =
        omega (arith, s.mid, s.stop, s.inside, v.same_length, v.right_bound) in
      let n = l - (j + 1) in
      let e : n + 1 ≡ l - j = omega arith in
      let e' : place + 1 ≡ lo + (j + 1 + k) = omega arith in
      let before = rw (← e) at (v.items x) in
      let kept = rw e' at (count_window-set x a (place + 1) n place y hp (inl (omega arith))) in
      let step = rw e' at (count_window_step x a place n) in
      omega (arith, before, step, kept, count_window_step x buf j n, count-set x a place y hp)

  pub MergeInv-left :
      j < l
      → (k < r → rank (at buf j) ≤ rank (at a0 (mi + k)))
      → MergeInv a0 buf lo l mi r hi (set a place (at buf j)) (j + 1) k
  MergeInv-left more first =
      let y = at buf j in
      let hp : place < length a =
        omega (arith, s.mid, s.stop, s.inside, v.same_length, v.right_bound) in
      let at_b = λ (p : ℕ). at-set a place p y hp in
      let gap : place < mi + k = omega (arith, s.mid) in
      record {
        same_length = length-set a place y ∙ v.same_length;
        left_bound = omega arith;
        right_bound = v.right_bound;
        under = λ p q. ground (arith, at_b p, v.under p);
        rest = λ p q. ground (arith, at_b p, v.rest p);
        sorted = λ p q b c d. ground (arith, at_b p, at_b q, v.sorted p q, v.below_left p j);
        below_left = λ p t b c d e. ground (arith, at_b p, v.below_left p t, s.left_sorted j t);
        below_right = λ p t b c d e.
            ground (arith, at_b p, v.below_right p t, s.right_sorted (mi + k) t, first, s.stop);
        items = left_items more;
      }

  abbrev RightItems : ℕ → Type 0
  RightItems x =
      count x (set a place (at a (mi + k))) + count_window x buf j (l - j)
      ≡ count x a0 + count_window x (set a place (at a (mi + k))) (lo + (j + (k + 1))) (l - j)

  -- The free places move up by one: the last of them is the place that the entry came from.
  RightItems-gap : k < r → j < l → (x : ℕ) → RightItems x
  RightItems-gap more gap x =
      let y = at a (mi + k) in
      let b = set a place y in
      let hp : place < length a = omega (arith, s.mid, s.stop, s.inside, v.same_length) in
      let n = l - j - 1 in
      let e : suc n ≡ l - j = omega arith in
      let e2 : n + 1 ≡ l - j = omega arith in
      let e' : place + 1 ≡ lo + (j + (k + 1)) = omega arith in
      let last : place + 1 + n ≡ mi + k = omega (arith, s.mid) in
      let moved : at b (place + 1 + n) ≡ y =
        ap (at b) last ∙ ground (arith, at-set a place (mi + k) y hp) in
      let split : count_window x a place (l - j)
          ≡ hit x (at a place) + count_window x a (place + 1) n =
        subst (λ t. count_window x a place t ≡ hit x (at a place) + count_window x a (place + 1) n)
          e2 (count_window_step x a place n) in
      let after : count_window x b (place + 1) (l - j)
          ≡ count_window x b (place + 1) n + hit x (at b (place + 1 + n)) =
        subst
          (λ t.
            count_window x b (place + 1) t
            ≡ count_window x b (place + 1) n + hit x (at b (place + 1 + n)))
          e (count_window-last x b (place + 1) n) in
      omega (
        arith,
        v.items x,
        split,
        after,
        count_window-set x a (place + 1) n place y hp (inl (omega arith)),
        ap (hit x) moved,
        ap (λ t. count_window x b t (l - j)) e',
        count-set x a place y hp,
      )

  -- With no free place the entry is written where it stands.
  RightItems-closed : k < r → l ≤ j → (x : ℕ) → RightItems x
  unfolding count_window
  RightItems-closed more closed x =
      let y = at a (mi + k) in
      let none : l - j ≡ 0 = omega arith in
      let hp : place < length a =
        omega (arith, s.mid, s.stop, s.inside, v.same_length, v.left_bound) in
      let own : place ≡ mi + k = omega (arith, s.mid, v.left_bound) in
      let before = rw none at (v.items x) in
      rw none (omega (arith, before, count-set x a place y hp, ap (λ p. hit x (at a p)) own))

  right_items : k < r → (x : ℕ) → RightItems x
  right_items more x = elim (dec_lt j l) [
    | yes gap ↦ RightItems-gap more gap x
    | no closed ↦ RightItems-closed more (omega arith) x
  ]

  -- The next entry of the right part, when it comes before the left one or that is spent.
  pub MergeInv-right :
      k < r
      → (j < l → rank (at a0 (mi + k)) ≤ rank (at buf j))
      → MergeInv a0 buf lo l mi r hi (set a place (at a (mi + k))) j (k + 1)
  MergeInv-right more first =
      let y = at a (mi + k) in
      let hp : place < length a =
        omega (arith, s.mid, s.stop, s.inside, v.same_length, v.left_bound) in
      let at_b = λ (p : ℕ). at-set a place p y hp in
      let here : y ≡ at a0 (mi + k) = v.rest (mi + k) (omega arith) in
      let gap : place ≤ mi + k = omega (arith, s.mid, v.left_bound) in
      record {
        same_length = length-set a place y ∙ v.same_length;
        left_bound = v.left_bound;
        right_bound = omega arith;
        under = λ p q. ground (arith, at_b p, v.under p);
        rest = λ p q. ground (arith, at_b p, v.rest p);
        sorted = λ p q b c d.
            ground (arith, at_b p, at_b q, v.sorted p q, v.below_right p (mi + k), here, s.stop);
        below_left =
            λ p t b c d e. ground (arith, at_b p, v.below_left p t, s.left_sorted j t, first, here);
        below_right = λ p t b c d e.
            ground (arith, at_b p, v.below_right p t, s.right_sorted (mi + k) t, here, s.stop);
        items = right_items more;
      }

-- ===== src/ClassicSort/Merge/Loop.antt =====
-- The loop of `merger` keeps its invariant, makes no access outside the two arrays, and ends.
use armory.Common.{
  ℕ, zero, suc, ◌+◌, ◌-◌, ◌≤◌, ◌<◌, ◌≡◌, refl, inl, inr, List, arith, length, at, Bool, true, false,
  Returns, returns, Returns-bind, Returns-if, ltb, leb, ltb→lt, ltb-false→le, leb→le, leb-false→lt,
  rank, int_lt, int_lt→lt, int_lt-false→le, add32_small, Bool-cases,
}
use native.Mathlib.Decide.{dec_le}
use armory.ClassicSort.Memory.{load-ok, store-ok}
use armory.ClassicSort.Merge.{left_test, merge_left, right_test, merge_right, merge_loop}
use armory.ClassicSort.Merge.Step.{Parts, MergeInv, MergeInv-left, MergeInv-right}

module _ (a0 buf : List ℕ) (lo l mi r hi : ℕ) (s : Parts a0 buf lo l mi r hi) where
  module _ (a : List ℕ) (j k : ℕ) (v : MergeInv a0 buf lo l mi r hi a j k) where
    abbrev LeftFirst : Bool → Type 0
    LeftFirst b =
        (b ≡ true → k < r → rank (at buf j) ≤ rank (at a0 (mi + k)))
        × (b ≡ false → (k < r) × (rank (at a0 (mi + k)) < rank (at buf j)))

    left_test-LeftFirst : j < l → Returns LeftFirst (left_test a buf mi r j k)
    unfolding left_test
    left_test-LeftFirst more =
        Returns-if (leb r k)
          (λ spent.
            returns ((λ _ lt. absurd (omega (arith, leb→le r k spent))), (λ no'. absurd (cc))))
          (λ left.
            let lt = leb-false→lt r k left in
            let hk : mi + k < length a = omega (arith, s.stop, s.inside, v.same_length) in
            let same = v.rest (mi + k) (omega arith) in
            rw (load-ok buf j (omega (arith, s.room)), load-ok a (mi + k) hk, same)
              (elim (Bool-cases (int_lt (at a0 (mi + k)) (at buf j))) [
                | inl less ↦ rw less (returns ((λ e. absurd (cc)), (λ _. (lt, int_lt→lt _ _ less))))
                | inr le ↦ rw le (returns ((λ _ _. int_lt-false→le _ _ le), (λ e. absurd (cc))))
              ]))

    -- After the first statement of a round: `j` has grown, or the right part is to give.
    abbrev HalfDone : List ℕ × ℕ × ℕ → Type 0
    HalfDone t =
        (j' : ℕ) × (t.2 ≡ j')
        × (t.1 ≡ j' + k)
        × (j ≤ j')
        × (j' ≤ j → (k < r) × (rank (at a0 (mi + k)) < rank (at buf j')))
        × MergeInv a0 buf lo l mi r hi t.0 j' k

    merge_left-HalfDone : j < l → Returns HalfDone (merge_left a buf lo mi r (j + k) j k)
    unfolding merge_left
    merge_left-HalfDone more =
        let hp : lo + (j + k) < length a =
          omega (arith, s.mid, s.stop, s.inside, v.same_length, v.right_bound) in
        let size = s.small in
        let in_array = s.inside in
        Returns-bind (left_test-LeftFirst more) λ b w. elim (Bool-cases b) [
          | inl take ↦
              rw
                (
                  take,
                  load-ok buf j (omega (arith, s.room)),
                  store-ok a (lo + (j + k)) (at buf j) hp,
                  add32_small (j + k) 1 (omega (arith, v.same_length)),
                  add32_small j 1 (omega (arith, v.same_length)),
                )
                (returns (
                  j + 1,
                  refl,
                  omega arith,
                  omega arith,
                  (λ le. absurd (omega arith)),
                  MergeInv-left a0 buf lo l mi r hi s a j k v more (w.0 take),
                ))
          | inr keep ↦ rw keep (returns (j, refl, refl, omega arith, (λ _. w.1 keep), v))
        ]

    abbrev RightFirst : Bool → Type 0
    RightFirst b =
        (b ≡ true → (k < r) × (j < l → rank (at a0 (mi + k)) ≤ rank (at buf j)))
        × (b ≡ false → k < r → rank (at buf j) ≤ rank (at a0 (mi + k)))

    right_test-RightFirst : Returns RightFirst (right_test a buf mi r j k)
    unfolding right_test
    right_test-RightFirst =
        Returns-if (ltb k r)
          (λ more.
            let lt = ltb→lt k r more in
            let hk : mi + k < length a = omega (arith, s.stop, s.inside, v.same_length) in
            let same = v.rest (mi + k) (omega arith) in
            rw (load-ok a (mi + k) hk, load-ok buf j (omega (arith, s.room, v.left_bound)), same)
              (elim (Bool-cases (int_lt (at a0 (mi + k)) (at buf j))) [
                | inl less ↦ rw less (
                    returns
                      ((λ _. (lt, λ _. omega (arith, int_lt→lt _ _ less))), (λ e. absurd (cc))))
                | inr le ↦ rw le (returns ((λ e. absurd (cc)), (λ _ _. int_lt-false→le _ _ le)))
              ]))
          (λ spent.
            returns ((λ e. absurd (cc)), (λ _ lt. absurd (omega (arith, ltb-false→le k r spent)))))

    abbrev RoundDone : List ℕ × ℕ × ℕ → Type 0
    RoundDone t =
        (k' : ℕ) × (t.2 ≡ k')
        × (t.1 ≡ j + k')
        × (k ≤ k')
        × ((k < r) × (rank (at a0 (mi + k)) < rank (at buf j)) → k < k')
        × MergeInv a0 buf lo l mi r hi t.0 j k'

    merge_right-RoundDone : Returns RoundDone (merge_right a buf lo mi r (j + k) j k)
    unfolding merge_right
    merge_right-RoundDone =
        let size = s.small in
        let in_array = s.inside in
        Returns-bind right_test-RightFirst λ b w. elim (Bool-cases b) [
          | inl take ↦
              let lt = (w.0 take).0 in
              let hk : mi + k < length a = omega (arith, s.stop, v.same_length) in
              let hp : lo + (j + k) < length a = omega (arith, s.mid, v.left_bound) in
              rw
                (
                  take,
                  load-ok a (mi + k) hk,
                  store-ok a (lo + (j + k)) (at a (mi + k)) hp,
                  add32_small (j + k) 1 (omega (arith, v.same_length)),
                  add32_small k 1 (omega (arith, v.same_length)),
                )
                (returns (
                  k + 1,
                  refl,
                  omega arith,
                  omega arith,
                  (λ _. omega arith),
                  MergeInv-right a0 buf lo l mi r hi s a j k v lt (w.0 take).1,
                ))
          | inr keep ↦ rw keep (
              returns (
                k,
                refl,
                refl,
                omega arith,
                (λ (lt, less). absurd (omega (arith, w.1 keep lt))),
                v,
              ))
        ]

  -- All entries of the left part are put down.
  abbrev pub LoopDone : List ℕ → Type 0
  LoopDone b = (k : ℕ) × MergeInv a0 buf lo l mi r hi b l k

  pub merge_loop-done :
      (fuel : ℕ) (a : List ℕ) (j k : ℕ)
      → l + r - (j + k) < fuel
      → MergeInv a0 buf lo l mi r hi a j k
      → Returns LoopDone (merge_loop fuel a buf lo mi l r (j + k) j k)
  unfolding merge_loop
  merge_loop-done zero a j k f v = absurd (omega arith)
  merge_loop-done (suc fuel) a j k f v =
      Returns-if (ltb j l)
        (λ more.
          let lt = ltb→lt j l more in
          Returns-bind (merge_left-HalfDone a j k v lt) λ (b, i1, t) (j', e, e1, le, turn, v').
            rw (e, e1)
              (Returns-bind (merge_right-RoundDone b j' k v')
                λ (c, i2, u) (k', e2, e3, le', grown, w).
                  let ahead : j + k < j' + k' = elim (dec_le j' j) [
                    | yes stood ↦ let kk = grown (turn stood) in omega arith
                    | no rose ↦ omega arith
                  ] in
                  rw (e2, e3)
                    (merge_loop-done fuel c j' k' (omega (arith, w.left_bound, w.right_bound)) w)))
        (λ done.
          let all : j ≡ l = omega (arith, v.left_bound, ltb-false→le j l done) in
          returns (k, rw all at v))

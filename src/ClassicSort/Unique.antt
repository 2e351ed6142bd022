-- ===== src/ClassicSort/Unique.antt =====
-- An array of `int` patterns has one ascending order: two results that hold the same items in
-- order are one array.
use armory.Common.{
  ℕ, zero, suc, ◌≤◌, ◌<◌, ◌≡◌, refl, sym, ap, ◌∙◌, List, [], ◌∷◌, arith, length, at, hit, count,
  rank, rank_injective, u32_mod,
}
use native.Mathlib.Decide.{ℕ_discrete}
use armory.ClassicSort.Spec.{IsSortOf, IsOrdered, SameItems}

-- Every entry is a pattern of 32 bits.
abbrev pub IsWords : List ℕ → Type 0
IsWords a = (i : ℕ) → i < length a → at a i < u32_mod

hit_self : (x : ℕ) → hit x x ≡ 1
unfolding hit
hit_self x = ground arith

hit_ne : (v x : ℕ) → ¬ (v ≡ x) → hit v x ≡ 0
unfolding hit
hit_ne v x h = ground arith

-- A value that occurs stands at some index.
index_of_count : (v : ℕ) (a : List ℕ) → 0 < count v a → (i : ℕ) × (i < length a) × (at a i ≡ v)
unfolding count at
index_of_count v [] h = elim h [ ]
index_of_count v (x ∷ a) h = elim (ℕ_discrete v x) [
  | yes e ↦ (0, omega arith, sym e)
  | no n ↦
      let (i, lt, e) = index_of_count v a (omega (arith, hit_ne v x n)) in (suc i, omega arith, e)
]

count-at : (a : List ℕ) (i : ℕ) → i < length a → 0 < count (at a i) a
unfolding count at
count-at [] i h = elim h [ ]
count-at (x ∷ a) zero h = omega (arith, hit_self x)
count-at (x ∷ a) (suc i) h = omega (arith, count-at a i (omega arith))

-- An array with the same items has patterns for entries too.
IsWords-items : (a r : List ℕ) → IsWords a → SameItems r a → IsWords r
IsWords-items a r w same i h =
    let there = count-at r i h in
    let (j, lt, e) = index_of_count (at r i) a (omega (arith, same (at r i))) in rw (← e) (w j lt)

-- The head of an ascending array is at most every item of it.
head-le :
    (x : ℕ) (r : List ℕ) (v : ℕ)
    → IsOrdered (x ∷ r) 0 (suc (length r))
    → 0 < count v (x ∷ r)
    → rank x ≤ rank v
unfolding at
head-le x r v s h = let (i, lt, e) = index_of_count v (x ∷ r) h in rw (← e) (first i lt)
  where
    first : (i : ℕ) → i < suc (length r) → rank x ≤ rank (at (x ∷ r) i)
    first zero lt = omega arith
    first (suc i) lt = s 0 (suc i) (omega arith) (omega arith) lt

IsOrdered-tail :
    (x : ℕ) (r : List ℕ) → IsOrdered (x ∷ r) 0 (suc (length r)) → IsOrdered r 0 (length r)
unfolding at
IsOrdered-tail x r s p q a b c = s (suc p) (suc q) (omega arith) (omega arith) (omega arith)

eq_of_ordered :
    (r s : List ℕ)
    → IsWords r
    → IsWords s
    → IsOrdered r 0 (length r)
    → IsOrdered s 0 (length s)
    → SameItems r s
    → r ≡ s
unfolding count at
eq_of_ordered [] [] wr ws or' os same = refl
eq_of_ordered [] (y ∷ s) wr ws or' os same = absurd (omega (arith, same y, hit_self y))
eq_of_ordered (x ∷ r) [] wr ws or' os same = absurd (omega (arith, same x, hit_self x))
eq_of_ordered (x ∷ r) (y ∷ s) wr ws or' os same =
    let le = head-le x r y or' (omega (arith, same y, hit_self y)) in
    let ge = head-le y s x os (omega (arith, same x, hit_self x)) in
    let heads : x ≡ y =
      rank_injective x y (wr 0 (omega arith)) (ws 0 (omega arith)) (omega arith) in
    let tails =
      eq_of_ordered r s (λ i h. wr (suc i) (omega arith)) (λ i h. ws (suc i) (omega arith))
        (IsOrdered-tail x r or') (IsOrdered-tail y s os)
        (λ v. omega (arith, same v, ap (hit v) heads)) in
    ap (λ z. z ∷ r) heads ∙ ap (◌∷◌ y) tails

-- Two arrays that are the same array of patterns put in ascending order are equal.
pub IsSortOf-unique : (a r s : List ℕ) → IsWords a → IsSortOf a r → IsSortOf a s → r ≡ s
IsSortOf-unique a r s w p q =
    eq_of_ordered r s (IsWords-items a r w p.items) (IsWords-items a s w q.items) p.ordered
      q.ordered (λ v. p.items v ∙ sym (q.items v))

-- ===== src/ClassicSort/Spec.antt =====
-- What a sort promises: the signed values ascend, and every value occurs as often as before.
use armory.Common.{
  ℕ, ◌≤◌, ◌+◌, ◌-◌, zero, suc, refl, arith, ◌<◌, ◌≡◌, List, length, at, count, rank,
}

-- Every value occurs as often in one array as in the other.
abbrev pub SameItems : List ℕ → List ℕ → Type 0
SameItems a b = (v : ℕ) → count v a ≡ count v b

-- The signed values ascend between the indices `lo` and `hi`, `hi` left out.
abbrev pub IsOrdered : List ℕ → ℕ → ℕ → Type 0
IsOrdered a lo hi = (p q : ℕ) → lo ≤ p → p < q → q < hi → rank (at a p) ≤ rank (at a q)

-- Neighbours in order are enough.
IsOrdered-run :
    (a : List ℕ) (lo hi : ℕ)
    → ((p : ℕ) → lo ≤ p → p + 1 < hi → rank (at a p) ≤ rank (at a (p + 1)))
    → (n p q : ℕ) → lo ≤ p
    → p + n + 1 ≡ q
    → q < hi
    → rank (at a p) ≤ rank (at a q)
IsOrdered-run a lo hi near zero p q l e h =
    let e' : p + 1 ≡ q = omega arith in rw (← e') (near p l (omega arith))
IsOrdered-run a lo hi near (suc n) p q l e h =
    let e' : p + n + 1 + 1 ≡ q = omega arith in
    let before = IsOrdered-run a lo hi near n p (p + n + 1) l refl (omega arith) in
    let last = near (p + n + 1) (omega arith) (omega arith) in
    rw (← e') (omega (arith, before, last))

pub IsOrdered-of_adjacent :
    (a : List ℕ) (lo hi : ℕ)
    → ((p : ℕ) → lo ≤ p → p + 1 < hi → rank (at a p) ≤ rank (at a (p + 1)))
    → IsOrdered a lo hi
IsOrdered-of_adjacent a lo hi near p q l k h =
    IsOrdered-run a lo hi near (q - p - 1) p q l (omega arith) h

-- `r` is the array `a` put in ascending order.
pub record IsSortOf (a r : List ℕ) : Type 0 where
  pub same_length : length r ≡ length a
  pub ordered : IsOrdered r 0 (length r)
  pub items : SameItems r a

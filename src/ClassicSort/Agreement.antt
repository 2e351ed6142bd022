-- ===== src/ClassicSort/Agreement.antt =====
-- The six sorts against one another.
use armory.Common.{
  ℕ, ◌+◌, ◌/◌, ◌≤◌, ◌≡◌, ap, ◌∙◌, List, true, arith, length, int_limit, Run, ok, Returns,
  Returns-inv,
}
use armory.ClassicSort.Spec.{IsSortOf}
use armory.ClassicSort.Unique.{IsWords, IsSortOf-unique}
use armory.ClassicSort.Bubble.{bubble_sort}
use armory.ClassicSort.Bubble.Sorts.{bubble_sort-IsSortOf}
use armory.ClassicSort.Select.{select_sort}
use armory.ClassicSort.Select.Sorts.{select_sort-IsSortOf}
use armory.ClassicSort.Insert.{insert_sort}
use armory.ClassicSort.Insert.Sorts.{insert_sort-IsSortOf}
use armory.ClassicSort.Shell.{shell_sort}
use armory.ClassicSort.Shell.Sorts.{shell_sort-IsSortOf}
use armory.ClassicSort.Quick.{quick_sort}
use armory.ClassicSort.Quick.Sorts.{quick_sort-IsSortOf}
use armory.ClassicSort.Merge.{merge_sort}
use armory.ClassicSort.Merge.Sorts.{merge_sort-IsSortOf}

-- A run that sorts ends in the array that any other ascending order of the items is.
Returns-same :
    (a r : List ℕ) (m : Run (List ℕ)) → IsWords a → IsSortOf a r → Returns (IsSortOf a) m → m ≡ ok r
Returns-same a r m w p h = let (s, e, q) = Returns-inv h in e ∙ ap ok (IsSortOf-unique a s r w q p)

-- On every array of `int` patterns whose indices plus the widest gap fit `int`, and with memory for
-- the buffer of `merge_sort`, all six sorts return one and the same array, and it is the input in
-- ascending order.
pub sorts_agree :
    (a : List ℕ)
    → length a + (length a / 3 + 1) ≤ int_limit
    → IsWords a
    → (r : List ℕ) × IsSortOf a r
      × (bubble_sort a (length a) ≡ ok r)
      × (select_sort a (length a) ≡ ok r)
      × (insert_sort a (length a) ≡ ok r)
      × (quick_sort a (length a) ≡ ok r)
      × (shell_sort a (length a) ≡ ok r)
      × (merge_sort true a (length a) ≡ ok r)
sorts_agree a small w =
    let (r, e, p) = Returns-inv (bubble_sort-IsSortOf a (omega arith)) in
    (
      r,
      p,
      e,
      Returns-same a r (select_sort a (length a)) w p (select_sort-IsSortOf a (omega arith)),
      Returns-same a r (insert_sort a (length a)) w p (insert_sort-IsSortOf a (omega arith)),
      Returns-same a r (quick_sort a (length a)) w p (quick_sort-IsSortOf a (omega arith)),
      Returns-same a r (shell_sort a (length a)) w p (shell_sort-IsSortOf a small),
      Returns-same a r (merge_sort true a (length a)) w p (merge_sort-IsSortOf a (omega arith)),
    )

-- ===== src/ClassicSort/Insert.antt =====
-- `insert_sort` of classic_sort/src/classic_sort.c.
pub mod Sorts
use armory.Common.{
  ℕ, zero, suc, ◌+◌, List, Run, ok, out_of_fuel, ◌>>=◌, ltb, if◌then◌else◌, add32, sub32, int_lt,
}
use armory.ClassicSort.Memory.{load, store}

-- The inner `for`: larger entries move up by one; the result is the array and the final `j`.
unfoldable pub insert_shift : ℕ → List ℕ → ℕ → ℕ → Run (List ℕ × ℕ)
insert_shift zero a tmp j = out_of_fuel
insert_shift (suc fuel) a tmp j =
    let move : Run (List ℕ × ℕ) = do
      y ← load a (sub32 j 1)
      b ← store a j y
      insert_shift fuel b tmp (sub32 j 1)
    in let test : Run (List ℕ × ℕ) = do
      x ← load a (sub32 j 1)
      if int_lt tmp x then move else ok (a, j)
      in if ltb 0 j then test else ok (a, j)

-- The outer `for`.
unfoldable pub insert_outer : ℕ → List ℕ → ℕ → ℕ → Run (List ℕ)
insert_outer zero a len i = out_of_fuel
insert_outer (suc fuel) a len i =
    let body : Run (List ℕ) = do
      tmp ← load a i
      (b, j) ← insert_shift (i + 1) a tmp i
      c ← store b j tmp
      insert_outer fuel c len (add32 i 1)
    in if ltb i len then body else ok a

unfoldable pub insert_sort : List ℕ → ℕ → Run (List ℕ)
insert_sort a len = insert_outer (len + 1) a len 1

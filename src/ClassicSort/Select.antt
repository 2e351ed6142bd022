-- ===== src/ClassicSort/Select.antt =====
-- `select_sort` of classic_sort/src/classic_sort.c.
pub mod Sorts
use armory.Common.{
  ℕ, zero, suc, ◌+◌, List, Run, ok, out_of_fuel, ◌>>=◌, not, ltb, ◌==◌, if◌then◌else◌, add32,
  int_lt,
}
use armory.ClassicSort.Memory.{load, swap_value}

-- `for (j = i + 1; j < len; j++)`, from a given `j`: the final `min_index`.
unfoldable pub select_min : ℕ → List ℕ → ℕ → ℕ → ℕ → Run ℕ
select_min zero a len min_index j = out_of_fuel
select_min (suc fuel) a len min_index j =
    let body : Run ℕ = do
      x ← load a j
      y ← load a min_index
      select_min fuel a len (if int_lt x y then j else min_index) (add32 j 1)
    in if ltb j len then body else ok min_index

-- The outer `for`, from a given `i`.
unfoldable pub select_outer : ℕ → List ℕ → ℕ → ℕ → Run (List ℕ)
select_outer zero a len i = out_of_fuel
select_outer (suc fuel) a len i =
    let body : Run (List ℕ) = do
      min_index ← select_min (len + 1) a len i (add32 i 1)
      b ← if not (min_index == i) then swap_value a i min_index else ok a
      select_outer fuel b len (add32 i 1)
    in if ltb i len then body else ok a

unfoldable pub select_sort : List ℕ → ℕ → Run (List ℕ)
select_sort a len = select_outer (len + 1) a len 0

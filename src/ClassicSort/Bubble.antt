-- ===== src/ClassicSort/Bubble.antt =====
-- `bubble_sort` of classic_sort/src/classic_sort.c.
pub mod Sorts
use armory.Common.{
  ℕ, zero, suc, ◌+◌, List, Run, ok, out_of_fuel, ◌>>=◌, ltb, if◌then◌else◌, add32, sub32, int_lt,
}
use armory.ClassicSort.Memory.{load, swap_value}

-- `while (++lo < hi)`: the array and the final `last`.
unfoldable pub bubble_pass : ℕ → List ℕ → ℕ → ℕ → ℕ → Run (List ℕ × ℕ)
bubble_pass zero a lo hi last = out_of_fuel
bubble_pass (suc fuel) a lo hi last =
    let next = add32 lo 1 in
    let exchange : Run (List ℕ × ℕ) = do
      b ← swap_value a (sub32 next 1) next
      bubble_pass fuel b next hi next
    in let keep = bubble_pass fuel a next hi last in
      let body : Run (List ℕ × ℕ) = do
        x ← load a (sub32 next 1)
        y ← load a next
        if int_lt y x then exchange else keep
      in if ltb next hi then body else ok (a, last)

-- `for ( ; lo < hi; hi = last, lo = 0)`.
unfoldable pub bubble_rounds : ℕ → List ℕ → ℕ → ℕ → Run (List ℕ)
bubble_rounds zero a lo hi = out_of_fuel
bubble_rounds (suc fuel) a lo hi =
    let body : Run (List ℕ) = do
      (b, last) ← bubble_pass (hi + 1) a lo hi lo
      bubble_rounds fuel b 0 last
    in if ltb lo hi then body else ok a

unfoldable pub bubble_sort : List ℕ → ℕ → Run (List ℕ)
bubble_sort a len = bubble_rounds (len + 1) a 0 len

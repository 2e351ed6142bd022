-- ===== src/ClassicSort/Quick.antt =====
-- `quick_recursion` and `quick_sort` of classic_sort/src/classic_sort.c. Indices are `int`: the
-- end of an empty range at the start of the array is -1.
pub mod Partition
pub mod Loops
pub mod Sorts
use armory.Common.{
  ℕ, zero, suc, ◌+◌, ℤ, pos, List, Run, ok, out_of_fuel, ◌>>=◌, not, ltz, if◌then◌else◌, int_lt,
  int_add, int_sub, to_int,
}
use armory.ClassicSort.Memory.{load_int, store_int}

-- `while (i < j && array[j] > basis) j--`: the final `j`.
unfoldable pub scan_down : ℕ → List ℕ → ℕ → ℤ → ℤ → Run ℤ
scan_down zero a basis i j = out_of_fuel
scan_down (suc fuel) a basis i j =
    let step : Run ℤ = (do j' ← int_sub j (pos 1); scan_down fuel a basis i j') in
    let test : Run ℤ = (do x ← load_int a j; if int_lt basis x then step else ok j) in
    if ltz i j then test else ok j

-- `while (i < j && array[i] < basis) i++`: the final `i`.
unfoldable pub scan_up : ℕ → List ℕ → ℕ → ℤ → ℤ → Run ℤ
scan_up zero a basis i j = out_of_fuel
scan_up (suc fuel) a basis i j =
    let step : Run ℤ = (do i' ← int_add i (pos 1); scan_up fuel a basis i' j) in
    let test : Run ℤ = (do x ← load_int a i; if int_lt x basis then step else ok i) in
    if ltz i j then test else ok i

-- `if (i < j) { array[i] = array[j]; i++; }`.
unfoldable pub move_left : List ℕ → ℤ → ℤ → Run (List ℕ × ℤ)
move_left a i j =
    let move : Run (List ℕ × ℤ) = do
      x ← load_int a j
      b ← store_int a i x
      i' ← int_add i (pos 1)
      ok (b, i')
    in if ltz i j then move else ok (a, i)

-- `if (i < j) { array[j] = array[i]; j--; }`.
unfoldable pub move_right : List ℕ → ℤ → ℤ → Run (List ℕ × ℤ)
move_right a i j =
    let move : Run (List ℕ × ℤ) = do
      x ← load_int a i
      b ← store_int a j x
      j' ← int_sub j (pos 1)
      ok (b, j')
    in if ltz i j then move else ok (a, j)

-- The outer `while (i < j)`: the array and the final `i`.
unfoldable pub partition : ℕ → List ℕ → ℕ → ℤ → ℤ → Run (List ℕ × ℤ)
partition zero a basis i j = out_of_fuel
partition (suc fuel) a basis i j =
    let body : Run (List ℕ × ℤ) = do
      j1 ← scan_down (suc fuel) a basis i j
      (b, i1) ← move_left a i j1
      i2 ← scan_up (suc fuel) b basis i1 j1
      (c, j2) ← move_right b i2 j1
      partition fuel c basis i2 j2
    in if ltz i j then body else ok (a, i)

unfoldable pub quick_recursion : ℕ → List ℕ → ℤ → ℤ → Run (List ℕ)
quick_recursion zero a start end = out_of_fuel
quick_recursion (suc fuel) a start end =
    let body : Run (List ℕ) = do
      basis ← load_int a start
      (b, i) ← partition (suc fuel) a basis start end
      c ← store_int b i basis
      before ← int_sub i (pos 1)
      d ← quick_recursion fuel c start before
      after ← int_add i (pos 1)
      quick_recursion fuel d after end
    in if not (ltz start end) then ok a else body

unfoldable pub quick_sort : List ℕ → ℕ → Run (List ℕ)
quick_sort a len = do end ← int_sub (to_int len) (pos 1); quick_recursion (len + 1) a (pos 0) end

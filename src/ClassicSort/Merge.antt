-- ===== src/ClassicSort/Merge.antt =====
-- `merger`, `merge_recursion` and `merge_sort` of classic_sort/src/classic_sort.c. The buffer is
-- a second array; `memcpy` and `calloc` are the C library's.
pub mod Step
pub mod Loop
pub mod Sorts
use armory.Common.{
  ℕ, zero, suc, ◌+◌, ◌/◌, List, [], ◌∷◌, Bool, true, false, not, Run, ok, out_of_fuel, ◌>>=◌, ltb,
  leb, ◌==◌, ◌||◌, if◌then◌else◌, int_lt, add32, sub32,
}
use armory.ClassicSort.Memory.{load, store}

-- `memcpy(dst, src + off, n * sizeof(int))`.
unfoldable pub memcpy : List ℕ → List ℕ → ℕ → ℕ → Run (List ℕ)
memcpy dst src off zero = ok dst
memcpy dst src off (suc n) = do d ← memcpy dst src off n; x ← load src (off + n); store d n x

-- `r_len <= k || l_arr[j] <= r_arr[k]`.
unfoldable pub left_test : List ℕ → List ℕ → ℕ → ℕ → ℕ → ℕ → Run Bool
left_test a buf mi r_len j k =
    let compare : Run Bool = (do x ← load buf j; y ← load a (mi + k); ok (not (int_lt y x))) in
    if leb r_len k then ok true else compare

-- `array[i++] = l_arr[j++]` under its test: the array, `i` and `j`.
unfoldable pub merge_left : List ℕ → List ℕ → ℕ → ℕ → ℕ → ℕ → ℕ → ℕ → Run (List ℕ × ℕ × ℕ)
merge_left a buf lo mi r_len i j k =
    let move : Run (List ℕ × ℕ × ℕ) = do
      x ← load buf j
      b ← store a (lo + i) x
      ok (b, add32 i 1, add32 j 1)
    in do small ← left_test a buf mi r_len j k; if small then move else ok (a, i, j)

-- `k < r_len && r_arr[k] < l_arr[j]`.
unfoldable pub right_test : List ℕ → List ℕ → ℕ → ℕ → ℕ → ℕ → Run Bool
right_test a buf mi r_len j k =
    let compare : Run Bool = (do y ← load a (mi + k); x ← load buf j; ok (int_lt y x)) in
    if ltb k r_len then compare else ok false

-- `array[i++] = r_arr[k++]` under its test: the array, `i` and `k`.
unfoldable pub merge_right : List ℕ → List ℕ → ℕ → ℕ → ℕ → ℕ → ℕ → ℕ → Run (List ℕ × ℕ × ℕ)
merge_right a buf lo mi r_len i j k =
    let move : Run (List ℕ × ℕ × ℕ) = do
      y ← load a (mi + k)
      b ← store a (lo + i) y
      ok (b, add32 i 1, add32 k 1)
    in do small ← right_test a buf mi r_len j k; if small then move else ok (a, i, k)

-- `for (i = 0, j = 0, k = 0; j < l_len; )`.
unfoldable pub merge_loop : ℕ → List ℕ → List ℕ → ℕ → ℕ → ℕ → ℕ → ℕ → ℕ → ℕ → Run (List ℕ)
merge_loop zero a buf lo mi l_len r_len i j k = out_of_fuel
merge_loop (suc fuel) a buf lo mi l_len r_len i j k =
    let body : Run (List ℕ) = do
      (b, i1, j1) ← merge_left a buf lo mi r_len i j k
      (c, i2, k1) ← merge_right b buf lo mi r_len i1 j1 k
      merge_loop fuel c buf lo mi l_len r_len i2 j1 k1
    in if ltb j l_len then body else ok a

-- The array and the buffer.
unfoldable pub merger : List ℕ → List ℕ → ℕ → ℕ → ℕ → Run (List ℕ × List ℕ)
merger a buf lo mi hi = do
  let l_len = sub32 mi lo
  let r_len = sub32 hi mi
  filled ← memcpy buf a lo l_len
  merged ← merge_loop (sub32 hi lo + 1) a filled lo mi l_len r_len 0 0 0
  ok (merged, filled)

unfoldable pub merge_recursion : ℕ → List ℕ → List ℕ → ℕ → ℕ → Run (List ℕ × List ℕ)
merge_recursion zero a buf lo hi = out_of_fuel
merge_recursion (suc fuel) a buf lo hi =
    let mi = add32 lo hi / 2 in
    let body : Run (List ℕ × List ℕ) = do
      (b, buf1) ← merge_recursion fuel a buf lo mi
      (c, buf2) ← merge_recursion fuel b buf1 mi hi
      merger c buf2 lo mi hi
    in if leb (sub32 hi lo) 1 then ok (a, buf) else body

-- `calloc` gives `n` zeros, or nothing.
unfoldable pub zeros : ℕ → List ℕ
zeros zero = []
zeros (suc n) = 0 ∷ zeros n

-- `available` says whether `calloc` finds the memory.
unfoldable pub merge_sort : Bool → List ℕ → ℕ → Run (List ℕ)
merge_sort available a len =
    let body : Run (List ℕ) = do (b, _) ← merge_recursion (len + 1) a (zeros len) 0 len; ok b
    in if (len == 0) || not available then ok a else body

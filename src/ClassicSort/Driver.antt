-- ===== src/ClassicSort/Driver.antt =====
-- classic_sort/src/main_test.c: the table of algorithms, the shuffle and the test run. Printing
-- and timing are left out; what is kept of a run is the names of the algorithms, in order.
pub mod Laws
use Prim.Native.String.{String}
use text.Mathlib.Text.{◌==◌ as str_eq}
use armory.Common.{
  ℕ, zero, suc, ◌+◌, ◌-◌, ◌%◌, List, [], ◌∷◌, ◌++◌, Bool, true, false, not, Option, none, some, Run,
  ok, out_of_fuel, ◌>>=◌, ltb, ◌==◌, if◌then◌else◌, u32_mod, add32,
}
use armory.ClassicSort.Memory.{swap_value}
use armory.ClassicSort.Bubble.{bubble_sort}
use armory.ClassicSort.Select.{select_sort}
use armory.ClassicSort.Insert.{insert_sort}
use armory.ClassicSort.Quick.{quick_sort}
use armory.ClassicSort.Shell.{shell_sort}
use armory.ClassicSort.Merge.{merge_sort}

-- `sort_t`.
pub record Algorithm : Type 0 where
  pub name : String
  pub func : List ℕ → ℕ → Run (List ℕ)

-- `g_algorithm_arr`. `memory` says whether the `calloc` of `merge_sort` finds memory; a run calls
-- that function once at most.
abbrev pub algorithms : (memory : Bool) → List Algorithm
algorithms memory =
    record { name = "bubble"; func = bubble_sort }
    ∷ record { name = "select"; func = select_sort }
    ∷ record { name = "insert"; func = insert_sort }
    ∷ record { name = "quick"; func = quick_sort }
    ∷ record { name = "shell"; func = shell_sort }
    ∷ record { name = "merger"; func = merge_sort memory }
    ∷ []

-- The `for` of `shuffling`, from a given `i`. `rand n` is what the call number `n` of `rand`
-- returns; the result also has the number of the next call.
unfoldable pub shuffle_loop : (rand : ℕ → ℕ) → ℕ → List ℕ → ℕ → ℕ → ℕ → Run (List ℕ × ℕ)
shuffle_loop rand zero a size i n = out_of_fuel
shuffle_loop rand (suc fuel) a size i n =
    let swap_index = rand n % u32_mod % size in
    let body : Run (List ℕ × ℕ) = do
      b ← if not (i == swap_index) then swap_value a swap_index i else ok a
      shuffle_loop rand fuel b size (add32 i 1) (n + 1)
    in if ltb i size then body else ok (a, n)

unfoldable pub shuffling : (rand : ℕ → ℕ) → List ℕ → ℕ → ℕ → Run (List ℕ × ℕ)
shuffling rand a size n = shuffle_loop rand (size + 1) a size 0 n

-- The search of `test_sort_func`: the table from the entry with the wanted name on.
unfoldable pub find_algorithm : String → List Algorithm → Option (List Algorithm)
find_algorithm wanted [] = none
find_algorithm wanted (x ∷ rest) =
    if str_eq wanted x.name then some (x ∷ rest) else find_algorithm wanted rest

-- From the label `resrot` on; the list is the table from entry `i` on.
unfoldable pub run_algorithms :
    (rand : ℕ → ℕ) → Bool → List Algorithm → List ℕ → ℕ → ℕ → Run (List ℕ × List String)
run_algorithms rand match [] a len n = ok (a, [])
run_algorithms rand match (x ∷ rest) a len n = do
  (b, n1) ← shuffling rand a len n
  c ← x.func b len
  let again : Run (List ℕ × List String) = do
    (d, names) ← run_algorithms rand match rest c len n1
    ok (d, x.name ∷ names)
  if match then ok (c, x.name ∷ []) else again

-- `test_sort_func`: a known name runs that algorithm alone, all else runs the whole table.
unfoldable pub test_sort_func :
    (memory : Bool) → (rand : ℕ → ℕ) → List ℕ → ℕ → Option String → ℕ → Run (List ℕ × List String)
test_sort_func memory rand a len none n = run_algorithms rand false (algorithms memory) a len n
test_sort_func memory rand a len (some wanted) n =
    elim (find_algorithm wanted (algorithms memory)) [
      | none ↦ run_algorithms rand false (algorithms memory) a len n
      | some rest ↦ run_algorithms rand true rest a len n
    ]

-- ===== src/ClassicSort/Shell.antt =====
-- `shell_sort` of classic_sort/src/classic_sort.c. Its variables are `int`, so `k` may be
-- negative, and sums that leave the type are faults.
pub mod Insertion
pub mod Sorts
use armory.Common.{
  ℕ, zero, suc, ◌+◌, ℤ, pos, [], ◌∷◌, rank, ◌≡◌, refl, List, Run, ok, out_of_fuel, ◌>>=◌, not, ltz,
  if◌then◌else◌, int_lt, int_add, int_sub, div_trunc, to_int,
}
use armory.ClassicSort.Memory.{load, store, load_int, store_int}

-- `for (k = j - rule; k >= 0 && tmp < array[k]; k -= rule)`, from a given `k`.
unfoldable pub shell_shift : ℕ → List ℕ → ℕ → ℤ → ℤ → Run (List ℕ × ℤ)
shell_shift zero a tmp rule k = out_of_fuel
shell_shift (suc fuel) a tmp rule k =
    let move : Run (List ℕ × ℤ) = do
      x ← load_int a k
      t ← int_add k rule
      b ← store_int a t x
      k' ← int_sub k rule
      shell_shift fuel b tmp rule k'
    in let test : Run (List ℕ × ℤ) = do x ← load_int a k; if int_lt tmp x then move else ok (a, k)
      in if not (ltz k (pos 0)) then test else ok (a, k)

-- The body of the `for` over `j`.
unfoldable pub shell_insert : List ℕ → ℕ → ℤ → ℤ → Run (List ℕ)
shell_insert a len rule j =
    let move : Run (List ℕ) = do
      tmp ← load_int a j
      k ← int_sub j rule
      (b, k') ← shell_shift (len + 1) a tmp rule k
      t ← int_add k' rule
      store_int b t tmp
    in do x ← load_int a j; p ← int_sub j rule; y ← load_int a p; if int_lt x y then move else ok a

-- `for (j = i + rule; j < (int)len; j += rule)`, from a given `j`.
unfoldable pub shell_class : ℕ → List ℕ → ℕ → ℤ → ℤ → Run (List ℕ)
shell_class zero a len rule j = out_of_fuel
shell_class (suc fuel) a len rule j =
    let body : Run (List ℕ) = do
      b ← shell_insert a len rule j
      j' ← int_add j rule
      shell_class fuel b len rule j'
    in if ltz j (to_int len) then body else ok a

-- `for (i = 0; i < rule; i++)`, from a given `i`.
unfoldable pub shell_pass : ℕ → List ℕ → ℕ → ℤ → ℤ → Run (List ℕ)
shell_pass zero a len rule i = out_of_fuel
shell_pass (suc fuel) a len rule i =
    let body : Run (List ℕ) = do
      j ← int_add i rule
      b ← shell_class (len + 2) a len rule j
      i' ← int_add i (pos 1)
      shell_pass fuel b len rule i'
    in if ltz i rule then body else ok a

-- `do { rule = rule / 3 + 1; ... } while (rule > 1)`.
unfoldable pub shell_rounds : ℕ → List ℕ → ℕ → ℤ → Run (List ℕ)
shell_rounds zero a len rule = out_of_fuel
shell_rounds (suc fuel) a len rule = do
  next ← int_add (div_trunc rule 3) (pos 1)
  b ← shell_pass (len + 2) a len next (pos 0)
  let again = shell_rounds fuel b len next
  if ltz (pos 1) next then again else ok b

unfoldable pub shell_sort : List ℕ → ℕ → Run (List ℕ)
shell_sort a len = shell_rounds (len + 1) a len (to_int len)

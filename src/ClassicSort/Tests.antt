-- ===== src/ClassicSort/Tests.antt =====
-- Runs of classic_sort/src/classic_sort.c and classic_sort/src/main_test.c on a small array, and
-- the theorems at it.
use armory.Common.{
  ℕ, zero, suc, ◌+◌, ◌*◌, ◌≡◌, refl, List, [], ◌∷◌, some, true, false, arith, set, at, rank, to_int,
  int_lt, int_add, int_sub, ltz, div_trunc, add32, sub32, ok, fault, Returns,
}
use armory.ClassicSort.Memory.{
  load, store, load_int, store_int, xor_assign, swap_value, swapped, swap_value-ok, swap_value_self,
}
use armory.ClassicSort.Spec.{IsSortOf}
use armory.ClassicSort.Unique.{IsWords}
use armory.ClassicSort.Bubble.{bubble_pass, bubble_rounds, bubble_sort}
use armory.ClassicSort.Bubble.Sorts.{bubble_sort-IsSortOf}
use armory.ClassicSort.Select.{select_min, select_outer, select_sort}
use armory.ClassicSort.Select.Sorts.{select_sort-IsSortOf}
use armory.ClassicSort.Insert.{insert_shift, insert_outer, insert_sort}
use armory.ClassicSort.Insert.Sorts.{insert_sort-IsSortOf}
use armory.ClassicSort.Shell.{
  shell_shift, shell_insert, shell_class, shell_pass, shell_rounds, shell_sort,
}
use armory.ClassicSort.Shell.Sorts.{shell_sort-IsSortOf}
use armory.ClassicSort.Quick.{
  scan_down, scan_up, move_left, move_right, partition, quick_recursion, quick_sort,
}
use armory.ClassicSort.Quick.Sorts.{quick_sort-IsSortOf}
use armory.ClassicSort.Merge.{
  memcpy, left_test, merge_left, right_test, merge_right, merge_loop, merger, merge_recursion,
  zeros, merge_sort,
}
use armory.ClassicSort.Merge.Sorts.{merge_sort-IsSortOf, merge_sort_no_memory}
use armory.ClassicSort.Agreement.{sorts_agree}
use armory.ClassicSort.Driver.{shuffling, test_sort_func}
use armory.ClassicSort.Driver.Laws.{ShuffleDone, shuffling-Shuffled, Selected, test_sort_func-sorts}

-- 5, 2, -1, 2, 0, 7.
abbrev sample : List ℕ
sample = 5 ∷ 2 ∷ 4294967295 ∷ 2 ∷ 0 ∷ 7 ∷ []

abbrev ascending : List ℕ
ascending = 4294967295 ∷ 0 ∷ 2 ∷ 2 ∷ 5 ∷ 7 ∷ []

-- A stand-in for `rand`.
abbrev steps_of_seven : ℕ → ℕ
steps_of_seven n = 7 * n + 3

bubble_sort_run : bubble_sort sample 6 ≡ ok ascending
unfolding bubble_sort bubble_rounds bubble_pass swap_value xor_assign load store int_lt rank add32
    sub32
bubble_sort_run = refl

select_sort_run : select_sort sample 6 ≡ ok ascending
unfolding select_sort select_outer select_min swap_value xor_assign load store int_lt rank add32
select_sort_run = refl

insert_sort_run : insert_sort sample 6 ≡ ok ascending
unfolding insert_sort insert_outer insert_shift load store int_lt rank add32 sub32
insert_sort_run = refl

shell_sort_run : shell_sort sample 6 ≡ ok ascending
unfolding shell_sort shell_rounds shell_pass shell_class shell_insert shell_shift load_int store_int
    load store int_add int_sub div_trunc ltz int_lt to_int rank
shell_sort_run = refl

quick_sort_run : quick_sort sample 6 ≡ ok ascending
unfolding quick_sort quick_recursion partition scan_down scan_up move_left move_right load_int
    store_int load store int_add int_sub ltz int_lt to_int rank
quick_sort_run = refl

merge_sort_run : merge_sort true sample 6 ≡ ok ascending
unfolding merge_sort merge_recursion merger merge_loop merge_left merge_right left_test right_test
    memcpy zeros load store int_lt rank add32 sub32
merge_sort_run = refl

-- A length beyond the array is an access outside it.
insert_sort_outside : insert_sort (2 ∷ 1 ∷ []) 3 ≡ fault
unfolding insert_sort insert_outer insert_shift load store int_lt rank add32 sub32
insert_sort_outside = refl

sample-IsWords : IsWords sample
unfolding at
sample-IsWords zero h = omega arith
sample-IsWords (suc zero) h = omega arith
sample-IsWords (suc (suc zero)) h = omega arith
sample-IsWords (suc (suc (suc zero))) h = omega arith
sample-IsWords (suc (suc (suc (suc zero)))) h = omega arith
sample-IsWords (suc (suc (suc (suc (suc zero))))) h = omega arith
sample-IsWords (suc (suc (suc (suc (suc (suc i)))))) h = absurd (omega arith)

sorts_agree_example :
    (r : List ℕ) × IsSortOf sample r
    × (bubble_sort sample 6 ≡ ok r)
    × (select_sort sample 6 ≡ ok r)
    × (insert_sort sample 6 ≡ ok r)
    × (quick_sort sample 6 ≡ ok r)
    × (shell_sort sample 6 ≡ ok r)
    × (merge_sort true sample 6 ≡ ok r)
sorts_agree_example = sorts_agree sample (omega arith) sample-IsWords

test_sort_func-sorts_example :
    Returns
      (λ r. IsSortOf sample r.0 × Selected (some "quick") r.1)
      (test_sort_func true steps_of_seven sample 6 (some "quick") 0)
test_sort_func-sorts_example =
    test_sort_func-sorts steps_of_seven sample (some "quick") 0 (omega arith)

shuffling-Shuffled_run : Returns (ShuffleDone sample) (shuffling steps_of_seven sample 6 0)
shuffling-Shuffled_run = shuffling-Shuffled steps_of_seven sample 0 (omega arith)

bubble_sort-IsSortOf_run : Returns (IsSortOf sample) (bubble_sort sample 6)
bubble_sort-IsSortOf_run = bubble_sort-IsSortOf sample (omega arith)

select_sort-IsSortOf_example : Returns (IsSortOf sample) (select_sort sample 6)
select_sort-IsSortOf_example = select_sort-IsSortOf sample (omega arith)

insert_sort-IsSortOf_example : Returns (IsSortOf sample) (insert_sort sample 6)
insert_sort-IsSortOf_example = insert_sort-IsSortOf sample (omega arith)

shell_sort-IsSortOf_example : Returns (IsSortOf sample) (shell_sort sample 6)
shell_sort-IsSortOf_example = shell_sort-IsSortOf sample (omega arith)

quick_sort-IsSortOf_example : Returns (IsSortOf sample) (quick_sort sample 6)
quick_sort-IsSortOf_example = quick_sort-IsSortOf sample (omega arith)

merge_sort-IsSortOf_example : Returns (IsSortOf sample) (merge_sort true sample 6)
merge_sort-IsSortOf_example = merge_sort-IsSortOf sample (omega arith)

merge_sort_no_memory_run : merge_sort false sample 6 ≡ ok sample
merge_sort_no_memory_run = merge_sort_no_memory sample 6

swap_value-ok_run : swap_value sample 0 2 ≡ ok (swapped sample 0 2)
swap_value-ok_run = swap_value-ok sample 0 2 (omega arith) (omega arith) (omega arith)

swap_value_self_run : swap_value sample 0 0 ≡ ok (set sample 0 0)
swap_value_self_run = swap_value_self sample 0 (omega arith)

-- ===== src/ClassicSort/Driver/Laws.antt =====
-- The shuffle permutes, and a test run leaves a sorted array whatever `rand` returns.
use Prim.Native.String.{String}
use text.Mathlib.Text.{◌==◌ as str_eq}
use text.Mathlib.TextEquality.{eq_iff}
use native.Mathlib.Nat.{mod-lt}
use armory.Common.{
  ℕ, zero, suc, ◌+◌, ◌-◌, ◌/◌, ◌%◌, ◌≤◌, ◌<◌, ◌≡◌, ◌≢◌, refl, sym, ap, ◌∙◌, List, [], ◌∷◌, true,
  false, Option, none, some, arith, inl, inr, ◌⊎◌, length, Run, ◌>>=◌, Returns, returns,
  Returns-bind, Returns-if, Returns-map, ltb, ◌==◌, ltb→lt, u32_mod, int_limit, add32_small,
  Bool-cases,
}
use armory.ClassicSort.Memory.{swap_value-ok, swapped, length-swapped, count-swapped}
use armory.ClassicSort.Spec.{IsSortOf, SameItems}
use armory.ClassicSort.Bubble.Sorts.{bubble_sort-IsSortOf}
use armory.ClassicSort.Select.Sorts.{select_sort-IsSortOf}
use armory.ClassicSort.Insert.Sorts.{insert_sort-IsSortOf}
use armory.ClassicSort.Quick.Sorts.{quick_sort-IsSortOf}
use armory.ClassicSort.Shell.Sorts.{shell_sort-IsSortOf}
use armory.ClassicSort.Merge.Sorts.{merge_sort-IsSortOf}
use armory.ClassicSort.Driver.{
  Algorithm, algorithms, shuffle_loop, shuffling, find_algorithm, run_algorithms, test_sort_func,
}

-- A permutation of the array, whatever order it is in.
pub record Shuffled (a0 r : List ℕ) : Type 0 where
  pub same_length : length r ≡ length a0
  pub items : SameItems r a0

abbrev pub ShuffleDone : List ℕ → List ℕ × ℕ → Type 0
ShuffleDone a0 r = Shuffled a0 r.0

shuffle_loop-Shuffled :
    (rand : ℕ → ℕ) (fuel : ℕ) (a0 a : List ℕ) (i n : ℕ)
    → length a0 - i < fuel
    → length a0 < u32_mod
    → Shuffled a0 a
    → Returns (ShuffleDone a0) (shuffle_loop rand fuel a (length a0) i n)
unfolding shuffle_loop
shuffle_loop-Shuffled rand zero a0 a i n f w v = absurd (omega arith)
shuffle_loop-Shuffled rand (suc fuel) a0 a i n f w v =
    Returns-if (ltb i (length a0))
      (λ more.
        let lt = ltb→lt i (length a0) more in
        let m = rand n % u32_mod % length a0 in
        let hm : m < length a =
          omega (arith, mod-lt (rand n % u32_mod) {m = length a0}, v.same_length) in
        let hi : i < length a = omega (arith, v.same_length) in
        rw (add32_small i 1 (omega arith)) (elim (Bool-cases (i == m)) [
          | inl one ↦
              rw one (shuffle_loop-Shuffled rand fuel a0 a (i + 1) (n + 1) (omega arith) w v)
          | inr two ↦
              let ne : m ≢ i = ground arith in
              rw (two, swap_value-ok a m i hm hi ne)
                (shuffle_loop-Shuffled rand fuel a0 (swapped a m i) (i + 1) (n + 1) (omega arith) w
                  (record {
                    same_length = length-swapped a m i hm hi ∙ v.same_length;
                    items = λ x. count-swapped a m i hm hi x ∙ v.items x;
                  }))
        ]))
      (λ done. returns v)

-- For every sequence of random numbers `shuffling` returns, makes no access outside the array,
-- and leaves a permutation of it.
pub shuffling-Shuffled :
    (rand : ℕ → ℕ) (a : List ℕ) (n : ℕ)
    → length a < u32_mod
    → Returns (ShuffleDone a) (shuffling rand a (length a) n)
unfolding shuffling
shuffling-Shuffled rand a n w =
    shuffle_loop-Shuffled rand (length a + 1) a a 0 n (omega arith) w
      (record { same_length = refl; items = λ v. refl })

-- The table's functions sort.
abbrev Sorts : Algorithm → Type 0
Sorts x =
    (a : List ℕ)
    → length a + (length a / 3 + 1) ≤ int_limit
    → Returns (IsSortOf a) (x.func a (length a))

abbrev AllSort : List Algorithm → Type 0
AllSort [] = Unit {0}
AllSort (x ∷ rest) = Sorts x × AllSort rest

algorithms-AllSort : AllSort (algorithms true)
algorithms-AllSort = (
  (λ a w. bubble_sort-IsSortOf a (omega arith)),
  (
    (λ a w. select_sort-IsSortOf a (omega arith)),
    (
      (λ a w. insert_sort-IsSortOf a (omega arith)),
      (
        (λ a w. quick_sort-IsSortOf a (omega arith)),
        (shell_sort-IsSortOf, ((λ a w. merge_sort-IsSortOf a (omega arith)), tt)),
      ),
    ),
  ),
)

-- A run with the wanted result: the array is sorted, and `names` is what was run.
abbrev RunDone : List ℕ → List String → List ℕ × List String → Type 0
RunDone a0 names r = IsSortOf a0 r.0 × (r.1 ≡ names)

abbrev names_of : List Algorithm → List String
names_of [] = []
names_of (x ∷ rest) = x.name ∷ names_of rest

-- Sorting a permutation of an array sorts the array.
IsSortOf-Shuffled : (a0 b c : List ℕ) → Shuffled a0 b → IsSortOf b c → IsSortOf a0 c
IsSortOf-Shuffled a0 b c s p = record {
  same_length = p.same_length ∙ s.same_length;
  ordered = p.ordered;
  items = λ v. p.items v ∙ s.items v;
}

-- The table has an entry of that name.
abbrev pub Listed : String → List Algorithm → Type 0
Listed wanted [] = ⊥
Listed wanted (x ∷ rest) = (wanted ≡ x.name) ⊎ Listed wanted rest

-- What a search that starts anywhere in the table finds.
abbrev Found : String → List Algorithm → Option (List Algorithm) → Type 0
Found wanted table none = ¬ Listed wanted table
Found wanted table (some found) =
    (x : Algorithm) × (rest : List Algorithm) × (found ≡ x ∷ rest)
    × (x.name ≡ wanted)
    × Sorts x
    × Listed wanted table

true_or_false : true ≡ false → ⊥
true_or_false e = cc

Found-later :
    (wanted : String) (x : Algorithm) (rest : List Algorithm)
    → ¬ (wanted ≡ x.name)
    → (o : Option (List Algorithm)) → Found wanted rest o
    → Found wanted (x ∷ rest) o
Found-later wanted x rest ne none h = λ l. elim l [ inl e ↦ ne e | inr later ↦ h later ]
Found-later wanted x rest ne (some found) (y, tail, e, n, s, l) = (y, tail, e, n, s, inr l)

find_algorithm-Found :
    (wanted : String) (table : List Algorithm)
    → AllSort table
    → Found wanted table (find_algorithm wanted table)
unfolding find_algorithm
find_algorithm-Found wanted [] sorts = λ h. h
find_algorithm-Found wanted (x ∷ rest) sorts = elim (Bool-cases (str_eq wanted x.name)) [
  | inl hit ↦ let e = (eq_iff wanted x.name).0 hit in rw hit (x, rest, refl, sym e, sorts.0, inl e)
  | inr miss ↦
      let ne : ¬ (wanted ≡ x.name) = λ e. true_or_false (sym ((eq_iff wanted x.name).1 e) ∙ miss) in
      rw miss (
        Found-later wanted x rest ne (find_algorithm wanted rest)
          (find_algorithm-Found wanted rest sorts.1))
]

module _ (rand : ℕ → ℕ) (a0 : List ℕ) (small : length a0 + (length a0 / 3 + 1) ≤ int_limit) where
  -- The shuffle and the sort of one entry of the table.
  one_sort :
      (x : Algorithm) (a : List ℕ) (n : ℕ)
      → Sorts x
      → Shuffled a0 a
      → {Q : List ℕ × List String → Type 0} (next : List ℕ → ℕ → Run (List ℕ × List String))
      → ((c : List ℕ) (m : ℕ) → IsSortOf a0 c → Returns Q (next c m))
      → Returns Q
          (shuffling rand a (length a0) n >>= λ t. x.func t.0 (length a0) >>= λ c. next c t.1)
  one_sort x a n sorts v next k =
      Returns-bind
        (rw v.same_length at (shuffling-Shuffled rand a n (omega (arith, v.same_length))))
        λ (b, m) w.
          let s : Shuffled a0 b = record {
            same_length = w.same_length ∙ v.same_length;
            items = λ y. w.items y ∙ v.items y;
          } in
          Returns-bind (rw s.same_length at (sorts b (omega (arith, s.same_length))))
            λ c p. k c m (IsSortOf-Shuffled a0 b c s p)

  run_one :
      (x : Algorithm) (rest : List Algorithm) (a : List ℕ) (n : ℕ)
      → Sorts x
      → Shuffled a0 a
      → Returns (RunDone a0 (x.name ∷ [])) (run_algorithms rand true (x ∷ rest) a (length a0) n)
  unfolding run_algorithms
  run_one x rest a n sorts v = one_sort x a n sorts v _ (λ c m p. returns (p, refl))

  run_all :
      (x : Algorithm) (rest : List Algorithm) (a : List ℕ) (n : ℕ)
      → AllSort (x ∷ rest)
      → Shuffled a0 a
      → Returns
          (RunDone a0 (names_of (x ∷ rest)))
          (run_algorithms rand false (x ∷ rest) a (length a0) n)
  unfolding run_algorithms
  run_all x [] a n sorts v = one_sort x a n sorts.0 v _ (λ c m p. returns (p, refl))
  run_all x (y ∷ rest) a n sorts v = one_sort x a n sorts.0 v _ λ c m p.
      Returns-bind
        (run_all y rest c m sorts.1 (record { same_length = p.same_length; items = p.items }))
        λ (d, names) (q, e). returns (q, ap (◌∷◌ x.name) e)

-- The algorithms that `test_sort_func` is to run for the name that it is given.
abbrev pub Selected : Option String → List String → Type 0
Selected none names = names ≡ names_of (algorithms true)
Selected (some wanted) names =
    (Listed wanted (algorithms true) × (names ≡ wanted ∷ []))
    ⊎ ((¬ Listed wanted (algorithms true)) × (names ≡ names_of (algorithms true)))

-- If `merge_sort` finds memory, a test run over an array whose indices plus the widest gap fit `int`
-- returns for every sequence of random numbers, and leaves the array in ascending order with the same items. It runs the
-- algorithm of the given name alone if the table lists it, and otherwise the whole table in order.
pub test_sort_func-sorts :
    (rand : ℕ → ℕ) (a : List ℕ) (algorithm : Option String) (n : ℕ)
    → length a + (length a / 3 + 1) ≤ int_limit
    → Returns
        (λ r. IsSortOf a r.0 × Selected algorithm r.1)
        (test_sort_func true rand a (length a) algorithm n)
unfolding test_sort_func
test_sort_func-sorts rand a none n small =
    run_all rand a small _ _ a n algorithms-AllSort
      (record { same_length = refl; items = λ v. refl })
test_sort_func-sorts rand a (some wanted) n small =
    selected (find_algorithm wanted (algorithms true))
      (find_algorithm-Found wanted (algorithms true) algorithms-AllSort)
  where
    start : Shuffled a a
    start = record { same_length = refl; items = λ v. refl }

    selected :
        (o : Option (List Algorithm))
        → Found wanted (algorithms true) o
        → Returns {A = List ℕ × List String}
            (λ r. IsSortOf a r.0 × Selected (some wanted) r.1)
            (elim o [
              | none ↦ run_algorithms rand false (algorithms true) a (length a) n
              | some rest ↦ run_algorithms rand true rest a (length a) n
            ])
    selected none missing =
        Returns-map (run_all rand a small _ _ a n algorithms-AllSort start)
          (λ r (p, e). (p, inr (missing, e)))
    selected (some found) (x, rest, e, name, sorts, listed) = rw e (
        Returns-map (run_one rand a small x rest a n sorts start)
          (λ r (p, e'). (p, inl (listed, e' ∙ ap (λ t. t ∷ []) name))))

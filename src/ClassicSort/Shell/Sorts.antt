-- ===== src/ClassicSort/Shell/Sorts.antt =====
-- The loops of `shell_sort`: a pass with gap `g` puts all classes modulo `g` in order, and the
-- last pass has gap 1.
use armory.Common.{
  ℕ, zero, suc, ◌+◌, ◌-◌, ◌/◌, ◌%◌, ◌≤◌, ◌<◌, ◌≡◌, ◌≢◌, refl, sym, ◌∙◌, List, arith, length, at,
  pos, Returns, returns, Returns-bind, Returns-if, ltb, ltb→lt, ltb-false→le, rank, ltz-pos,
  int_limit, int_add-pos, to_int-pos, div_trunc,
}
use native.Mathlib.Nat.{add-mod_right, mod-eq_of_lt, mod-lt}
use native.Mathlib.Decide.{ℕ_discrete}
use armory.ClassicSort.Spec.{IsSortOf, IsOrdered-of_adjacent, SameItems}
use armory.ClassicSort.Shift.{Inserted}
use armory.ClassicSort.Shell.{shell_class, shell_pass, shell_rounds, shell_sort}
use armory.ClassicSort.Shell.Insertion.{shell_insert-Inserted, same_class_gap}

div_trunc-pos : (n d : ℕ) → div_trunc (pos n) d ≡ pos (n / d)
unfolding div_trunc
div_trunc-pos n d = refl

-- The class of `c` modulo `g` ascends below the index `j`.
abbrev ClassOrdered : ℕ → List ℕ → ℕ → ℕ → Type 0
ClassOrdered g a c j = (p : ℕ) → p % g ≡ c → p + g < j → rank (at a p) ≤ rank (at a (p + g))

-- A permutation of `a0` that differs from it only in the class of `c`.
record OnlyClass (g : ℕ) (a0 : List ℕ) (c : ℕ) (a : List ℕ) : Type 0 where
  same_length : length a ≡ length a0
  items : SameItems a a0
  others : (p : ℕ) → p % g ≢ c → at a p ≡ at a0 p

abbrev ClassDone : ℕ → List ℕ → ℕ → List ℕ → Type 0
ClassDone g a0 c r = OnlyClass g a0 c r × ClassOrdered g r c (length r)

ClassOrdered-advance :
    (g : ℕ) (a b : List ℕ) (j : ℕ) → 0 < g → Inserted g a j b → ClassOrdered g b (j % g) (j + g)
ClassOrdered-advance g a b j gap done p c q =
    done.ordered p c (same_class_gap g p j gap c (omega arith))

shell_class-done :
    (fuel g : ℕ) (a0 a : List ℕ) (c j : ℕ)
    → length a0 - j < fuel
    → 0 < g
    → g ≤ j
    → j % g ≡ c
    → length a0 + g ≤ int_limit
    → OnlyClass g a0 c a
    → ClassOrdered g a c j
    → Returns (ClassDone g a0 c) (shell_class fuel a (length a0) (pos g) (pos j))
unfolding shell_class
shell_class-done zero g a0 a c j f gap le e w only sorted = absurd (omega arith)
shell_class-done (suc fuel) g a0 a c j f gap le e w only sorted =
    rw (to_int-pos (length a0) (omega arith), ltz-pos j (length a0))
      (Returns-if (ltb j (length a0))
        (λ more.
          let hj : j < length a = omega (arith, ltb→lt j (length a0) more, only.same_length) in
          let same = only.same_length in
          Returns-bind
            (rw same at
              (shell_insert-Inserted g a j gap le hj (omega arith) (λ p c' q. sorted p (c' ∙ e) q)))
            (λ b done.
              let now : OnlyClass g a0 c b = record {
                same_length = done.same_length ∙ same;
                items = λ v. done.items v ∙ only.items v;
                others = λ p n. done.others p (λ q. n (q ∙ e)) ∙ only.others p n;
              } in
              let class : (j + g) % g ≡ c = add-mod_right j g ∙ e in
              rw (int_add-pos j g (omega arith)) (
                shell_class-done fuel g a0 b c (j + g) (omega arith) gap (omega arith) class w now
                  (λ p c' q. ClassOrdered-advance g a b j gap done p (c' ∙ sym e) q))))
        (λ past. returns (
          only,
          λ p c' q. sorted p c' (omega (arith, only.same_length, ltb-false→le j (length a0) past)),
        )))

-- The classes below `i` modulo the gap ascend.
record PassInv (g : ℕ) (a0 a : List ℕ) (i : ℕ) : Type 0 where
  same_length : length a ≡ length a0
  items : SameItems a a0
  ordered : (p : ℕ) → p % g < i → p + g < length a → rank (at a p) ≤ rank (at a (p + g))

-- One class more.
PassInv-advance :
    (g : ℕ) (a0 a b : List ℕ) (i : ℕ)
    → PassInv g a0 a i
    → ClassDone g a i b
    → i < g
    → PassInv g a0 b (i + 1)
PassInv-advance g a0 a b i v (only, sorted) lt = record {
  same_length = only.same_length ∙ v.same_length;
  items = λ x. only.items x ∙ v.items x;
  ordered = λ p c q. elim (ℕ_discrete (p % g) i) [
    | yes e ↦ sorted p e q
    | no n ↦
        let n' : (p + g) % g ≢ i = λ e. n (sym (add-mod_right p g) ∙ e) in
        rw (only.others p n, only.others (p + g) n')
          (v.ordered p (omega arith) (omega (arith, only.same_length)))
  ];
}

-- No index of a class stands below the first one.
first : (g p i : ℕ) → p % g ≡ i → p < i → i < g → ⊥
first g p i c lt lt' = omega (arith, mod-eq_of_lt {n = p} {m = g} (omega arith))

-- A whole pass leaves a permutation whose every entry is at most the one a gap further on.
record GapSorted (g : ℕ) (a0 r : List ℕ) : Type 0 where
  same_length : length r ≡ length a0
  items : SameItems r a0
  ordered : (p : ℕ) → p + g < length r → rank (at r p) ≤ rank (at r (p + g))

shell_pass-GapSorted :
    (fuel g : ℕ) (a0 a : List ℕ) (i : ℕ)
    → g - i < fuel
    → 0 < g
    → length a0 + g ≤ int_limit
    → g + g ≤ int_limit
    → PassInv g a0 a i
    → Returns (GapSorted g a0) (shell_pass fuel a (length a0) (pos g) (pos i))
unfolding shell_pass
shell_pass-GapSorted zero g a0 a i f gap w q v = absurd (omega arith)
shell_pass-GapSorted (suc fuel) g a0 a i f gap w q v = rw (ltz-pos i g) (
    Returns-if (ltb i g)
      (λ more.
        let lt = ltb→lt i g more in
        let class : (i + g) % g ≡ i = add-mod_right i g ∙ mod-eq_of_lt lt in
        let same = v.same_length in
        let start : OnlyClass g a i a = record {
          same_length = refl;
          items = λ x. refl;
          others = λ p n. refl;
        } in
        rw (int_add-pos i g (omega arith), int_add-pos i 1 (omega arith))
          (Returns-bind
            (rw same at (
              shell_class-done (length a + 2) g a a i (i + g) (omega arith) gap (omega arith) class
                (omega arith) start (λ p c r. absurd (first g p i c (omega arith) lt))))
            (λ b done.
              shell_pass-GapSorted fuel g a0 b (i + 1) (omega arith) gap w q
                (PassInv-advance g a0 a b i v done lt))))
      (λ past. returns (record {
        same_length = v.same_length;
        items = v.items;
        ordered = λ p r. v.ordered p (omega (arith, mod-lt p gap, ltb-false→le i g past)) r;
      })))

shell_rounds-IsSortOf :
    (fuel : ℕ) (a0 a : List ℕ) (g : ℕ)
    → g < fuel
    → g ≤ length a0
    → length a0 + (length a0 / 3 + 1) ≤ int_limit
    → length a ≡ length a0
    → SameItems a a0
    → Returns (IsSortOf a0) (shell_rounds fuel a (length a0) (pos g))
unfolding shell_rounds
shell_rounds-IsSortOf zero a0 a g f le w same items = absurd (omega arith)
shell_rounds-IsSortOf (suc fuel) a0 a g f le w same items =
    let n = g / 3 + 1 in
    rw (div_trunc-pos g 3, int_add-pos (g / 3) 1 (omega arith))
      (Returns-bind
        (rw same at (
          shell_pass-GapSorted (length a + 2) n a a 0 (omega arith) (omega arith) (omega arith)
            (omega arith)
            (record {
              same_length = refl;
              items = λ x. refl;
              ordered = λ p c. absurd (omega arith);
            })))
        (λ b done. rw (ltz-pos 1 n) (
          Returns-if (ltb 1 n)
            (λ more.
              shell_rounds-IsSortOf fuel a0 b n (omega (arith, ltb→lt 1 n more))
                (omega (arith, ltb→lt 1 n more)) w (done.same_length ∙ same)
                (λ x. done.items x ∙ items x))
            (λ last. returns (record {
              same_length = done.same_length ∙ same;
              ordered = IsOrdered-of_adjacent b 0 (length b) (λ p _ q.
                  let one : n ≡ 1 = omega (arith, ltb-false→le 1 n last) in
                  rw one at (done.ordered p (omega (arith, one, q))));
              items = λ x. done.items x ∙ items x;
            })))))

-- For every array whose indices plus the widest gap fit `int`, `shell_sort` returns, makes no
-- access outside the array and no overflow, and leaves it in ascending order with the same items.
pub shell_sort-IsSortOf :
    (a : List ℕ)
    → length a + (length a / 3 + 1) ≤ int_limit
    → Returns (IsSortOf a) (shell_sort a (length a))
unfolding shell_sort
shell_sort-IsSortOf a w = rw (to_int-pos (length a) (omega arith)) (
    shell_rounds-IsSortOf (length a + 1) a a (length a) (omega arith) (omega arith) w refl
      (λ v. refl))

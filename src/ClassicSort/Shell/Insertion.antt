-- ===== src/ClassicSort/Shell/Insertion.antt =====
-- The inner `for` of `shell_sort` and the statement round it: one entry goes to its place in
-- the class of indices that are equal modulo the gap.
use armory.Common.{
  ℕ, zero, suc, ◌+◌, ◌-◌, ◌%◌, ◌≤◌, ◌<◌, ◌≡◌, refl, sym, ap, ◌∙◌, inl, inr, List, arith, length,
  set, length-set, at, ℤ, pos, negsuc, ok, Returns, returns, Returns-bind, Returns-if, leb,
  if◌then◌else◌, rank, int_lt, int_lt→lt, int_lt-false→le, ltz, int_add, int_sub, int_limit,
  int_add-pos, int_sub-pos, int_sub-negsuc, int_add-back, ltz-pos, ltz-negsuc, le→ltb-false,
  Bool-cases, leb→le, leb-false→lt, false,
}
use armory.ClassicSort.Memory.{load_int-ok, store_int-ok}
use armory.ClassicSort.Shift.{ShiftInv, Inserted, ShiftInv-start, ShiftInv-step, Inserted-stop}
use armory.ClassicSort.Shell.{shell_shift, shell_insert}

-- The value of `k` while the hole is at `h`.
pub below_hole : ℕ → ℕ → ℤ
below_hole h g = if leb g h then pos (h - g) else negsuc (g - h - 1)

below_hole-pos : (h g : ℕ) → g ≤ h → below_hole h g ≡ pos (h - g)
unfolding below_hole
below_hole-pos h g le = ground arith

below_hole-neg : (h g : ℕ) → h < g → below_hole h g ≡ negsuc (g - h - 1)
unfolding below_hole
below_hole-neg h g lt = ground arith

pub int_sub-below_hole :
    (h g : ℕ) → h < int_limit → g ≤ int_limit → int_sub (pos h) (pos g) ≡ ok (below_hole h g)
int_sub-below_hole h g p q = elim (Bool-cases (leb g h)) [
  | inl le ↦ rw (below_hole-pos h g (leb→le g h le)) (int_sub-pos h g (leb→le g h le) p)
  | inr gt ↦
      rw (below_hole-neg h g (leb-false→lt g h gt)) (int_sub-negsuc h g (leb-false→lt g h gt) q)
]

int_add-under : (h g : ℕ) → g ≤ h → h < int_limit → int_add (pos (h - g)) (pos g) ≡ ok (pos h)
int_add-under h g le q =
    let e : h - g + g ≡ h = omega arith in
    int_add-pos (h - g) g (omega arith) ∙ ap (λ t. ok (pos t)) e

int_add-below_hole :
    (h g : ℕ) → h < int_limit → g < int_limit → int_add (below_hole h g) (pos g) ≡ ok (pos h)
int_add-below_hole h g p q = elim (Bool-cases (leb g h)) [
  | inl le ↦ rw (below_hole-pos h g (leb→le g h le)) (int_add-under h g (leb→le g h le) p)
  | inr gt ↦
      rw (below_hole-neg h g (leb-false→lt g h gt)) (int_add-back h g (leb-false→lt g h gt) q)
]

-- What the loop leaves: the hole is where `tmp` belongs.
abbrev Placed : ℕ → List ℕ → ℕ → ℕ → List ℕ × ℤ → Type 0
Placed g a0 i tmp r =
    (h : ℕ) × (r.1 ≡ below_hole h g) × (h < length r.0) × Inserted g a0 i (set r.0 h tmp)

shell_shift_places :
    (fuel g : ℕ) (a0 : List ℕ) (i tmp : ℕ) (a : List ℕ) (h : ℕ)
    → h < fuel
    → length a0 ≤ int_limit
    → g < int_limit
    → ShiftInv g a0 i tmp a h
    → Returns (Placed g a0 i tmp) (shell_shift fuel a tmp (pos g) (below_hole h g))
unfolding shell_shift
shell_shift_places zero g a0 i tmp a h f w q v = absurd (omega arith)
shell_shift_places (suc fuel) g a0 i tmp a h f w q v = elim (Bool-cases (leb g h)) [
  | inl inside ↦
      let le = leb→le g h inside in
      let hk : h - g < length a = omega (arith, v.place, v.inside, v.same_length, v.gap) in
      let test : ltz (pos (h - g)) (pos 0) ≡ false =
        ltz-pos (h - g) 0 ∙ le→ltb-false _ _ (omega arith) in
      let hh : h < length a = omega (arith, v.place, v.inside, v.same_length) in
      rw (below_hole-pos h g le, test, load_int-ok a (h - g) hk)
        (Returns-if (int_lt tmp (at a (h - g)))
          (λ less.
            let b = set a h (at a (h - g)) in
            rw
              (
                int_add-under h g le (omega (arith, v.same_length)),
                store_int-ok a h (at a (h - g)) hh,
                int_sub-below_hole (h - g) g (omega (arith, v.same_length)) (omega arith),
              )
              (shell_shift_places fuel g a0 i tmp b (h - g) (omega (arith, v.gap)) w q (
                ShiftInv-step g a0 i tmp a h v le
                  (omega (arith, int_lt→lt tmp (at a (h - g)) less)))))
          (λ stop. returns (
            h,
            sym (below_hole-pos h g le),
            hh,
            Inserted-stop g a0 i tmp a h v (inr (int_lt-false→le tmp (at a (h - g)) stop)),
          )))
  | inr outside ↦
      let lt = leb-false→lt g h outside in
      rw (below_hole-neg h g lt, ltz-negsuc (g - h - 1))
        (returns (
          h,
          sym (below_hole-neg h g lt),
          omega (arith, v.place, v.inside, v.same_length),
          Inserted-stop g a0 i tmp a h v (inl lt),
        ))
]

pub same_class_gap : (g p j : ℕ) → 0 < g → p % g ≡ j % g → p < j → p + g ≤ j
same_class_gap g p j gap c lt = grind arith

-- The entry at `j` goes to its place in its class, which ascends up to `j` afterwards.
pub shell_insert-Inserted :
    (g : ℕ) (a : List ℕ) (j : ℕ)
    → 0 < g
    → g ≤ j
    → j < length a
    → length a ≤ int_limit
    → ((p : ℕ) → p % g ≡ j % g → p + g < j → rank (at a p) ≤ rank (at a (p + g)))
    → Returns (Inserted g a j) (shell_insert a (length a) (pos g) (pos j))
unfolding shell_insert
shell_insert-Inserted g a j gap le hj w sorted =
    let hp : j - g < length a = omega arith in
    let start = ShiftInv-start g a j gap hj sorted in
    rw
      (
        load_int-ok a j hj,
        int_sub-below_hole j g (omega arith) (omega arith),
        below_hole-pos j g le,
        load_int-ok a (j - g) hp,
      )
      (Returns-if (int_lt (at a j) (at a (j - g)))
        (λ less.
          Returns-bind
            (rw (below_hole-pos j g le) at (
              shell_shift_places (length a + 1) g a j (at a j) a j (omega arith) w (omega arith)
                start))
            (λ (b, k) (h, e, hh, done).
              rw
                (
                  e,
                  int_add-below_hole h g
                      (omega (arith, hh, length-set b h (at a j), done.same_length)) (omega arith),
                  store_int-ok b h (at a j) hh,
                )
                (returns done)))
        (λ stay. returns (record {
          same_length = refl;
          items = λ v. refl;
          ordered = λ p c q. ground (
            arith,
            same_class_gap g p j gap c,
            sorted p c,
            int_lt-false→le (at a j) (at a (j - g)) stay,
          );
          others = λ p n. refl;
          beyond = λ p l. refl;
        })))

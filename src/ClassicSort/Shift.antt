-- ===== src/ClassicSort/Shift.antt =====
-- The shifting loop that `insert_sort` (with gap 1) and `shell_sort` share: `tmp` was read from
-- index `i`, larger entries of its class move up by the gap, and a hole moves down.
use mathlib.Core.Logic.{◌≢◌}
use armory.Common.{
  ℕ, ◌+◌, ◌-◌, ◌%◌, ◌≤◌, ◌<◌, ◌≡◌, ◌≢◌, ◌⊎◌, refl, ap, ◌∙◌, List, arith, length, set, at, hit,
  count, at-set, length-set, count-set, rank,
}

pub record ShiftInv (g : ℕ) (a0 : List ℕ) (i tmp : ℕ) (a : List ℕ) (h : ℕ) : Type 0 where
  pub gap : 0 < g
  pub same_length : length a ≡ length a0
  pub inside : i < length a0
  pub place : h ≤ i
  pub class : h % g ≡ i % g
  pub items : (v : ℕ) → count v a + hit v tmp ≡ count v a0 + hit v (at a h)
  pub ordered :
      (p : ℕ) → p % g ≡ i % g → p + g ≤ i → p ≢ h → p + g ≢ h → rank (at a p) ≤ rank (at a (p + g))
  pub above : h + g ≤ i → rank tmp ≤ rank (at a (h + g))
  pub bridged : g ≤ h → h + g ≤ i → rank (at a (h - g)) ≤ rank (at a (h + g))
  pub others : (p : ℕ) → p % g ≢ i % g → at a p ≡ at a0 p
  pub beyond : (p : ℕ) → i < p → at a p ≡ at a0 p

-- The array after `tmp` is put down: the class of `i` ascends up to `i`, the rest is as it was.
pub record Inserted (g : ℕ) (a0 : List ℕ) (i : ℕ) (r : List ℕ) : Type 0 where
  pub same_length : length r ≡ length a0
  pub items : (v : ℕ) → count v r ≡ count v a0
  pub ordered : (p : ℕ) → p % g ≡ i % g → p + g ≤ i → rank (at r p) ≤ rank (at r (p + g))
  pub others : (p : ℕ) → p % g ≢ i % g → at r p ≡ at a0 p
  pub beyond : (p : ℕ) → i < p → at r p ≡ at a0 p

sub_class : (g h : ℕ) → 0 < g → g ≤ h → (h - g) % g ≡ h % g
sub_class g h p q = grind arith

-- A class that ascends below `i` starts the loop, with the hole at `i`.
pub ShiftInv-start :
    (g : ℕ) (a : List ℕ) (i : ℕ)
    → 0 < g
    → i < length a
    → ((p : ℕ) → p % g ≡ i % g → p + g < i → rank (at a p) ≤ rank (at a (p + g)))
    → ShiftInv g a i (at a i) a i
ShiftInv-start g a i pos hi sorted = record {
  gap = pos;
  same_length = refl;
  inside = hi;
  place = omega arith;
  class = refl;
  items = λ v. refl;
  ordered = λ p c le n m. sorted p c (omega arith);
  above = λ le. absurd (omega arith);
  bridged = λ le m. absurd (omega arith);
  others = λ p n. refl;
  beyond = λ p l. refl;
}

module _ (g : ℕ) (a0 : List ℕ) (i tmp : ℕ) (a : List ℕ) (h : ℕ) (v : ShiftInv g a0 i tmp a h) where
  hole_inside : h < length a
  hole_inside = omega (arith, v.place, v.inside, v.same_length)

  -- One round: the entry one gap below the hole moves into it.
  pub ShiftInv-step :
      g ≤ h → rank tmp ≤ rank (at a (h - g)) → ShiftInv g a0 i tmp (set a h (at a (h - g))) (h - g)
  ShiftInv-step le less =
      let x = at a (h - g) in
      let b = set a h x in
      let at_b = λ (k : ℕ). at-set a h k x hole_inside in
      let pos = v.gap in
      let cls : (h - g) % g ≡ i % g = sub_class g h pos le ∙ v.class in
      let hole : at b (h - g) ≡ x = ground (arith, at_b (h - g)) in
      record {
        gap = v.gap;
        same_length = length-set a h x ∙ v.same_length;
        inside = v.inside;
        place = omega (arith, v.place);
        class = cls;
        items = λ w. omega (arith, count-set w a h x hole_inside, v.items w, ap (hit w) hole);
        ordered =
            λ p c q n m. ground (arith, at_b p, at_b (p + g), v.ordered p c q, v.bridged, v.above);
        above = λ q. ground (arith, at_b (h - g + g), less);
        bridged = λ q m. ground (
          arith,
          at_b (h - g - g),
          at_b (h - g + g),
          v.ordered (h - g - g) (sub_class g (h - g) pos q ∙ cls),
          v.place,
        );
        others = λ p n. ground (arith, at_b p, v.others p n, v.class);
        beyond = λ p l. ground (arith, at_b p, v.beyond p l, v.place);
      }

  -- The loop's end: everything below the hole is at most `tmp`.
  pub Inserted-stop : (h < g) ⊎ (rank (at a (h - g)) ≤ rank tmp) → Inserted g a0 i (set a h tmp)
  Inserted-stop stop =
      let r = set a h tmp in
      let at_r = λ (k : ℕ). at-set a h k tmp hole_inside in
      record {
        same_length = length-set a h tmp ∙ v.same_length;
        items = λ w. omega (arith, count-set w a h tmp hole_inside, v.items w);
        ordered = λ p c q. ground (arith, at_r p, at_r (p + g), v.ordered p c q, v.above, stop);
        others = λ p n. ground (arith, at_r p, v.others p n, v.class);
        beyond = λ p l. ground (arith, at_r p, v.beyond p l, v.place);
      }

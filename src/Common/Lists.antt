-- ===== src/Common/Lists.antt =====
-- Lists as C arrays: measured and indexed by native numbers, with the number of occurrences
-- of a value in a whole array and in a window of it.
use Prim.Native.Nat.{ℕ, zero, suc, ◌+◌, ◌≤◌, ◌<◌}
use mathlib.Core.Path.{◌≡◌, refl, ap, ◌∙◌}
use mathlib.Core.Logic.{◌≢◌, ◌⊎◌}
use mathlib.Core.List.{List, [], ◌∷◌}
use mathlib.Core.Option.{Option, none, some}
use native.Mathlib.Omega.{arith}
use armory.Common.Tests.{◌==◌, if◌then◌else◌}

module _ {ℓ} {A : Type ℓ} where
  abbrev pub length : List A → ℕ
  length [] = 0
  length (x ∷ xs) = suc (length xs)

  abbrev pub get_elem? : List A → ℕ → Option A
  get_elem? [] i = none
  get_elem? (x ∷ xs) zero = some x
  get_elem? (x ∷ xs) (suc i) = get_elem? xs i

  -- A write out of bounds changes nothing.
  abbrev pub set : List A → ℕ → A → List A
  set [] i v = []
  set (x ∷ xs) zero v = v ∷ xs
  set (x ∷ xs) (suc i) v = x ∷ set xs i v

  pub length-set : (xs : List A) (i : ℕ) (v : A) → length (set xs i v) ≡ length xs
  length-set [] i v = refl
  length-set (x ∷ xs) zero v = refl
  length-set (x ∷ xs) (suc i) v = ap suc (length-set xs i v)

  pub set-set_self : (xs : List A) (i : ℕ) (v w : A) → set (set xs i v) i w ≡ set xs i w
  set-set_self [] i v w = refl
  set-set_self (x ∷ xs) zero v w = refl
  set-set_self (x ∷ xs) (suc i) v w = ap (◌∷◌ x) (set-set_self xs i v w)

  pub set-set_ne :
      (xs : List A) (i j : ℕ) (v w : A) → i ≢ j → set (set xs i v) j w ≡ set (set xs j w) i v
  set-set_ne [] i j v w h = refl
  set-set_ne (x ∷ xs) zero zero v w h = absurd (h refl)
  set-set_ne (x ∷ xs) zero (suc j) v w h = refl
  set-set_ne (x ∷ xs) (suc i) zero v w h = refl
  set-set_ne (x ∷ xs) (suc i) (suc j) v w h = ap (◌∷◌ x) (set-set_ne xs i j v w (λ e. h (ap suc e)))

  pub get_elem?-set :
      (xs : List A) (i j : ℕ) (v : A)
      → i < length xs
      → get_elem? (set xs i v) j ≡ (if i == j then some v else get_elem? xs j)
  get_elem?-set [] i j v h = elim h [ ]
  get_elem?-set (x ∷ xs) zero zero v h = refl
  get_elem?-set (x ∷ xs) zero (suc j) v h = ground arith
  get_elem?-set (x ∷ xs) (suc i) zero v h = ground arith
  get_elem?-set (x ∷ xs) (suc i) (suc j) v h = ground (arith, get_elem?-set xs i j v)

  pub get_elem?-some : (xs : List A) (i : ℕ) → i < length xs → (x : A) × (get_elem? xs i ≡ some x)
  get_elem?-some [] i h = elim h [ ]
  get_elem?-some (x ∷ xs) zero h = (x, refl)
  get_elem?-some (x ∷ xs) (suc i) h = get_elem?-some xs i (omega arith)

  -- Writing what stands there changes nothing.
  pub set-get_elem? : (xs : List A) (i : ℕ) (v : A) → get_elem? xs i ≡ some v → set xs i v ≡ xs
  set-get_elem? [] i v h = refl
  set-get_elem? (x ∷ xs) zero v h = ground arith
  set-get_elem? (x ∷ xs) (suc i) v h = ap (◌∷◌ x) (set-get_elem? xs i v h)

-- The entry at an index, 0 outside.
unfoldable pub at : List ℕ → ℕ → ℕ
at [] i = 0
at (x ∷ xs) zero = x
at (x ∷ xs) (suc i) = at xs i

pub get_elem?-at : (xs : List ℕ) (i : ℕ) → i < length xs → get_elem? xs i ≡ some (at xs i)
unfolding at
get_elem?-at [] i h = elim h [ ]
get_elem?-at (x ∷ xs) zero h = refl
get_elem?-at (x ∷ xs) (suc i) h = get_elem?-at xs i (omega arith)

pub get_elem?-none : (xs : List ℕ) (i : ℕ) → length xs ≤ i → get_elem? xs i ≡ none
get_elem?-none [] i h = refl
get_elem?-none (x ∷ xs) zero h = absurd (omega arith)
get_elem?-none (x ∷ xs) (suc i) h = get_elem?-none xs i (omega arith)

pub at-set :
    (xs : List ℕ) (i j v : ℕ) → i < length xs → at (set xs i v) j ≡ (if i == j then v else at xs j)
unfolding at
at-set [] i j v h = elim h [ ]
at-set (x ∷ xs) zero zero v h = refl
at-set (x ∷ xs) zero (suc j) v h = ground arith
at-set (x ∷ xs) (suc i) zero v h = ground arith
at-set (x ∷ xs) (suc i) (suc j) v h = ground (arith, at-set xs i j v)

-- Two arrays of one length with the same entries are one.
pub eq_of_at :
    (xs ys : List ℕ)
    → length xs ≡ length ys
    → ((i : ℕ) → i < length xs → at xs i ≡ at ys i)
    → xs ≡ ys
unfolding at
eq_of_at [] [] e h = refl
eq_of_at [] (y ∷ ys) e h = absurd (omega arith)
eq_of_at (x ∷ xs) [] e h = absurd (omega arith)
eq_of_at (x ∷ xs) (y ∷ ys) e h =
    let heads = h 0 (omega arith) in
    let tails = eq_of_at xs ys (omega arith) (λ i p. h (suc i) (omega arith)) in
    ap (λ z. z ∷ xs) heads ∙ ap (◌∷◌ y) tails

-- 1 where the two values are one, and 0 elsewhere.
unfoldable pub hit : ℕ → ℕ → ℕ
hit v x = if v == x then 1 else 0

unfoldable pub count : ℕ → List ℕ → ℕ
count v [] = 0
count v (x ∷ xs) = hit v x + count v xs

pub count-set :
    (v : ℕ) (xs : List ℕ) (i x : ℕ)
    → i < length xs
    → count v (set xs i x) + hit v (at xs i) ≡ count v xs + hit v x
unfolding count at
count-set v [] i x h = elim h [ ]
count-set v (y ∷ xs) zero x h = omega arith
count-set v (y ∷ xs) (suc i) x h = omega (arith, count-set v xs i x (omega arith))

-- How often `v` stands in the `n` entries from index `i` on.
unfoldable pub count_window : ℕ → List ℕ → ℕ → ℕ → ℕ
count_window v xs i zero = 0
count_window v xs i (suc n) = hit v (at xs i) + count_window v xs (suc i) n

-- Windows with the same entries.
pub count_window-eq :
    (v : ℕ) (xs ys : List ℕ) (i j n : ℕ)
    → ((t : ℕ) → t < n → at xs (i + t) ≡ at ys (j + t))
    → count_window v xs i n ≡ count_window v ys j n
unfolding count_window
count_window-eq v xs ys i j zero h = refl
count_window-eq v xs ys i j (suc n) h =
    let first : at xs i ≡ at ys j = ground (arith, h 0) in
    let rest = count_window-eq v xs ys (suc i) (suc j) n (λ t p. ground (arith, h (suc t))) in
    omega (arith, ap (hit v) first, rest)

-- The last entry of a window.
pub count_window-last :
    (v : ℕ) (xs : List ℕ) (i n : ℕ)
    → count_window v xs i (suc n) ≡ count_window v xs i n + hit v (at xs (i + n))
unfolding count_window
count_window-last v xs i zero = let e : i + 0 ≡ i = omega arith in rw e (omega arith)
count_window-last v xs i (suc n) =
    let e : suc i + n ≡ i + suc n = omega arith in
    omega (arith, count_window-last v xs (suc i) n, ap (λ k. hit v (at xs k)) e)

pub count_window_step :
    (v : ℕ) (xs : List ℕ) (i n : ℕ)
    → count_window v xs i (n + 1) ≡ hit v (at xs i) + count_window v xs (i + 1) n
unfolding count_window
count_window_step v xs i n =
    let e : i + 1 ≡ suc i = omega arith in let e' : n + 1 ≡ suc n = omega arith in rw (e, e')

-- A write outside a window does not show in it.
pub count_window-set :
    (v : ℕ) (xs : List ℕ) (i n k x : ℕ)
    → k < length xs
    → (k < i) ⊎ (i + n ≤ k)
    → count_window v (set xs k x) i n ≡ count_window v xs i n
count_window-set v xs i n k x h out =
    count_window-eq v (set xs k x) xs i i n (λ t p. ground (arith, at-set xs k (i + t) x h, out))

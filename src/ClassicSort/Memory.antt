-- ===== src/ClassicSort/Memory.antt =====
-- classic_sort/inc/classic_sort.h and the accesses of classic_sort/src/classic_sort.c: reads and
-- writes of an `int` array, and the macro `swap_value`.
use armory.Common.{
  ℕ, ℤ, pos, negsuc, ◌<◌, ◌≡◌, ◌≢◌, ap, ◌∙◌, List, none, some, arith, length, get_elem?, set, at,
  hit, count, at-set, length-set, count-set, get_elem?-at, Run, ok, fault, ◌>>=◌, ltb, ◌==◌,
  if◌then◌else◌, lt→ltb, bit_xor, xor_cancel, xor_self, set-set_self, set-set_ne, sym,
}

-- `array[i]` as a value.
unfoldable pub load : List ℕ → ℕ → Run ℕ
load a i = elim (get_elem? a i) [ none ↦ fault | some x ↦ ok x ]

-- `array[i] = v`.
unfoldable pub store : List ℕ → ℕ → ℕ → Run (List ℕ)
store a i v = if ltb i (length a) then ok (set a i v) else fault

pub load-ok : (a : List ℕ) (i : ℕ) → i < length a → load a i ≡ ok (at a i)
unfolding load
load-ok a i h = rw (get_elem?-at a i h, load)

pub store-ok : (a : List ℕ) (i v : ℕ) → i < length a → store a i v ≡ ok (set a i v)
unfolding store
store-ok a i v h = rw (lt→ltb _ _ h)

-- `array[k] = array[i] ^ array[j]`.
unfoldable pub xor_assign : List ℕ → ℕ → ℕ → ℕ → Run (List ℕ)
xor_assign a k i j = do x ← load a i; y ← load a j; store a k (bit_xor x y)

-- `swap_value(array[i], array[j])`: three assignments.
unfoldable pub swap_value : List ℕ → ℕ → ℕ → Run (List ℕ)
swap_value a i j = do b ← xor_assign a i i j; c ← xor_assign b j i j; xor_assign c i i j

-- The array with the entries at `i` and `j` exchanged.
unfoldable pub swapped : List ℕ → ℕ → ℕ → List ℕ
swapped a i j = set (set a i (at a j)) j (at a i)

module _ (a : List ℕ) (i j : ℕ) (hi : i < length a) (hj : j < length a) where
  pub length-swapped : length (swapped a i j) ≡ length a
  unfolding swapped
  length-swapped = length-set (set a i (at a j)) j (at a i) ∙ length-set a i (at a j)

  pub at-swapped :
      (k : ℕ)
      → at (swapped a i j) k ≡ (if j == k then at a i else if i == k then at a j else at a k)
  unfolding swapped
  at-swapped k =
      rw (at-set (set a i (at a j)) j k (at a i) (rw length-set hj), at-set a i k (at a j) hi)

  pub count-swapped : (v : ℕ) → count v (swapped a i j) ≡ count v a
  unfolding swapped
  count-swapped v =
      let b = set a i (at a j) in
      let kept : at b j ≡ at a j = ground (arith, at-set a i j (at a j) hi) in
      omega (
        arith,
        count-set v b j (at a i) (rw length-set hj),
        count-set v a i (at a j) hi,
        ap (hit v) kept,
      )

xor_assign-ok :
    (a : List ℕ) (k i j : ℕ)
    → k < length a
    → i < length a
    → j < length a
    → xor_assign a k i j ≡ ok (set a k (bit_xor (at a i) (at a j)))
unfolding xor_assign
xor_assign-ok a k i j hk hi hj = rw (load-ok a i hi, load-ok a j hj) (store-ok a k _ hk)

-- Two different locations exchange their values.
pub swap_value-ok :
    (a : List ℕ) (i j : ℕ)
    → i < length a
    → j < length a
    → i ≢ j
    → swap_value a i j ≡ ok (swapped a i j)
unfolding swap_value swapped
swap_value-ok a i j hi hj ne =
    let x = bit_xor (at a i) (at a j) in
    let b = set a i x in
    let lb : length b ≡ length a = length-set a i x in
    let bi : at b i ≡ x = ground (arith, at-set a i i x hi) in
    let bj : at b j ≡ at a j = ground (arith, at-set a i j x hi) in
    let c = set b j (at a i) in
    let lc : length c ≡ length a = length-set b j (at a i) ∙ lb in
    let ci : at c i ≡ x = ground (arith, at-set b j i (at a i) (rw lb hj)) in
    let cj : at c j ≡ at a i = ground (arith, at-set b j j (at a i) (rw lb hj)) in
    rw
      (
        xor_assign-ok a i i j hi hi hj,
        xor_assign-ok b j i j (rw lb hj) (rw lb hi) (rw lb hj),
        bi,
        bj,
        (xor_cancel (at a i) (at a j)).0,
        xor_assign-ok c i i j (rw lc hi) (rw lc hi) (rw lc hj),
        ci,
        cj,
        (xor_cancel (at a i) (at a j)).1,
      )
      (ap ok (
        set-set_ne b j i (at a i) (at a j) (λ e. ne (sym e))
        ∙ ap (λ d. set d j (at a i)) (set-set_self a i x (at a j))))

-- One location named twice is cleared.
pub swap_value_self : (a : List ℕ) (i : ℕ) → i < length a → swap_value a i i ≡ ok (set a i 0)
unfolding swap_value
swap_value_self a i hi =
    let clear : (b : List ℕ) → i < length b → xor_assign b i i i ≡ ok (set b i 0) =
      λ b h. rw (← xor_self (at b i)) (xor_assign-ok b i i i h h h) in
    let b = set a i 0 in
    let hb : i < length b = rw length-set hi in
    let hc : i < length (set b i 0) = rw length-set hb in
    rw (clear a hi, clear b hb, clear (set b i 0) hc, set-set_self, set-set_self)

-- `array[k]` with an `int` index: a negative one is outside the array.
unfoldable pub load_int : List ℕ → ℤ → Run ℕ
load_int a (pos n) = load a n
load_int a (negsuc n) = fault

unfoldable pub store_int : List ℕ → ℤ → ℕ → Run (List ℕ)
store_int a (pos n) v = store a n v
store_int a (negsuc n) v = fault

pub load_int-ok : (a : List ℕ) (i : ℕ) → i < length a → load_int a (pos i) ≡ ok (at a i)
unfolding load_int
load_int-ok a i h = load-ok a i h

pub store_int-ok : (a : List ℕ) (i v : ℕ) → i < length a → store_int a (pos i) v ≡ ok (set a i v)
unfolding store_int
store_int-ok a i v h = store-ok a i v h

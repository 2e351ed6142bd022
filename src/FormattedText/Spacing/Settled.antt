-- ===== src/FormattedText/Spacing/Settled.antt =====
-- What the spaced lines of formatted_text/src/formatted_text.cpp are like: no border is left
-- without a space, a line without such borders stays, and nothing but spaces is new.
use armory.Common.{
  ℕ, ◌≤◌, ◌<◌, ◌≡◌, refl, sym, ap, ◌∙◌, List, [], ◌∷◌, true, false, ◌||◌, arith, inl, inr, length,
  Bool-cases, if◌then◌else◌,
}
use armory.FormattedText.Line.{is_ch, is_blank}
use armory.FormattedText.Spacing.{Place, gap, word, is_border, after, spaced, is_tight}

-- The bytes of a line that are not blank.
abbrev pub visible : List ℕ → List ℕ
visible [] = []
visible (c ∷ line) = let more = visible line in if is_blank c then more else c ∷ more

is_border-space : (place : Place) → is_border place 32 ≡ false
unfolding is_border is_ch
is_border-space (gap glued) = refl
is_border-space word = refl

after-space : after 32 ≡ gap false
unfolding after is_ch
after-space = refl

is_border-gap : (c : ℕ) → is_border (gap false) c ≡ false
unfolding is_border
is_border-gap c = elim (Bool-cases (is_ch c)) [ inl e ↦ rw e | inr e ↦ rw e ]

-- The two equations of each scan, for a place of either kind.
pub spaced-cons :
    (place : Place) (c : ℕ) (rest : List ℕ)
    → spaced place (c ∷ rest)
      ≡ (if is_border place c then 32 ∷ c ∷ spaced (after c) rest else c ∷ spaced (after c) rest)
unfolding spaced
spaced-cons (gap glued) c rest = refl
spaced-cons word c rest = refl

pub is_tight-cons :
    (place : Place) (c : ℕ) (rest : List ℕ)
    → is_tight place (c ∷ rest) ≡ is_border place c || is_tight (after c) rest
unfolding is_tight
is_tight-cons (gap glued) c rest = refl
is_tight-cons word c rest = refl

is_tight-space :
    (place : Place) (rest : List ℕ) → is_tight place (32 ∷ rest) ≡ is_tight (gap false) rest
is_tight-space place rest = rw (is_tight-cons place 32 rest, is_border-space place, after-space)

is_tight-spaced_nil : (place : Place) → is_tight place (spaced place []) ≡ false
unfolding spaced is_tight is_border after is_ch
is_tight-spaced_nil (gap glued) = refl
is_tight-spaced_nil word = refl

pub is_tight-spaced : (place : Place) (rest : List ℕ) → is_tight place (spaced place rest) ≡ false
is_tight-spaced place [] = is_tight-spaced_nil place
is_tight-spaced place (c ∷ rest) = elim (Bool-cases (is_border place c)) [
  | inl border ↦ rw (
    spaced-cons place c rest,
    border,
    is_tight-space place,
    is_tight-cons (gap false) c (spaced (after c) rest),
    is_border-gap c,
    is_tight-spaced (after c) rest,
  )
  | inr other ↦ rw (
    spaced-cons place c rest,
    other,
    is_tight-cons place c (spaced (after c) rest),
    other,
    is_tight-spaced (after c) rest,
  )
]

spaced-nil : (place : Place) → is_tight place [] ≡ false → spaced place [] ≡ []
unfolding spaced is_tight
spaced-nil (gap glued) h = refl
spaced-nil word h = ground arith

-- The first byte of a rest that has no border without a space.
pub is_tight-false :
    (place : Place) (c : ℕ) (rest : List ℕ)
    → is_tight place (c ∷ rest) ≡ false
    → (is_border place c ≡ false) × (is_tight (after c) rest ≡ false)
is_tight-false place c rest h =
    let e : is_border place c || is_tight (after c) rest ≡ false =
      sym (is_tight-cons place c rest) ∙ h in
    ground arith

pub spaced-not_tight :
    (place : Place) (rest : List ℕ) → is_tight place rest ≡ false → spaced place rest ≡ rest
spaced-not_tight place [] h = spaced-nil place h
spaced-not_tight place (c ∷ rest) h =
    let parts = is_tight-false place c rest h in
    rw (spaced-cons place c rest, parts.0, spaced-not_tight (after c) rest parts.1)

pub length-spaced_le : (place : Place) (rest : List ℕ) → length rest ≤ length (spaced place rest)
length-spaced_le place [] = omega arith
length-spaced_le place (c ∷ rest) = elim (Bool-cases (is_border place c)) [
  | inl border ↦
      rw (spaced-cons place c rest, border) (omega (arith, length-spaced_le (after c) rest))
  | inr other ↦
      rw (spaced-cons place c rest, other) (omega (arith, length-spaced_le (after c) rest))
]

-- A border without a space makes the line longer.
length-spaced_nil : (place : Place) → is_tight place [] ≡ true → 0 < length (spaced place [])
unfolding spaced is_tight
length-spaced_nil (gap glued) h = ground arith
length-spaced_nil word h = omega arith

pub length-spaced_lt :
    (place : Place) (rest : List ℕ)
    → is_tight place rest ≡ true
    → length rest < length (spaced place rest)
length-spaced_lt place [] h = length-spaced_nil place h
length-spaced_lt place (c ∷ rest) h = elim (Bool-cases (is_border place c)) [
  | inl border ↦
      rw (spaced-cons place c rest, border) (omega (arith, length-spaced_le (after c) rest))
  | inr other ↦
      let e : is_tight (after c) rest ≡ true =
        sym (ap (λ b. b || is_tight (after c) rest) other) ∙ sym (is_tight-cons place c rest) ∙ h in
      rw (spaced-cons place c rest, other) (omega (arith, length-spaced_lt (after c) rest e))
]

visible-spaced_nil : (place : Place) → visible (spaced place []) ≡ []
unfolding spaced is_blank
visible-spaced_nil (gap glued) = refl
visible-spaced_nil word = refl

visible-space : (rest : List ℕ) → visible (32 ∷ rest) ≡ visible rest
unfolding is_blank
visible-space rest = refl

pub visible-spaced : (place : Place) (rest : List ℕ) → visible (spaced place rest) ≡ visible rest
visible-spaced place [] = visible-spaced_nil place
visible-spaced place (c ∷ rest) = elim (Bool-cases (is_border place c)) [
  | inl border ↦ rw (spaced-cons place c rest, border, visible-space, visible-spaced (after c) rest)
  | inr other ↦ rw (spaced-cons place c rest, other, visible-spaced (after c) rest)
]

-- ===== src/FormattedText/Twice.antt =====
-- Formatting a line twice, and checking a line that was formatted: the functions of
-- formatted_text/src/formatted_text.cpp on one line.
use armory.Common.{
  ℕ, ◌<◌, ◌≡◌, ◌⊎◌, refl, sym, ap, ◌∙◌, List, [], ◌∷◌, ◌++◌, Bool, true, false, ◌||◌, arith, inl,
  inr, length, Bool-cases,
}
use armory.FormattedText.Line.{is_ch, is_blank}
use armory.FormattedText.Spacing.{
  Place, gap, word, is_border, after, spaced, is_tight, spaced_line, is_tight_line,
}
use armory.FormattedText.Spacing.Settled.{
  visible, spaced-cons, is_tight-cons, is_tight-false, is_tight-spaced, spaced-not_tight,
  length-spaced_lt, visible-spaced,
}
use armory.FormattedText.Trailing.{
  trimmed, trimmed-blank_end, trimmed-visible_end, trimmed-rest, ends_blank-trimmed,
  trimmed-not_blank, visible-trimmed,
}
use armory.FormattedText.Each.{formatted, needs}

-- The facts on the rest of a line, for a whole line.
pub is_tight_line-spaced : (line : List ℕ) → is_tight_line (spaced_line line) ≡ false
unfolding is_tight_line spaced_line
is_tight_line-spaced [] = refl
is_tight_line-spaced (x ∷ rest) = is_tight-spaced (gap false) rest

pub spaced_line-not_tight : (line : List ℕ) → is_tight_line line ≡ false → spaced_line line ≡ line
unfolding is_tight_line spaced_line
spaced_line-not_tight [] h = refl
spaced_line-not_tight (x ∷ rest) h = ap (◌∷◌ x) (spaced-not_tight (gap false) rest h)

pub length-spaced_line_lt :
    (line : List ℕ) → is_tight_line line ≡ true → length line < length (spaced_line line)
unfolding is_tight_line spaced_line
length-spaced_line_lt [] h = ground arith
length-spaced_line_lt (x ∷ rest) h = omega (arith, length-spaced_lt (gap false) rest h)

pub visible-spaced_line : (line : List ℕ) → visible (spaced_line line) ≡ visible line
unfolding spaced_line
visible-spaced_line [] = refl
visible-spaced_line (x ∷ rest) = rw (visible-spaced (gap false) rest)

-- A line that is cut off where it has all its spaces lacks at most the one at its new end.
pub spaced-cut :
    (place : Place) (rest more : List ℕ)
    → is_tight place (rest ++ more) ≡ false
    → (spaced place rest ≡ rest) ⊎ (spaced place rest ≡ rest ++ 32 ∷ [])
unfolding spaced
spaced-cut (gap glued) [] more h = inl refl
spaced-cut word [] more h = inr refl
spaced-cut place (c ∷ rest) more h =
    let parts = is_tight-false place c (rest ++ more) h in
    elim (spaced-cut (after c) rest more parts.1) [
      | inl e ↦ inl (spaced-cons place c rest ∙ rw (parts.0, e))
      | inr e ↦ inr (spaced-cons place c rest ∙ rw (parts.0, e))
    ]

pub is_blank-space : is_blank 32 ≡ true
unfolding is_blank
is_blank-space = refl

-- Spacing what is left of a spaced line adds nothing that eating leaves.
pub spaced_line-cut :
    (line more : List ℕ)
    → is_tight_line (line ++ more) ≡ false
    → (spaced_line line ≡ line) ⊎ (spaced_line line ≡ line ++ 32 ∷ [])
unfolding is_tight_line spaced_line
spaced_line-cut [] more h = inl refl
spaced_line-cut (x ∷ rest) more h = elim (spaced-cut (gap false) rest more h) [
  | inl e ↦ inl (ap (◌∷◌ x) e)
  | inr e ↦ inr (ap (◌∷◌ x) e)
]

pub trimmed-spaced_twice :
    (line : List ℕ)
    → trimmed (spaced_line (trimmed (spaced_line line))) ≡ trimmed (spaced_line line)
trimmed-spaced_twice line =
    let t = trimmed (spaced_line line) in
    let (more, e) = trimmed-rest (spaced_line line) in
    let apart : is_tight_line (t ++ more) ≡ false =
      sym (ap is_tight_line e) ∙ is_tight_line-spaced line in
    let same : trimmed t ≡ t = trimmed-not_blank t (ends_blank-trimmed (spaced_line line)) in
    elim (spaced_line-cut t more apart) [
      | inl e ↦ rw e same
      | inr e ↦ rw (e, trimmed-blank_end t 32 is_blank-space) same
    ]

pub formatted-twice :
    (add eat : Bool) (line : List ℕ)
    → formatted add eat (formatted add eat line) ≡ formatted add eat line
formatted-twice false false line = refl
formatted-twice false true line = trimmed-not_blank (trimmed line) (ends_blank-trimmed line)
formatted-twice true false line =
    spaced_line-not_tight (spaced_line line) (is_tight_line-spaced line)
formatted-twice true true line = trimmed-spaced_twice line

pub visible-formatted :
    (add eat : Bool) (line : List ℕ) → visible (formatted add eat line) ≡ visible line
visible-formatted false false line = refl
visible-formatted false true line = visible-trimmed line
visible-formatted true false line = visible-spaced_line line
visible-formatted true true line = visible-trimmed (spaced_line line) ∙ visible-spaced_line line

pub ||-true : (b : Bool) → b || true ≡ true
||-true true = refl
||-true false = refl

pub is_tight-word_end :
    (place : Place) (rest : List ℕ) (x : ℕ)
    → is_ch x ≡ true
    → is_tight place (rest ++ x ∷ []) ≡ true
unfolding after is_tight
is_tight-word_end place [] x h = is_tight-cons place x [] ∙ rw (h, ||-true (is_border place x))
is_tight-word_end place (c ∷ rest) x h =
    is_tight-cons place c (rest ++ x ∷ [])
    ∙ rw (is_tight-word_end (after c) rest x h, ||-true (is_border place c))

pub spaced-word_end :
    (place : Place) (rest : List ℕ) (x : ℕ)
    → is_ch x ≡ true
    → (kept : List ℕ) × (spaced place (rest ++ x ∷ []) ≡ (kept ++ x ∷ []) ++ 32 ∷ [])
unfolding after spaced
spaced-word_end place [] x h = elim (Bool-cases (is_border place x)) [
  | inl border ↦ (32 ∷ [], spaced-cons place x [] ∙ rw (border, h))
  | inr other ↦ ([], spaced-cons place x [] ∙ rw (other, h))
]
spaced-word_end place (c ∷ rest) x h =
    let (kept, e) = spaced-word_end (after c) rest x h in
    elim (Bool-cases (is_border place c)) [
      | inl border ↦ (32 ∷ c ∷ kept, spaced-cons place c (rest ++ x ∷ []) ∙ rw (border, e))
      | inr other ↦ (c ∷ kept, spaced-cons place c (rest ++ x ∷ []) ∙ rw (other, e))
    ]

pub is_ch-not_blank : (x : ℕ) → is_ch x ≡ true → is_blank x ≡ false
unfolding is_ch is_blank
is_ch-not_blank x h = ground arith

-- With both functions, a line of two bytes or more that ends in a word needs formatting after it
-- was formatted.
pub needs-formatted :
    (a : ℕ) (rest : List ℕ) (x : ℕ)
    → is_ch x ≡ true
    → needs true true (formatted true true (a ∷ rest ++ x ∷ [])) ≡ true
unfolding spaced_line is_tight_line
needs-formatted a rest x h =
    let (kept, e) = spaced-word_end (gap false) rest x h in
    rw (
      e,
      trimmed-blank_end (a ∷ kept ++ x ∷ []) 32 is_blank-space,
      trimmed-visible_end (a ∷ kept) x (is_ch-not_blank x h),
      is_tight-word_end (gap false) kept x h,
    )

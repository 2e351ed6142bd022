-- ===== src/FormattedText/Trailing.antt =====
-- What `eat_trailing_space` of formatted_text/src/formatted_text.cpp does to a line, described
-- from its first byte on, and that the loop from the last byte does it.
use armory.Common.{
  ℕ, zero, suc, ◌≤◌, ◌<◌, ◌≡◌, refl, sym, ap, ◌∙◌, List, [], ◌∷◌, ◌++◌, Bool, true, false, ◌&&◌,
  arith, inl, inr, ok, length, Bool-cases, if◌then◌else◌,
}
use armory.FormattedText.Line.{is_blank, pop_back, eat_space_from, eat_trailing_space}
use armory.FormattedText.Spacing.{char_at-append, length-append_end}
use armory.FormattedText.Spacing.Settled.{visible}

abbrev is_nil : List ℕ → Bool
is_nil [] = true
is_nil (c ∷ line) = false

-- The line without the blanks at its end.
unfoldable pub trimmed : List ℕ → List ℕ
trimmed [] = []
trimmed (c ∷ line) = let t = trimmed line in if is_blank c && is_nil t then [] else c ∷ t

-- The last byte of a line is a blank.
unfoldable pub ends_blank : List ℕ → Bool
ends_blank [] = false
ends_blank (x ∷ []) = is_blank x
ends_blank (x ∷ y ∷ line) = ends_blank (y ∷ line)

pop_back-append_end : (q : List ℕ) (x : ℕ) → pop_back (q ++ x ∷ []) ≡ q
unfolding pop_back
pop_back-append_end [] x = refl
pop_back-append_end (y ∷ []) x = refl
pop_back-append_end (y ∷ z ∷ q) x = ap (◌∷◌ y) (pop_back-append_end (z ∷ q) x)

ends_blank-append_end : (q : List ℕ) (x : ℕ) → ends_blank (q ++ x ∷ []) ≡ is_blank x
unfolding ends_blank
ends_blank-append_end [] x = refl
ends_blank-append_end (y ∷ []) x = refl
ends_blank-append_end (y ∷ z ∷ q) x = ends_blank-append_end (z ∷ q) x

pub trimmed-blank_end : (q : List ℕ) (x : ℕ) → is_blank x ≡ true → trimmed (q ++ x ∷ []) ≡ trimmed q
unfolding trimmed
trimmed-blank_end [] x h = rw h
trimmed-blank_end (y ∷ q) x h = rw (trimmed-blank_end q x h)

is_nil-append_end : (q : List ℕ) (x : ℕ) → is_nil (q ++ x ∷ []) ≡ false
is_nil-append_end [] x = refl
is_nil-append_end (y ∷ q) x = refl

&&-false : (b : Bool) → b && false ≡ false
&&-false true = refl
&&-false false = refl

pub trimmed-visible_end :
    (q : List ℕ) (x : ℕ) → is_blank x ≡ false → trimmed (q ++ x ∷ []) ≡ q ++ x ∷ []
unfolding trimmed
trimmed-visible_end [] x h = rw h
trimmed-visible_end (y ∷ q) x h =
    rw (trimmed-visible_end q x h, is_nil-append_end q x, &&-false (is_blank y))

-- A line that is not empty, taken apart at its last byte.
last_of : (c : ℕ) (line : List ℕ) → (q : List ℕ) × (x : ℕ) × (c ∷ line ≡ q ++ x ∷ [])
last_of c [] = ([], c, refl)
last_of c (d ∷ line) = let (q, x, e) = last_of d line in (c ∷ q, x, ap (◌∷◌ c) e)

-- What the loop does to a line.
abbrev Trims : ℕ → Bool → List ℕ → Type 0
Trims n is_check line =
    eat_space_from n line is_check
    ≡ ok (if is_check then (ends_blank line, line) else (false, trimmed line))

Trims-round :
    (m : Bool) (q : List ℕ) (x : ℕ)
    → eat_space_from (suc (length q)) (q ++ x ∷ []) m ≡ (
        if is_blank x
        then if m then ok (true, q ++ x ∷ []) else eat_space_from (length q) q m
        else ok (false, q ++ x ∷ []))
unfolding eat_space_from
Trims-round m q x = rw (char_at-append q x [], pop_back-append_end q x)

Trims-step :
    (m : Bool) (q : List ℕ) (x : ℕ) → Trims (length q) m q → Trims (suc (length q)) m (q ++ x ∷ [])
Trims-step true q x h = elim (Bool-cases (is_blank x)) [
  | inl blank ↦ rw (Trims-round true q x, ends_blank-append_end q x, blank)
  | inr other ↦ rw (Trims-round true q x, ends_blank-append_end q x, other)
]
Trims-step false q x h = elim (Bool-cases (is_blank x)) [
  | inl blank ↦ rw (Trims-round false q x, trimmed-blank_end q x blank, blank) h
  | inr other ↦ rw (Trims-round false q x, trimmed-visible_end q x other, other)
]

Trims-nil : (m : Bool) → Trims 0 m []
unfolding eat_space_from ends_blank trimmed
Trims-nil true = refl
Trims-nil false = refl

Trims-all : (n : ℕ) (m : Bool) (line : List ℕ) → length line ≡ n → Trims (length line) m line
Trims-all n m [] e = Trims-nil m
Trims-all zero m (c ∷ line) e = absurd (omega arith)
Trims-all (suc n) m (c ∷ line) e =
    let (q, x, e') = last_of c line in
    let long : suc (length line) ≡ suc (length q) =
      ap length e' ∙ length-append_end q x ∙ omega arith in
    rw (long, e') (Trims-step m q x (Trims-all n m q (omega (arith, e, long))))

-- `eat_trailing_space` ends on every line. Checking, it leaves the line and says whether its
-- last byte is a space or a tab. Formatting, it leaves the line without the spaces and tabs at its
-- end, and its result is false.
pub eat_trailing_space-Trimmed :
    (line : List ℕ) (is_check : Bool)
    → eat_trailing_space line is_check
      ≡ ok (if is_check then (ends_blank line, line) else (false, trimmed line))
unfolding eat_trailing_space
eat_trailing_space-Trimmed line is_check = Trims-all (length line) is_check line refl

-- What a trimmed line is like.
pub trimmed-nil : trimmed [] ≡ []
unfolding trimmed
trimmed-nil = refl

ends_blank-nil : ends_blank [] ≡ false
unfolding ends_blank
ends_blank-nil = refl

trimmed_of_length : (n : ℕ) (line : List ℕ) → length line ≤ n → ends_blank (trimmed line) ≡ false
trimmed_of_length n [] h = rw trimmed-nil ends_blank-nil
trimmed_of_length zero (c ∷ line) h = absurd (omega arith)
trimmed_of_length (suc n) (c ∷ line) h =
    let (q, x, e) = last_of c line in
    let short : length q ≤ n = omega (arith, h, ap length e, length-append_end q x) in
    elim (Bool-cases (is_blank x)) [
      | inl blank ↦ rw (e, trimmed-blank_end q x blank) (trimmed_of_length n q short)
      | inr other ↦ rw (e, trimmed-visible_end q x other, ends_blank-append_end q x) other
    ]

pub ends_blank-trimmed : (line : List ℕ) → ends_blank (trimmed line) ≡ false
ends_blank-trimmed line = trimmed_of_length (length line) line (omega arith)

pub trimmed-not_blank : (line : List ℕ) → ends_blank line ≡ false → trimmed line ≡ line
trimmed-not_blank [] h = trimmed-nil
trimmed-not_blank (c ∷ line) h =
    let (q, x, e) = last_of c line in
    let other : is_blank x ≡ false = sym (ends_blank-append_end q x) ∙ ap ends_blank (sym e) ∙ h in
    rw e (trimmed-visible_end q x other)

length-trimmed_le : (line : List ℕ) → length (trimmed line) ≤ length line
unfolding trimmed
length-trimmed_le [] = omega arith
length-trimmed_le (c ∷ line) = elim (Bool-cases (is_blank c && is_nil (trimmed line))) [
  | inl cut ↦ rw cut (omega arith)
  | inr kept ↦ rw kept (omega (arith, length-trimmed_le line))
]

pub length-trimmed_lt :
    (line : List ℕ) → ends_blank line ≡ true → length (trimmed line) < length line
length-trimmed_lt [] h = absurd (ground (arith, ends_blank-nil))
length-trimmed_lt (c ∷ line) h =
    let (q, x, e) = last_of c line in
    let blank : is_blank x ≡ true = sym (ends_blank-append_end q x) ∙ ap ends_blank (sym e) ∙ h in
    rw (e, trimmed-blank_end q x blank)
      (omega (arith, ap length e, length-append_end q x, length-trimmed_le q))

is_nil→nil : (line : List ℕ) → is_nil line ≡ true → line ≡ []
is_nil→nil [] h = refl
is_nil→nil (c ∷ line) h = ground arith

pub visible-trimmed : (line : List ℕ) → visible (trimmed line) ≡ visible line
unfolding trimmed
visible-trimmed [] = refl
visible-trimmed (c ∷ line) = elim (Bool-cases (is_blank c)) [
  | inl blank ↦ elim (Bool-cases (is_nil (trimmed line))) [
    | inl cut ↦
        rw (blank, cut) (sym (ap visible (is_nil→nil (trimmed line) cut)) ∙ visible-trimmed line)
    | inr kept ↦ rw (blank, kept, blank) (visible-trimmed line)
  ]
  | inr other ↦ rw (other, visible-trimmed line, other)
]

-- What is cut off is the end of the line.
pub trimmed-rest : (line : List ℕ) → (more : List ℕ) × (line ≡ trimmed line ++ more)
unfolding trimmed
trimmed-rest [] = ([], refl)
trimmed-rest (c ∷ line) = elim (Bool-cases (is_blank c && is_nil (trimmed line))) [
  | inl cut ↦ (c ∷ line, rw cut)
  | inr kept ↦ let (more, e) = trimmed-rest line in (more, rw kept (ap (◌∷◌ c) e))
]

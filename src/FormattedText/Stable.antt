-- ===== src/FormattedText/Stable.antt =====
-- Formatting twice and checking what was formatted, for the loops of `format_check_each_line` in
-- formatted_text/src/formatted_text.cpp.
use armory.Common.{
  ℕ, ◌≡◌, ◌↔◌, refl, sym, ap, ◌∙◌, List, [], ◌∷◌, ◌++◌, Bool, true, false, ◌&&◌, ◌||◌, map, arith,
  inl, inr, Run, ok, length, Bool-cases,
}
use armory.FormattedText.Line.{is_ch}
use armory.FormattedText.Spacing.{is_tight_line}
use armory.FormattedText.Spacing.Settled.{visible}
use armory.FormattedText.Trailing.{ends_blank, trimmed-not_blank, length-trimmed_lt}
use armory.FormattedText.Files.{Officer}
use armory.FormattedText.{format_check_each_line}
use armory.FormattedText.Each.{formatted, needs, any, with_functions, format_check_each_line-all}
use armory.FormattedText.Twice.{
  spaced_line-not_tight, length-spaced_line_lt, formatted-twice, visible-formatted, needs-formatted,
}

decide : (b : Bool) → (b ≡ true → b ≡ false) → b ≡ false
decide b h = elim (Bool-cases b) [ inl t ↦ h t | inr f ↦ f ]

any-cons-false :
    (test : List ℕ → Bool) (line : List ℕ) (lines : List (List ℕ))
    → any test (line ∷ lines) ≡ false
    → (test line ≡ false) × (any test lines ≡ false)
any-cons-false test line lines h = ground arith

-- With one function at most, a line that it would change is one that it does change.
needs-exact :
    (add eat : Bool) (line : List ℕ)
    → add && eat ≡ false
    → (needs add eat line ≡ false) ↔ (formatted add eat line ≡ line)
needs-exact false false line h = (λ e. refl, λ e. refl)
needs-exact false true line h = (
  λ e. trimmed-not_blank line e,
  λ e.
      decide (ends_blank line) (λ t. absurd (omega (arith, ap length e, length-trimmed_lt line t))),
)
needs-exact true false line h = (
  λ e. spaced_line-not_tight line (ground arith),
  λ e.
      ap (λ b. b || false)
        (decide (is_tight_line line)
          (λ t. absurd (omega (arith, ap length e, length-spaced_line_lt line t)))),
)
needs-exact true true line h = ground arith

map-formatted_twice :
    (add eat : Bool) (lines : List (List ℕ))
    → map (formatted add eat) (map (formatted add eat) lines) ≡ map (formatted add eat) lines
map-formatted_twice add eat [] = refl
map-formatted_twice add eat (line ∷ lines) =
    rw (formatted-twice add eat line, map-formatted_twice add eat lines)

first : List (List ℕ) → List ℕ
first [] = []
first (line ∷ lines) = line

others : List (List ℕ) → List (List ℕ)
others [] = []
others (line ∷ lines) = lines

any-exact :
    (add eat : Bool) (lines : List (List ℕ))
    → add && eat ≡ false
    → (any (needs add eat) lines ≡ false) ↔ (map (formatted add eat) lines ≡ lines)
unfolding first others
any-exact add eat [] h = (λ e. refl, λ e. refl)
any-exact add eat (line ∷ lines) h =
    let here = needs-exact add eat line h in
    let more = any-exact add eat lines h in
    (
      λ e.
          let parts = any-cons-false (needs add eat) line lines e in
          rw (here.0 parts.0, more.0 parts.1),
      λ e. rw (here.1 (ap first e), more.1 (ap others e)),
    )

any-formatted :
    (add eat : Bool) (lines : List (List ℕ))
    → add && eat ≡ false
    → any (needs add eat) (map (formatted add eat) lines) ≡ false
any-formatted add eat lines h =
    (any-exact add eat (map (formatted add eat) lines) h).1 (map-formatted_twice add eat lines)

map-visible :
    (add eat : Bool) (lines : List (List ℕ))
    → map visible (map (formatted add eat) lines) ≡ map visible lines
map-visible add eat [] = refl
map-visible add eat (line ∷ lines) = rw (visible-formatted add eat line, map-visible add eat lines)

-- The officer behind `format_check_each_line` when it formats.
abbrev pub formatted_officer : Bool → Bool → Officer → Officer
formatted_officer add eat officer = record (with_functions add eat officer) {
  line_vec = map (formatted add eat) officer.line_vec;
}

-- Formatting all lines comes to an end, changes nothing but spaces and tabs in them, and formatting
-- them again changes nothing. If one function is chosen at most, then a check of the formatted lines
-- says that there is nothing to do.
pub format_check_each_line-settles :
    (add eat : Bool) (officer : Officer)
    → (let done = formatted_officer add eat officer in
        (format_check_each_line (with_functions add eat officer) false ≡ ok (false, done))
        × (map visible done.line_vec ≡ map visible officer.line_vec)
        × (format_check_each_line done false ≡ ok (false, done))
        × (add && eat ≡ false → format_check_each_line done true ≡ ok (false, done)))
format_check_each_line-settles add eat officer =
    let done = formatted_officer add eat officer in
    (
      format_check_each_line-all add eat false officer,
      map-visible add eat officer.line_vec,
      format_check_each_line-all add eat false done
          ∙ ap (λ lines. ok (false, record done { line_vec = lines }))
              (map-formatted_twice add eat officer.line_vec),
      λ h.
          format_check_each_line-all add eat true done
          ∙ ap (λ b. ok (b, done)) (any-formatted add eat officer.line_vec h),
    )

answer : Run (Bool × Officer) → Bool
answer (ok (b, officer)) = b
answer _ = false

lines_left : Run (Bool × Officer) → List (List ℕ)
lines_left (ok (b, officer)) = officer.line_vec
lines_left _ = []

-- If one function is chosen at most, a check says that nothing needs formatting exactly if
-- formatting leaves all lines as they are.
pub format_check_each_line-exact :
    (add eat : Bool) (officer : Officer)
    → add && eat ≡ false
    → (let chosen = with_functions add eat officer in
        (format_check_each_line chosen true ≡ ok (false, chosen))
        ↔ (format_check_each_line chosen false ≡ ok (false, chosen)))
unfolding answer lines_left
format_check_each_line-exact add eat officer h =
    let chosen = with_functions add eat officer in
    let exact = any-exact add eat officer.line_vec h in
    let checks = format_check_each_line-all add eat true officer in
    let formats = format_check_each_line-all add eat false officer in
    (
      λ e.
          let clean = exact.0 (ap answer (sym checks ∙ e)) in
          formats ∙ ap (λ lines. ok (false, record chosen { line_vec = lines })) clean,
      λ e.
          let same = exact.1 (ap lines_left (sym formats ∙ e)) in
          checks ∙ ap (λ b. ok (b, chosen)) same,
    )

-- If both functions are chosen, and the first line has two bytes or more and ends in a word, then a
-- check of the formatted lines says that they need formatting: each line is left without the space at
-- its end that `add_line_space` wants there.
pub format_check_each_line-restless :
    (a : ℕ) (rest : List ℕ) (x : ℕ) (lines : List (List ℕ)) (officer : Officer)
    → is_ch x ≡ true
    → (let done =
          formatted_officer true true
            (record officer { line_vec = (a ∷ rest ++ x ∷ []) ∷ lines }) in
        format_check_each_line done true ≡ ok (true, done))
format_check_each_line-restless a rest x lines officer h =
    let done =
      formatted_officer true true (record officer { line_vec = (a ∷ rest ++ x ∷ []) ∷ lines }) in
    format_check_each_line-all true true true done
    ∙ ap (λ b. ok (b || any (needs true true) (map (formatted true true) lines), done))
        (needs-formatted a rest x h)

-- ===== src/FormattedText/Each.antt =====
-- What the loops of `format_check_each_line` in formatted_text/src/formatted_text.cpp do to all
-- lines, by the flags that choose the functions.
use armory.Common.{
  ℕ, ◌≡◌, refl, ap, List, [], ◌∷◌, ◌++◌, Bool, true, false, ◌&&◌, ◌||◌, map, inl, inr, ok,
  Bool-cases, if◌then◌else◌,
}
use armory.FormattedText.Line.{add_line_space, eat_trailing_space}
use armory.FormattedText.Spacing.{spaced_line, is_tight_line}
use armory.FormattedText.Spacing.Loop.{add_line_space-Spaced}
use armory.FormattedText.Trailing.{trimmed, ends_blank, eat_trailing_space-Trimmed}
use armory.FormattedText.Files.{DealWithLine, Officer}
use armory.FormattedText.{each_func, each_line, format_check_each_line}

-- The functions that `get_format_func_array` puts into the vector.
abbrev pub functions : Bool → Bool → List DealWithLine
functions add eat =
    (if add then add_line_space ∷ [] else []) ++ (if eat then eat_trailing_space ∷ [] else [])

-- A line with spaces added, trailing blanks eaten, or both in this order.
abbrev pub formatted : Bool → Bool → List ℕ → List ℕ
formatted add eat line =
    let spaces = if add then spaced_line line else line in if eat then trimmed spaces else spaces

-- A line that one of the functions would change.
abbrev pub needs : Bool → Bool → List ℕ → Bool
needs add eat line = (add && is_tight_line line) || (eat && ends_blank line)

abbrev pub any : (List ℕ → Bool) → List (List ℕ) → Bool
any test [] = false
any test (line ∷ lines) = test line || any test lines

each_func-formats :
    (add eat : Bool) (line : List ℕ)
    → each_func (functions add eat) line false false ≡ ok (false, false, formatted add eat line)
unfolding each_func
each_func-formats false false line = refl
each_func-formats false true line = rw (eat_trailing_space-Trimmed line false)
each_func-formats true false line = rw (add_line_space-Spaced line false)
each_func-formats true true line =
    rw (add_line_space-Spaced line false, eat_trailing_space-Trimmed (spaced_line line) false)

each_func-checks :
    (add eat : Bool) (line : List ℕ)
    → each_func (functions add eat) line true false
      ≡ ok (needs add eat line, needs add eat line, line)
unfolding each_func
each_func-checks false false line = refl
each_func-checks false true line = elim (Bool-cases (ends_blank line)) [
  | inl e ↦ rw (eat_trailing_space-Trimmed line true, e)
  | inr e ↦ rw (eat_trailing_space-Trimmed line true, e)
]
each_func-checks true false line = elim (Bool-cases (is_tight_line line)) [
  | inl e ↦ rw (add_line_space-Spaced line true, e)
  | inr e ↦ rw (add_line_space-Spaced line true, e)
]
each_func-checks true true line = elim (Bool-cases (is_tight_line line)) [
  | inl e ↦ rw (add_line_space-Spaced line true, e)
  | inr e ↦ elim (Bool-cases (ends_blank line)) [
    | inl e' ↦ rw (add_line_space-Spaced line true, e, eat_trailing_space-Trimmed line true, e')
    | inr e' ↦ rw (add_line_space-Spaced line true, e, eat_trailing_space-Trimmed line true, e')
  ]
]

each_line-formats :
    (add eat : Bool) (lines : List (List ℕ))
    → each_line (functions add eat) lines false false ≡ ok (false, map (formatted add eat) lines)
unfolding each_line
each_line-formats add eat [] = refl
each_line-formats add eat (line ∷ lines) =
    rw (each_func-formats add eat line, each_line-formats add eat lines)

each_line-checks :
    (add eat : Bool) (lines : List (List ℕ))
    → each_line (functions add eat) lines true false ≡ ok (any (needs add eat) lines, lines)
unfolding each_line
each_line-checks add eat [] = refl
each_line-checks add eat (line ∷ lines) = elim (Bool-cases (needs add eat line)) [
  | inl e ↦ rw (each_func-checks add eat line, e)
  | inr e ↦ rw (each_func-checks add eat line, e, each_line-checks add eat lines)
]

abbrev pub with_functions : Bool → Bool → Officer → Officer
with_functions add eat officer = record officer { func_vec = functions add eat }

formatted-none : (lines : List (List ℕ)) → map (formatted false false) lines ≡ lines
formatted-none [] = refl
formatted-none (line ∷ lines) = ap (◌∷◌ line) (formatted-none lines)

any-none : (lines : List (List ℕ)) → any (needs false false) lines ≡ false
any-none [] = refl
any-none (line ∷ lines) = any-none lines

-- `format_check_each_line` ends for every choice of the functions and all lines. Formatting, it
-- puts the formatted line in the place of each, and its result is false. Checking, it leaves the
-- lines and says whether one of them is not as the functions leave it.
pub format_check_each_line-all :
    (add eat is_check : Bool) (officer : Officer)
    → format_check_each_line (with_functions add eat officer) is_check ≡ (
        if is_check
        then ok (any (needs add eat) officer.line_vec, with_functions add eat officer)
        else ok (
          false,
          record (with_functions add eat officer) {
            line_vec = map (formatted add eat) officer.line_vec;
          },
        ))
unfolding format_check_each_line
format_check_each_line-all false false true officer = rw (any-none officer.line_vec)
format_check_each_line-all false false false officer = rw (formatted-none officer.line_vec)
format_check_each_line-all false true true officer =
    rw (each_line-checks false true officer.line_vec)
format_check_each_line-all false true false officer =
    rw (each_line-formats false true officer.line_vec)
format_check_each_line-all true false true officer =
    rw (each_line-checks true false officer.line_vec)
format_check_each_line-all true false false officer =
    rw (each_line-formats true false officer.line_vec)
format_check_each_line-all true true true officer = rw (each_line-checks true true officer.line_vec)
format_check_each_line-all true true false officer =
    rw (each_line-formats true true officer.line_vec)

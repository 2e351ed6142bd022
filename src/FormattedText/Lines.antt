-- ===== src/FormattedText/Lines.antt =====
-- That a file is read as the lines it consists of, and that lines written and read are the same.
-- `load_target_file` and `save_to_file` of formatted_text/src/formatted_text.cpp.
use armory.Common.{
  ℕ, zero, suc, ◌+◌, ◌≤◌, ◌<◌, ◌≡◌, refl, sym, ap, ◌∙◌, pos, List, [], ◌∷◌, ◌++◌, true, false,
  arith, inl, inr, ok, length, ◌==◌, ==_iff, Bool-cases, if◌then◌else◌,
}
use mathlib.Core.List.{append_assoc, append-nil}
use armory.FormattedText.Files.{
  World, Env, Officer, until_newline, getline, read_lines, load_target_file, same_path, write_file,
  saved,
}

-- A byte in front of the first line.
abbrev cons_first : ℕ → List (List ℕ) → List (List ℕ)
cons_first c [] = (c ∷ []) ∷ []
cons_first c (line ∷ lines) = (c ∷ line) ∷ lines

-- The lines of a file; the last one may lack its newline.
unfoldable pub lines_of : List ℕ → List (List ℕ)
lines_of [] = []
lines_of (c ∷ stream) =
    let more = lines_of stream in if c == 10 then [] ∷ more else cons_first c more

-- No byte is a newline.
abbrev pub OneLine : List ℕ → Type 0
OneLine [] = Unit
OneLine (c ∷ line) = ((c == 10) ≡ false) × OneLine line

abbrev pub AllOneLine : List (List ℕ) → Type 0
AllOneLine [] = Unit
AllOneLine (line ∷ lines) = OneLine line × AllOneLine lines

-- A file that ends with a newline, or to which one is added.
unfoldable pub ended : List ℕ → List ℕ
ended [] = []
ended (c ∷ []) = if c == 10 then c ∷ [] else c ∷ 10 ∷ []
ended (c ∷ d ∷ stream) = c ∷ ended (d ∷ stream)

lines_of_nil : lines_of [] ≡ []
unfolding lines_of
lines_of_nil = refl

lines_of-until :
    (c : ℕ) (stream : List ℕ)
    → (let (line, rest) = until_newline (c ∷ stream) in
        (lines_of (c ∷ stream) ≡ line ∷ lines_of rest) × (length rest ≤ length stream))
unfolding until_newline lines_of
lines_of-until c [] = elim (Bool-cases (c == 10)) [
  | inl newline ↦ rw newline (refl, omega arith)
  | inr other ↦ rw other (refl, omega arith)
]
lines_of-until c (d ∷ stream) = elim (Bool-cases (c == 10)) [
  | inl newline ↦ rw newline (refl, omega arith)
  | inr other ↦
      let ih = lines_of-until d stream in rw other (ap (cons_first c) ih.0, omega (arith, ih.1))
]

read_lines-ok :
    (fuel : ℕ) (stream : List ℕ) (line_vec : List (List ℕ))
    → length stream < fuel
    → read_lines fuel stream line_vec ≡ ok (line_vec ++ lines_of stream)
unfolding read_lines getline
read_lines-ok zero stream line_vec h = absurd (omega arith)
read_lines-ok (suc fuel) [] line_vec h = rw (lines_of_nil, append-nil line_vec)
read_lines-ok (suc fuel) (c ∷ stream) line_vec h =
    let split = lines_of-until c stream in
    let (line, rest) = until_newline (c ∷ stream) in
    rw (
      split.0,
      read_lines-ok fuel rest (line_vec ++ line ∷ []) (omega (arith, split.1)),
      append_assoc line_vec (line ∷ []) (lines_of rest),
    )

-- A file that opens is read to its end, and its lines are added to those that are there.
pub load_target_file-reads :
    (env : Env) (officer : Officer) (path : List ℕ) (world : World)
    → env.open_read path world.disk ≡ true
    → load_target_file env officer path world
      ≡ ok (
        pos 0,
        record officer { line_vec = officer.line_vec ++ lines_of (world.disk path) },
        world,
      )
unfolding load_target_file
load_target_file-reads env officer path world opens = rw (
  opens,
  read_lines-ok (length (world.disk path) + 1) (world.disk path) officer.line_vec (omega arith),
)

lines_of-newline :
    (line bytes : List ℕ) → OneLine line → lines_of (line ++ 10 ∷ bytes) ≡ line ∷ lines_of bytes
unfolding lines_of
lines_of-newline [] bytes h = refl
lines_of-newline (c ∷ line) bytes h = rw (h.0, lines_of-newline line bytes h.1)

pub lines_of-saved : (lines : List (List ℕ)) → AllOneLine lines → lines_of (saved lines) ≡ lines
unfolding saved
lines_of-saved [] h = lines_of_nil
lines_of-saved (line ∷ lines) h =
    rw (lines_of-newline line (saved lines) h.0, lines_of-saved lines h.1)

cons_first-AllOneLine :
    (c : ℕ) (lines : List (List ℕ))
    → (c == 10) ≡ false
    → AllOneLine lines
    → AllOneLine (cons_first c lines)
cons_first-AllOneLine c [] h a = ((h, tt), tt)
cons_first-AllOneLine c (line ∷ lines) h a = ((h, a.0), a.1)

pub lines_of-AllOneLine : (stream : List ℕ) → AllOneLine (lines_of stream)
unfolding lines_of
lines_of-AllOneLine [] = tt
lines_of-AllOneLine (c ∷ stream) = elim (Bool-cases (c == 10)) [
  | inl newline ↦ rw newline (tt, lines_of-AllOneLine stream)
  | inr other ↦
      rw other (cons_first-AllOneLine c (lines_of stream) other (lines_of-AllOneLine stream))
]

saved-cons_first :
    (c : ℕ) (line : List ℕ) (lines : List (List ℕ))
    → saved (cons_first c (line ∷ lines)) ≡ c ∷ saved (line ∷ lines)
unfolding saved
saved-cons_first c line lines = refl

-- Saving the lines of a file gives the file, with a newline at its end.
pub saved-lines_of : (stream : List ℕ) → saved (lines_of stream) ≡ ended stream
unfolding saved lines_of ended
saved-lines_of [] = refl
saved-lines_of (c ∷ []) = elim (Bool-cases (c == 10)) [
  | inl newline ↦ let e = (==_iff c 10).0 newline in rw newline (ap (λ x. x ∷ []) (sym e))
  | inr other ↦ rw other
]
saved-lines_of (c ∷ d ∷ stream) = elim (Bool-cases (c == 10)) [
  | inl newline ↦
      let e = (==_iff c 10).0 newline in
      rw newline (
        ap (λ x. x ∷ saved (lines_of (d ∷ stream))) (sym e)
        ∙ ap (◌∷◌ c) (saved-lines_of (d ∷ stream)))
  | inr other ↦
      let split = lines_of-until d stream in
      rw other (
        ap (λ ls. saved (cons_first c ls)) split.0
        ∙ ap (λ ls. c ∷ saved ls) (sym split.0)
        ∙ ap (◌∷◌ c) (saved-lines_of (d ∷ stream)))
]

same_path_self : (path : List ℕ) → same_path path path ≡ true
unfolding same_path
same_path_self [] = refl
same_path_self (x ∷ path) = ground (arith, same_path_self path)

pub write_file_same :
    (path bytes : List ℕ) (disk : List ℕ → List ℕ) → write_file path bytes disk path ≡ bytes
unfolding write_file
write_file_same path bytes disk = rw (same_path_self path)

-- ===== src/FormattedText/Line.antt =====
-- The functions on a line of formatted_text/src/formatted_text.cpp: `IS_CH`, `add_line_space` and
-- `eat_trailing_space`. A `string` is the list of its bytes.
use armory.Common.{
  ℕ, zero, suc, ◌+◌, ◌-◌, ◌*◌, List, [], ◌∷◌, Bool, true, false, not, ◌&&◌, ◌||◌, Run, ok, fault,
  out_of_fuel, ◌>>=◌, length, at, leb, ltb, ◌==◌, if◌then◌else◌,
}

-- `IS_CH(c)`: '!' to '~' without the parentheses. As a `char` a byte from 128 on is negative, so
-- the test fails for it either way.
unfoldable pub is_ch : ℕ → Bool
is_ch c = leb 33 c && leb c 126 && not (c == 40) && not (c == 41)

-- `line[i]`: the entry at the size is the null character.
unfoldable pub char_at : List ℕ → ℕ → Run ℕ
char_at line i = if leb i (length line) then ok (at line i) else fault

-- `line.insert(i, 1, c)` with an index inside the line or at its end.
unfoldable pub insert : List ℕ → ℕ → ℕ → List ℕ
insert line zero c = c ∷ line
insert [] (suc i) c = []
insert (x ∷ line) (suc i) c = x ∷ insert line i c

-- `line.pop_back()`.
unfoldable pub pop_back : List ℕ → List ℕ
pop_back [] = []
pop_back (x ∷ []) = []
pop_back (x ∷ y ∷ line) = x ∷ pop_back (y ∷ line)

-- The inner loop of `add_line_space`: the end of the word that `i` stands in.
unfoldable pub word_end : ℕ → List ℕ → ℕ → Run ℕ
word_end zero line i = out_of_fuel
word_end (suc fuel) line i =
    let rest = word_end fuel line (i + 1) in
    do c ← char_at line i; if is_ch c && not (c == 32) && ltb i (length line) then rest else ok i

-- The part of the loop's body behind the insertion in front of a word: the word is passed over,
-- and `next` is the loop with the line and the index that the body leaves.
unfoldable pub close_word :
    List ℕ → ℕ → Bool → (List ℕ → ℕ → Run (Bool × List ℕ)) → Run (Bool × List ℕ)
close_word line i is_check next = do
  i ← word_end (length line + 1) line i
  c ← char_at line i
  if not (c == 32)
      then if is_check then ok (true, line) else next (insert line i 32) (i + 1)
      else next line (i + 1)

-- The body of the loop of `add_line_space`; `next` is the rest of the loop.
unfoldable pub space_word :
    List ℕ → ℕ → Bool → (List ℕ → ℕ → Run (Bool × List ℕ)) → Run (Bool × List ℕ)
space_word line i is_check next = do
  c ← char_at line i
  before ← char_at line (i - 1)
  if not (is_ch c)
      then next line (i + 1)
      else if not (before == 32) && not (i == 1)
      then if is_check then ok (true, line) else close_word (insert line i 32) i is_check next
      else close_word line i is_check next

-- The loop of `add_line_space` from `i` on, with the result and the line it leaves.
unfoldable pub add_space_from : ℕ → List ℕ → ℕ → Bool → Run (Bool × List ℕ)
add_space_from zero line i is_check = out_of_fuel
add_space_from (suc fuel) line i is_check =
    let next : List ℕ → ℕ → Run (Bool × List ℕ) = λ line i. add_space_from fuel line i is_check in
    if ltb i (length line) then space_word line i is_check next else ok (false, line)

-- A round of the loop reads a byte or writes a space in front of a word.
unfoldable pub add_line_space : List ℕ → Bool → Run (Bool × List ℕ)
add_line_space line is_check = add_space_from (2 * length line + 2) line 1 is_check

-- `' ' == c || '\t' == c`.
unfoldable pub is_blank : ℕ → Bool
is_blank c = c == 32 || c == 9

-- The loop of `eat_trailing_space`, which counts `i` down: the argument is `i + 1`.
unfoldable pub eat_space_from : ℕ → List ℕ → Bool → Run (Bool × List ℕ)
eat_space_from zero line is_check = ok (false, line)
eat_space_from (suc i) line is_check =
    let rest = eat_space_from i (pop_back line) is_check in
    do
      c ← char_at line i
      if is_blank c then if is_check then ok (true, line) else rest else ok (false, line)

unfoldable pub eat_trailing_space : List ℕ → Bool → Run (Bool × List ℕ)
eat_trailing_space line is_check = eat_space_from (length line) line is_check

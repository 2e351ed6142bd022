-- ===== src/FormattedText/Spacing/Loop.antt =====
-- That the loop of `add_line_space` in formatted_text/src/formatted_text.cpp does what its
-- description says: in both modes, on every line, and with the fuel it is given.
use armory.Common.{
  ℕ, zero, suc, ◌+◌, ◌-◌, ◌*◌, ◌≤◌, ◌<◌, ◌≡◌, refl, sym, ap, ◌∙◌, List, [], ◌∷◌, ◌++◌, Bool, true,
  false, not, ◌&&◌, arith, inl, inr, Run, ok, ◌>>=◌, length, ltb, ◌==◌, ==_iff, Bool-cases,
  if◌then◌else◌,
}
use mathlib.Core.List.{append_assoc, append-nil}
use armory.FormattedText.Line.{
  is_ch, char_at, insert, close_word, space_word, add_space_from, add_line_space,
}
use armory.FormattedText.Spacing.{
  gap, word, spaced, is_tight, spaced_line, is_tight_line, is_ch-space, length-append_end,
  length-append, append-cons, char_at-append, char_at-end, insert-append, word_end-here, starts,
  WordParts, split,
}
use armory.FormattedText.Spacing.Leaves.{
  leaves, leaves-word_end, leaves-word_space, leaves-word_other, leaves-gap_out, leaves-gap_in,
  leaves-gap_glued, leaves-split,
}

abbrev Next : Type 0
Next = List ℕ → ℕ → Run (Bool × List ℕ)

-- What `close_word` does at the end of the word.
abbrev at_word_end : List ℕ → ℕ → Bool → Next → Run (Bool × List ℕ)
at_word_end line i is_check next = do
  c ← char_at line i
  if not (c == 32)
      then if is_check then ok (true, line) else next (insert line i 32) (i + 1)
      else next line (i + 1)

close_word-ends :
    (q rest : List ℕ) (is_check : Bool) (next : Next) (d : WordParts rest)
    → close_word (q ++ rest) (length q) is_check next
      ≡ at_word_end ((q ++ d.head) ++ d.tail) (length (q ++ d.head)) is_check next
unfolding close_word
close_word-ends q rest is_check next d =
    let line : q ++ rest ≡ (q ++ d.head) ++ d.tail =
      ap (◌++◌ q) d.whole ∙ sym (append_assoc q d.head d.tail) in
    rw (
      d.ends q (length (q ++ rest) + 1) (omega (arith, length-append q rest)),
      length-append q d.head,
      ← line,
    )

insert-end : (q : List ℕ) (c : ℕ) → insert q (length q) c ≡ q ++ c ∷ []
insert-end q c = ap (λ line. insert line (length q) c) (sym (append-nil q)) ∙ insert-append q [] c

-- The loop that `next` stands for does its work behind a space.
abbrev DoneBehindSpace : Bool → Next → ℕ → Type 0
DoneBehindSpace m next n =
    (p rest : List ℕ)
    → length rest ≤ n
    → next (p ++ 32 ∷ rest) (length p + 1) ≡ leaves m (p ++ 32 ∷ []) (gap false) rest

-- The first byte of a gap that follows a word is a space, or gets one in front of it.
at_word_end-leaves :
    (m : Bool) (q tail : List ℕ) (next : Next)
    → starts tail ≡ false
    → DoneBehindSpace m next (length tail)
    → at_word_end (q ++ tail) (length q) m next ≡ leaves m q word tail
at_word_end-leaves true q [] next stops more =
    rw (append-nil q, char_at-end q, leaves-word_end true q)
at_word_end-leaves false q [] next stops more =
    rw (append-nil q, char_at-end q, insert-end q 32, leaves-word_end false q)
      (more q [] (omega arith))
at_word_end-leaves m q (c ∷ rest) next stops more = elim (Bool-cases (c == 32)) [
  | inl space ↦
      let e = (==_iff c 32).0 space in
      rw (e, char_at-append q 32 rest, leaves-word_space m q rest) (more q rest (omega arith))
  | inr other ↦ rw (
    char_at-append q c rest,
    other,
    insert-append q (c ∷ rest) 32,
    more q (c ∷ rest) (omega arith),
    leaves-word_other m q c rest stops other,
  )
]

-- A word in front of a space that ends at once.
close_word-space :
    (q rest : List ℕ) (is_check : Bool) (next : Next)
    → close_word (q ++ 32 ∷ rest) (length q) is_check next ≡ next (q ++ 32 ∷ rest) (length q + 1)
unfolding close_word
close_word-space q rest is_check next =
    let line = q ++ 32 ∷ rest in
    let e : length line + 1 ≡ suc (length line) = omega arith in
    let k : length q + 0 ≡ length q = omega arith in
    rw (e, word_end-here (length line) q (32 ∷ rest) is_ch-space, k, char_at-append q 32 rest)

-- Where the loop stands after the byte `before` at the index `i`.
abbrev glued_at : ℕ → ℕ → Bool
glued_at before i = not (before == 32) && not (i == 1)

abbrev cost : Bool → ℕ
cost glued = if glued then 1 else 0

-- A word from its first byte on.
close_word-leaves :
    (m : Bool) (q : List ℕ) (c : ℕ) (rest : List ℕ) (next : Next)
    → is_ch c ≡ true
    → DoneBehindSpace m next (length rest)
    → close_word (q ++ c ∷ rest) (length q) m next ≡ leaves m q word (c ∷ rest)
close_word-leaves m q c rest next h more =
    let d = split (c ∷ rest) in
    let shorter : length d.tail ≤ length rest =
      omega (arith, d.some_head h, ap length d.whole, length-append d.head d.tail) in
    close_word-ends q (c ∷ rest) m next d
    ∙ at_word_end-leaves m (q ++ d.head) d.tail next d.stops (λ p r l. more p r (omega arith))
    ∙ sym (leaves-split m q (c ∷ rest) d)

cost-le-one : (g : Bool) → cost g ≤ 1
cost-le-one true = omega arith
cost-le-one false = omega arith

-- A round at the byte `c`, with `q` for the bytes in front of it.
add_space_from-round :
    (m : Bool) (fuel : ℕ) (p : List ℕ) (before c : ℕ) (rest : List ℕ)
    → (let q = p ++ before ∷ [] in
        let next : Next = λ line i. add_space_from fuel line i m in
        add_space_from (suc fuel) (p ++ before ∷ c ∷ rest) (length p + 1) m ≡ (
          if not (is_ch c)
          then next (q ++ c ∷ rest) (length q + 1)
          else if glued_at before (length p + 1)
          then if m then ok (true, q ++ c ∷ rest) else next (q ++ 32 ∷ c ∷ rest) (length q + 1)
          else close_word (q ++ c ∷ rest) (length q) m next))
unfolding add_space_from space_word
add_space_from-round m fuel p before c rest =
    let q = p ++ before ∷ [] in
    let e : length p + 1 ≡ length q = sym (length-append_end p before) in
    let back : char_at (q ++ c ∷ rest) (length q - 1) ≡ ok before =
      let e' : length q - 1 ≡ length p = omega (arith, e) in
      rw (e', ← append-cons p before (c ∷ rest), char_at-append p before (c ∷ rest)) in
    let inside : ltb (length q) (length (q ++ c ∷ rest)) ≡ true =
      ground (arith, length-append q (c ∷ rest)) in
    rw (
      append-cons p before (c ∷ rest),
      e,
      inside,
      char_at-append q c rest,
      back,
      insert-append q (c ∷ rest) 32,
      close_word-space q (c ∷ rest) m,
    )

add_space_from-end :
    (m : Bool) (fuel : ℕ) (p : List ℕ) (before : ℕ)
    → add_space_from (suc fuel) (p ++ before ∷ []) (length p + 1) m ≡ ok (false, p ++ before ∷ [])
unfolding add_space_from
add_space_from-end m fuel p before =
    let out : ltb (length p + 1) (length (p ++ before ∷ [])) ≡ false =
      ground (arith, length-append_end p before) in
    rw out

leaves-end : (m : Bool) (q : List ℕ) (g : Bool) → leaves m q (gap g) [] ≡ ok (false, q)
unfolding leaves spaced is_tight
leaves-end true q g = rw (append-nil q)
leaves-end false q g = rw (append-nil q)

glued_at-later : (q : List ℕ) (x y : ℕ) → glued_at y (length (q ++ x ∷ []) + 1) ≡ not (y == 32)
glued_at-later q x y = ground (arith, length-append_end q x)

-- The loop from the index behind `before` on does what the description says.
add_space_from-leaves :
    (m : Bool) (fuel : ℕ) (p : List ℕ) (before : ℕ) (rest : List ℕ)
    → 2 * length rest + cost (glued_at before (length p + 1)) < fuel
    → add_space_from fuel (p ++ before ∷ rest) (length p + 1) m
      ≡ leaves m (p ++ before ∷ []) (gap (glued_at before (length p + 1))) rest
add_space_from-leaves m zero p before rest h = absurd (omega arith)
add_space_from-leaves m (suc fuel) p before [] h =
    add_space_from-end m fuel p before ∙ sym (leaves-end m (p ++ before ∷ []) _)
add_space_from-leaves m (suc fuel) p before (c ∷ rest) h =
    let q : List ℕ = p ++ before ∷ [] in
    let behind : (p' rest' : List ℕ)
        → length rest' ≤ length rest
        → add_space_from fuel (p' ++ 32 ∷ rest') (length p' + 1) m
          ≡ leaves m (p' ++ 32 ∷ []) (gap false) rest' =
      λ p' rest' l. add_space_from-leaves m fuel p' 32 rest' (omega arith) in
    add_space_from-round m fuel p before c rest ∙ elim (Bool-cases (is_ch c)) [
      | inl in_word ↦ elim (Bool-cases (glued_at before (length p + 1))) [
        | inl glued ↦
            rw (in_word, glued, leaves-gap_glued m q c rest in_word)
              (ap (λ s. if m then ok (true, q ++ c ∷ rest) else s)
                (add_space_from-leaves m fuel q 32 (c ∷ rest) (omega (arith, ap cost glued))))
        | inr apart ↦
            rw (in_word, apart, leaves-gap_in m q c rest in_word)
              (close_word-leaves m q c rest _ in_word behind)
      ]
      | inr out ↦
          rw (out, leaves-gap_out m q (glued_at before (length p + 1)) c rest out)
            (add_space_from-leaves m fuel q c rest
                (omega (arith, cost-le-one (glued_at c (length q + 1))))
              ∙ ap (λ g. leaves m (q ++ c ∷ []) (gap g) rest) (glued_at-later p before c))
    ]

glued_at-first : (x : ℕ) → glued_at x 1 ≡ false
glued_at-first x = ground arith

add_line_space-leaves :
    (m : Bool) (x : ℕ) (rest : List ℕ)
    → add_line_space (x ∷ rest) m ≡ leaves m (x ∷ []) (gap false) rest
unfolding add_line_space
add_line_space-leaves m x rest =
    add_space_from-leaves m (2 * suc (length rest) + 2) [] x rest
      (omega (arith, cost-le-one (glued_at x 1)))
    ∙ ap (λ g. leaves m (x ∷ []) (gap g) rest) (glued_at-first x)

-- `add_line_space` ends on every line. Its words are the longest runs of the bytes 33 to 126
-- without parentheses in the line from its second byte on. A space is missing in front of a word that
-- has no space there, unless it begins at the second byte, and behind a word that has no space
-- there, also at the end of the line. Checking, it leaves the line and says whether a space is missing
-- somewhere. Formatting, it puts a space in each of these places, and its result is false. So one byte
-- at the start of a line that no word follows gets no space, and parentheses get none of their own.
pub add_line_space-Spaced :
    (line : List ℕ) (is_check : Bool)
    → add_line_space line is_check
      ≡ ok (if is_check then (is_tight_line line, line) else (false, spaced_line line))
unfolding add_line_space add_space_from is_tight_line spaced_line leaves
add_line_space-Spaced [] true = refl
add_line_space-Spaced [] false = refl
add_line_space-Spaced (x ∷ rest) true = add_line_space-leaves true x rest
add_line_space-Spaced (x ∷ rest) false = add_line_space-leaves false x rest

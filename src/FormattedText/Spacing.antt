-- ===== src/FormattedText/Spacing.antt =====
-- What `add_line_space` of formatted_text/src/formatted_text.cpp does to a line, described from
-- left to right without an index, and that the loop does it.
pub mod Leaves
pub mod Loop
pub mod Settled
use armory.Common.{
  ℕ, zero, suc, ◌+◌, ◌-◌, ◌*◌, ◌≤◌, ◌<◌, ◌≡◌, refl, sym, ap, ◌∙◌, List, [], ◌∷◌, ◌++◌, Bool, true,
  false, not, ◌&&◌, ◌||◌, arith, inl, inr, Run, ok, ◌>>=◌, length, at, leb, ltb, lt→ltb,
  le→ltb-false, ◌==◌, ==_iff, Bool-cases, if◌then◌else◌,
}
use mathlib.Core.List.{append_assoc, append-nil}
use armory.FormattedText.Line.{
  is_ch, char_at, insert, word_end, close_word, space_word, add_space_from, add_line_space,
}

-- Where the scan of a line is: in a word, or in a gap whose last byte is `glued` to a word that
-- would follow it.
pub data Place : Type 0 where
  gap : (glued : Bool) → Place
  word : Place

-- A space is missing in front of `c`.
unfoldable pub is_border : Place → ℕ → Bool
is_border (gap glued) c = is_ch c && glued
is_border word c = not (is_ch c) && not (c == 32)

unfoldable pub after : ℕ → Place
after c = if is_ch c then word else gap (not (c == 32))

-- The rest of a line with a space at every border, its end included.
unfoldable pub spaced : Place → List ℕ → List ℕ
spaced (gap glued) [] = []
spaced word [] = 32 ∷ []
spaced place (c ∷ rest) =
    let more = spaced (after c) rest in if is_border place c then 32 ∷ c ∷ more else c ∷ more

-- The rest has a border without a space.
unfoldable pub is_tight : Place → List ℕ → Bool
is_tight (gap glued) [] = false
is_tight word [] = true
is_tight place (c ∷ rest) = let more = is_tight (after c) rest in is_border place c || more

-- The whole line: the first byte counts neither as a part of a word nor as something to keep apart
-- from one.
unfoldable pub spaced_line : List ℕ → List ℕ
spaced_line [] = []
spaced_line (x ∷ rest) = x ∷ spaced (gap false) rest

unfoldable pub is_tight_line : List ℕ → Bool
is_tight_line [] = false
is_tight_line (x ∷ rest) = is_tight (gap false) rest

-- The facts on an index that splits a line.
pub length-append_end : (q : List ℕ) (x : ℕ) → length (q ++ x ∷ []) ≡ length q + 1
length-append_end [] x = refl
length-append_end (y ∷ q) x = omega (arith, length-append_end q x)

pub length-append : (q r : List ℕ) → length (q ++ r) ≡ length q + length r
length-append [] r = omega arith
length-append (y ∷ q) r = omega (arith, length-append q r)

pub append-cons : (q : List ℕ) (x : ℕ) (r : List ℕ) → q ++ x ∷ r ≡ (q ++ x ∷ []) ++ r
append-cons q x r = sym (append_assoc q (x ∷ []) r)

at-append : (q : List ℕ) (c : ℕ) (r : List ℕ) → at (q ++ c ∷ r) (length q) ≡ c
unfolding at
at-append [] c r = refl
at-append (x ∷ q) c r = at-append q c r

pub char_at-append : (q : List ℕ) (c : ℕ) (r : List ℕ) → char_at (q ++ c ∷ r) (length q) ≡ ok c
unfolding char_at
char_at-append q c r =
    let inside : leb (length q) (length (q ++ c ∷ r)) ≡ true =
      ground (arith, length-append q (c ∷ r)) in
    rw (inside, at-append q c r)

at-end : (q : List ℕ) → at q (length q) ≡ 0
unfolding at
at-end [] = refl
at-end (x ∷ q) = at-end q

pub char_at-end : (q : List ℕ) → char_at q (length q) ≡ ok 0
unfolding char_at
char_at-end q =
    let inside : leb (length q) (length q) ≡ true = ground arith in rw (inside, at-end q)

pub insert-append : (q r : List ℕ) (c : ℕ) → insert (q ++ r) (length q) c ≡ q ++ c ∷ r
unfolding insert
insert-append [] r c = refl
insert-append (x ∷ q) r c = ap (◌∷◌ x) (insert-append q r c)

-- The rest begins with a byte of a word.
abbrev pub starts : List ℕ → Bool
starts [] = false
starts (c ∷ rest) = is_ch c

pub is_ch-space : is_ch 32 ≡ false
unfolding is_ch
is_ch-space = refl

is_ch-not_space : (c : ℕ) → is_ch c ≡ true → (c == 32) ≡ false
unfolding is_ch
is_ch-not_space c h = ground arith

pub word_end-here :
    (fuel : ℕ) (q rest : List ℕ)
    → starts rest ≡ false
    → word_end (suc fuel) (q ++ rest) (length q) ≡ ok (length q + 0)
unfolding word_end is_ch
word_end-here fuel q [] h = rw (append-nil q, char_at-end q) (ap ok (omega arith))
word_end-here fuel q (c ∷ rest) h = rw (char_at-append q c rest, h) (ap ok (omega arith))

word_end_step :
    (fuel : ℕ) (q : List ℕ) (c : ℕ) (rest : List ℕ)
    → is_ch c ≡ true
    → word_end (suc fuel) (q ++ c ∷ rest) (length q)
      ≡ word_end fuel ((q ++ c ∷ []) ++ rest) (length (q ++ c ∷ []))
unfolding word_end
word_end_step fuel q c rest h =
    let inside : ltb (length q) (length (q ++ c ∷ rest)) ≡ true =
      ground (arith, length-append q (c ∷ rest)) in
    rw (
      char_at-append q c rest,
      h,
      is_ch-not_space c h,
      inside,
      length-append_end q c,
      ← append-cons q c rest,
    )

-- A rest, split at the end of the word it begins with.
pub record WordParts (rest : List ℕ) : Type 0 where
  pub head : List ℕ
  pub tail : List ℕ
  pub whole : rest ≡ head ++ tail
  pub stops : starts tail ≡ false
  pub spaces : spaced word rest ≡ head ++ spaced word tail
  pub checks : is_tight word rest ≡ is_tight word tail
  pub some_head : starts rest ≡ true → 0 < length head
  pub ends :
      (q : List ℕ) (fuel : ℕ)
      → length rest < fuel
      → word_end fuel (q ++ rest) (length q) ≡ ok (length q + length head)

split_here : (rest : List ℕ) → starts rest ≡ false → WordParts rest
split_here rest h = record {
  head = [];
  tail = rest;
  whole = refl;
  stops = h;
  spaces = refl;
  checks = refl;
  some_head = λ e. ground arith;
  ends = here;
}
  where
    here :
        (q : List ℕ) (fuel : ℕ)
        → length rest < fuel
        → word_end fuel (q ++ rest) (length q) ≡ ok (length q + 0)
    here q zero l = absurd (omega arith)
    here q (suc fuel) l = word_end-here fuel q rest h

split_more : (c : ℕ) (rest : List ℕ) → is_ch c ≡ true → WordParts rest → WordParts (c ∷ rest)
unfolding spaced is_tight is_border after
split_more c rest h d = record {
  head = c ∷ d.head;
  tail = d.tail;
  whole = ap (◌∷◌ c) d.whole;
  stops = d.stops;
  spaces = rw h (ap (◌∷◌ c) d.spaces);
  checks = rw h d.checks;
  some_head = λ e. omega arith;
  ends = more;
}
  where
    more :
        (q : List ℕ) (fuel : ℕ)
        → suc (length rest) < fuel
        → word_end fuel (q ++ c ∷ rest) (length q) ≡ ok (length q + suc (length d.head))
    more q zero l = absurd (omega arith)
    more q (suc fuel) l =
        word_end_step fuel q c rest h
        ∙ d.ends (q ++ c ∷ []) fuel (omega arith)
        ∙ ap ok (omega (arith, length-append_end q c))

pub split : (rest : List ℕ) → WordParts rest
split [] = split_here [] refl
split (c ∷ rest) = elim (Bool-cases (is_ch c)) [
  | inl in_word ↦ split_more c rest in_word (split rest)
  | inr out ↦ split_here (c ∷ rest) out
]

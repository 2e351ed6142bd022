-- ===== src/FormattedText/Spacing/Leaves.antt =====
-- What the loop of `add_line_space` in formatted_text/src/formatted_text.cpp leaves from any place
-- of a line on, in both modes, and how that changes with each byte.
use armory.Common.{
  ℕ, ◌≡◌, ap, List, [], ◌∷◌, ◌++◌, Bool, true, false, not, Run, ok, ◌==◌, if◌then◌else◌,
}
use mathlib.Core.List.{append_assoc, append-nil}
use armory.FormattedText.Line.{is_ch}
use armory.FormattedText.Spacing.{
  Place, gap, word, is_border, after, spaced, is_tight, append-cons, WordParts,
}

-- The result and the line that the loop leaves if `q` is read and the scan stands at `place` in
-- front of `rest`.
unfoldable pub leaves : Bool → List ℕ → Place → List ℕ → Run (Bool × List ℕ)
leaves true q place rest = ok (is_tight place rest, q ++ rest)
leaves false q place rest = ok (false, q ++ spaced place rest)

pub leaves-word_end :
    (m : Bool) (q : List ℕ)
    → leaves m q word [] ≡ (if m then ok (true, q) else leaves m (q ++ 32 ∷ []) (gap false) [])
unfolding leaves spaced is_tight
leaves-word_end true q = rw (append-nil q)
leaves-word_end false q = rw (append-nil (q ++ 32 ∷ []))

pub leaves-word_space :
    (m : Bool) (q rest : List ℕ)
    → leaves m q word (32 ∷ rest) ≡ leaves m (q ++ 32 ∷ []) (gap false) rest
unfolding leaves spaced is_tight is_border after is_ch
leaves-word_space true q rest = rw (append-cons q 32 rest)
leaves-word_space false q rest = rw (append-cons q 32 (spaced (gap false) rest))

pub leaves-word_other :
    (m : Bool) (q : List ℕ) (c : ℕ) (rest : List ℕ)
    → is_ch c ≡ false
    → (c == 32) ≡ false
    → leaves m q word (c ∷ rest)
      ≡ (if m then ok (true, q ++ c ∷ rest) else leaves m (q ++ 32 ∷ []) (gap false) (c ∷ rest))
unfolding leaves spaced is_tight is_border after
leaves-word_other true q c rest h k = rw (h, k)
leaves-word_other false q c rest h k = rw (h, k, append-cons q 32 (c ∷ spaced (gap true) rest))

pub leaves-gap_out :
    (m : Bool) (q : List ℕ) (g : Bool) (c : ℕ) (rest : List ℕ)
    → is_ch c ≡ false
    → leaves m q (gap g) (c ∷ rest) ≡ leaves m (q ++ c ∷ []) (gap (not (c == 32))) rest
unfolding leaves spaced is_tight is_border after
leaves-gap_out true q g c rest h = rw (h, append-cons q c rest)
leaves-gap_out false q g c rest h = rw (h, append-cons q c (spaced (gap (not (c == 32))) rest))

pub leaves-gap_in :
    (m : Bool) (q : List ℕ) (c : ℕ) (rest : List ℕ)
    → is_ch c ≡ true
    → leaves m q (gap false) (c ∷ rest) ≡ leaves m q word (c ∷ rest)
unfolding leaves spaced is_tight is_border after
leaves-gap_in true q c rest h = rw h
leaves-gap_in false q c rest h = rw h

pub leaves-gap_glued :
    (m : Bool) (q : List ℕ) (c : ℕ) (rest : List ℕ)
    → is_ch c ≡ true
    → leaves m q (gap true) (c ∷ rest)
      ≡ (if m then ok (true, q ++ c ∷ rest) else leaves m (q ++ 32 ∷ []) (gap false) (c ∷ rest))
unfolding leaves spaced is_tight is_border after
leaves-gap_glued true q c rest h = rw h
leaves-gap_glued false q c rest h = rw (h, append-cons q 32 (c ∷ spaced word rest))

pub leaves-split :
    (m : Bool) (q rest : List ℕ) (d : WordParts rest)
    → leaves m q word rest ≡ leaves m (q ++ d.head) word d.tail
unfolding leaves
leaves-split true q rest d =
    rw (d.checks, append_assoc q d.head d.tail)
      (ap (λ r. ok (is_tight word d.tail, q ++ r)) d.whole)
leaves-split false q rest d = rw (d.spaces, append_assoc q d.head (spaced word d.tail))

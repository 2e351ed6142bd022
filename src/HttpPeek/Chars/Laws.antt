-- ===== src/HttpPeek/Chars/Laws.antt =====
-- `token_char_map` is the set of token characters that RFC 7230 lists.
use armory.Common.{
  ℕ, zero, suc, ◌^◌, ◌<◌, ◌≡◌, refl, List, [], ◌∷◌, Bool, true, false, ◌&&◌, ◌||◌, arith, at, leb,
  ◌==◌,
}
use native.Mathlib.Decide.{ℕ_discrete}
use armory.HttpPeek.Chars.{no_tokens, tokens, token_char_map, token_char}

mem : ℕ → List ℕ → Bool
mem c [] = false
mem c (x ∷ xs) = (c == x) || mem c xs

-- The marks among the token characters: ! # $ % & ' * + - . ^ _ ` | ~
abbrev pub marks : List ℕ
marks = 33 ∷ 35 ∷ 36 ∷ 37 ∷ 38 ∷ 39 ∷ 42 ∷ 43 ∷ 45 ∷ 46 ∷ 94 ∷ 95 ∷ 96 ∷ 124 ∷ 126 ∷ []

-- `tchar` of RFC 7230: a digit, a letter or one of the marks.
abbrev pub is_tchar : ℕ → Bool
unfolding mem
is_tchar c =
    (leb 48 c && leb c 57) || (leb 65 c && leb c 90) || (leb 97 c && leb c 122) || mem c marks

abbrev agree : Bool → Bool → Bool
agree true b = b
agree false true = false
agree false false = true

agree→≡ : (a b : Bool) → agree a b ≡ true → a ≡ b
agree→≡ true b h = ground arith
agree→≡ false b h = ground arith

abbrev all_below : ℕ → (ℕ → Bool) → Bool
all_below zero p = true
all_below (suc n) p = p n && all_below n p

all_below-holds : (n : ℕ) (p : ℕ → Bool) → all_below n p ≡ true → (c : ℕ) → c < n → p c ≡ true
all_below-holds zero p h c l = absurd (omega arith)
all_below-holds (suc n) p h c l = elim (ℕ_discrete c n) [
  | yes e ↦ rw e (ground arith)
  | no other ↦ all_below-holds n p (ground arith) c (omega arith)
]

-- For every byte the table says exactly whether RFC 7230 allows it in a token.
pub token_char-is_tchar : (c : ℕ) → c < 2 ^ 8 → token_char c ≡ is_tchar c
unfolding token_char token_char_map no_tokens tokens at is_tchar
token_char-is_tchar c h =
    agree→≡ (token_char c) (is_tchar c)
      (all_below-holds (2 ^ 8) (λ c. agree (token_char c) (is_tchar c)) refl c h)

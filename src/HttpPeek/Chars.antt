-- ===== src/HttpPeek/Chars.antt =====
-- The tests on one byte of common/http_peek.c. A `char` is its bit pattern, below 2 ^ 8.
pub mod Laws
use armory.Common.{
  ℕ, zero, suc, ◌%◌, ◌^◌, List, [], ◌∷◌, ◌++◌, Bool, not, ◌&&◌, ◌||◌, at, ltb, ◌==◌, sub32,
}

-- `IS_PRINTABLE_ASCII`: a difference of `unsigned int`.
unfoldable pub printable : ℕ → Bool
printable c = ltb (sub32 c 32) 95

-- `CHAR_IS_NOT_NUMBER`.
unfoldable pub char_is_not_number : ℕ → Bool
char_is_not_number c = ltb c 48 || ltb 57 c

-- `\0` `n` times.
unfoldable pub no_tokens : ℕ → List ℕ
no_tokens zero = []
no_tokens (suc n) = 0 ∷ no_tokens n

-- `\1` `n` times.
unfoldable pub tokens : ℕ → List ℕ
tokens zero = []
tokens (suc n) = 1 ∷ tokens n

-- `token_char_map`, a row of the source after the other.
unfoldable pub token_char_map : List ℕ
unfolding no_tokens tokens
token_char_map =
    no_tokens 32
    ++ (0 ∷ 1 ∷ 0 ∷ tokens 5)
    ++ (0 ∷ 0 ∷ 1 ∷ 1 ∷ 0 ∷ 1 ∷ 1 ∷ 0 ∷ [])
    ++ tokens 10
    ++ no_tokens 6
    ++ no_tokens 1
    ++ tokens 26
    ++ (0 ∷ 0 ∷ 0 ∷ 1 ∷ 1 ∷ [])
    ++ tokens 27
    ++ (0 ∷ 1 ∷ 0 ∷ 1 ∷ 0 ∷ [])
    ++ no_tokens 128

-- `token_char_map[(unsigned char)c]` is not 0.
unfoldable pub token_char : ℕ → Bool
token_char c = not (at token_char_map (c % 2 ^ 8) == 0)

-- The control characters that end a line's token: all but the tab, and DEL.
unfoldable pub ends_line : ℕ → Bool
ends_line c = (ltb c 32 && not (c == 9)) || (c == 127)

-- The control characters that a path must not have: the tab too.
unfoldable pub breaks_path : ℕ → Bool
breaks_path c = ltb c 32 || (c == 127)

-- A space or a tab.
unfoldable pub blank : ℕ → Bool
blank c = (c == 32) || (c == 9)

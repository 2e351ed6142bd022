-- ===== src/HttpPeek/Scan.antt =====
-- The scanners of common/http_peek.c that stop at a character. A pointer into the buffer is an
-- index, `buf_end` the index behind its last byte; reads are tested against the bytes there are.

pub mod Search
pub mod Tokens
pub mod Blanks
pub mod Version
use armory.Common.{
  ℕ, zero, suc, ◌+◌, ◌-◌, ◌%◌, ◌^◌, List, [], ◌∷◌, Option, none, some, Bool, true, false, not, ◌&&◌,
  ◌||◌, Run, ok, out_of_fuel, ◌>>=◌, ltb, ◌==◌, if◌then◌else◌,
}
use armory.ClassicSort.Memory.{load}
use armory.HttpPeek.Chars.{printable, char_is_not_number, token_char, breaks_path, blank}

-- The distance of two pointers as a `uint16_t`.
abbrev pub distance : ℕ → ℕ → ℕ
distance start stop = (stop - start) % 2 ^ 16

-- `EXPECT_CHAR`: the index behind the character.
unfoldable pub expect_char : List ℕ → ℕ → ℕ → ℕ → Run (Option ℕ)
expect_char bytes buf_end buf ch =
    let test : Run (Option ℕ) = do c ← load bytes buf; ok (if c == ch then some (buf + 1) else none)
    in if buf == buf_end then ok none else test

-- The loop of `parse_token`: the index of `next_char`.
unfoldable pub token_loop : ℕ → List ℕ → ℕ → ℕ → ℕ → Run (Option ℕ)
token_loop zero bytes buf_end next_char buf = out_of_fuel
token_loop (suc fuel) bytes buf_end next_char buf =
    let rest = token_loop fuel bytes buf_end next_char (buf + 1) in
    let more = if buf + 1 == buf_end then ok none else rest in
    do
      c ← load bytes buf
      if c == next_char then ok (some buf) else if not (token_char c) then ok none else more

-- The index of `next_char`; the token before it, and its length.
unfoldable pub parse_token : List ℕ → ℕ → ℕ → ℕ → Run (Option (ℕ × ℕ × ℕ))
parse_token bytes buf_end buf next_char = do
  o ← token_loop (buf_end + 1) bytes buf_end next_char buf
  elim o [ none ↦ ok none | some p ↦ ok (some (p, buf, distance buf p)) ]

-- The loop of `ADVANCE_TOKEN`: the index of the space behind the token.
unfoldable pub advance_loop : ℕ → List ℕ → ℕ → ℕ → Run (Option ℕ)
advance_loop zero bytes buf_end buf = out_of_fuel
advance_loop (suc fuel) bytes buf_end buf =
    let rest = advance_loop fuel bytes buf_end (buf + 1) in
    let more = if buf + 1 == buf_end then ok none else rest in
    do
      c ← load bytes buf
      if c == 32
          then ok (some buf)
          else if not (printable c) && breaks_path c
          then ok none
          else more

unfoldable pub advance_token : List ℕ → ℕ → ℕ → Run (Option (ℕ × ℕ × ℕ))
advance_token bytes buf_end buf = do
  o ← advance_loop (buf_end + 1) bytes buf_end buf
  elim o [ none ↦ ok none | some p ↦ ok (some (p, buf, distance buf p)) ]

-- `do { ++buf; CHECK_EOF(); } while (*buf == ' ')`.
unfoldable pub skip_spaces : ℕ → List ℕ → ℕ → ℕ → Run (Option ℕ)
skip_spaces zero bytes buf_end buf = out_of_fuel
skip_spaces (suc fuel) bytes buf_end buf =
    let rest = skip_spaces fuel bytes buf_end (buf + 1) in
    let test : Run (Option ℕ) = do
      c ← load bytes (buf + 1)
      if c == 32 then rest else ok (some (buf + 1))
    in if buf + 1 == buf_end then ok none else test

-- The `for` of `parse_header` that skips spaces and tabs.
unfoldable pub skip_blanks : ℕ → List ℕ → ℕ → ℕ → Run (Option ℕ)
skip_blanks zero bytes buf_end buf = out_of_fuel
skip_blanks (suc fuel) bytes buf_end buf =
    let rest = skip_blanks fuel bytes buf_end (buf + 1) in
    let test : Run (Option ℕ) = do c ← load bytes buf; if not (blank c) then ok (some buf) else rest
    in if buf == buf_end then ok none else test

-- The `for` of `parse_header` that removes trailing spaces and tabs: the length that is left.
unfoldable pub trim_blanks : List ℕ → ℕ → ℕ → Run ℕ
trim_blanks bytes value zero = ok 0
trim_blanks bytes value (suc n) =
    let rest = trim_blanks bytes value n in
    do c ← load bytes (value + n); if not (blank c) then ok (suc n) else rest

-- Whether the bytes from `buf` on are these.
unfoldable pub has_prefix : List ℕ → ℕ → List ℕ → Run Bool
has_prefix bytes buf [] = ok true
has_prefix bytes buf (x ∷ xs) =
    let rest = has_prefix bytes (buf + 1) xs in
    do c ← load bytes buf; if not (c == x) then ok false else rest

-- `HTTP/1.`
abbrev pub version_prefix : List ℕ
version_prefix = 72 ∷ 84 ∷ 84 ∷ 80 ∷ 47 ∷ 49 ∷ 46 ∷ []

-- The index behind the version, and the version.
unfoldable pub parse_http_version : List ℕ → ℕ → ℕ → Run (Option (ℕ × ℕ))
parse_http_version bytes buf_end buf =
    let digit : Run (Option (ℕ × ℕ)) = do
      c ← load bytes (buf + 7)
      ok (if char_is_not_number c then none else some (buf + 8, c - 48))
    in let test : Run (Option (ℕ × ℕ)) = do
      same ← has_prefix bytes buf version_prefix
      if not same then ok none else digit
      in if ltb buf_end (buf + 9) then ok none else test

-- ===== src/HttpPeek/Eol.antt =====
-- `get_token_to_eol` of common/http_peek.c: the rest of a line, read eight bytes at a time.

pub mod Loops
pub mod Line
use armory.Common.{
  ℕ, zero, suc, ◌+◌, ◌-◌, List, Option, none, some, Bool, true, false, not, ◌&&◌, Run, ok,
  out_of_fuel, ◌>>=◌, leb, ◌==◌, if◌then◌else◌,
}
use armory.ClassicSort.Memory.{load}
use armory.HttpPeek.Chars.{printable, ends_line}
use armory.HttpPeek.Scan.{distance, expect_char}

-- `n` times `DOIT()`: whether all `n` bytes are printable, and where it stops.
unfoldable pub doit : ℕ → List ℕ → ℕ → Run (Bool × ℕ)
doit zero bytes buf = ok (true, buf)
doit (suc n) bytes buf =
    let rest = doit n bytes (buf + 1) in
    do c ← load bytes buf; if not (printable c) then ok (false, buf) else rest

-- The body of the `while`: whether it finds the end of the line, and where it stops.
unfoldable pub eight_bytes : List ℕ → ℕ → Run (Bool × ℕ)
eight_bytes bytes buf = do
  (all, p) ← doit 8 bytes buf
  let non_printable : Run (Bool × ℕ) = do
    c ← load bytes p
    ok (if ends_line c then (true, p) else (false, p + 1))
  if all then ok (false, p) else non_printable

-- `while (buf_end - buf >= 8)`.
unfoldable pub fast_loop : ℕ → List ℕ → ℕ → ℕ → Run (Bool × ℕ)
fast_loop zero bytes buf_end buf = out_of_fuel
fast_loop (suc fuel) bytes buf_end buf =
    let body : Run (Bool × ℕ) = do
      (found, p) ← eight_bytes bytes buf
      let rest = fast_loop fuel bytes buf_end p
      if found then ok (true, p) else rest
    in if leb (buf + 8) buf_end then body else ok (false, buf)

-- `for (;; ++buf)`: the index of the control character.
unfoldable pub slow_loop : ℕ → List ℕ → ℕ → ℕ → Run (Option ℕ)
slow_loop zero bytes buf_end buf = out_of_fuel
slow_loop (suc fuel) bytes buf_end buf =
    let rest = slow_loop fuel bytes buf_end (buf + 1) in
    let test : Run (Option ℕ) = do
      c ← load bytes buf
      if not (printable c) && ends_line c then ok (some buf) else rest
    in if buf == buf_end then ok none else test

-- From the label `FOUND_CTL` on: the index behind the line, and its token.
unfoldable pub found_ctl : List ℕ → ℕ → ℕ → ℕ → Run (Option (ℕ × ℕ × ℕ))
found_ctl bytes buf_end token_start buf =
    let cr : Run (Option (ℕ × ℕ × ℕ)) = do
      o ← expect_char bytes buf_end (buf + 1) 10
      elim o [ none ↦ ok none | some p ↦ ok (some (p, token_start, distance token_start (p - 2))) ]
    in do
      c ← load bytes buf
      if c == 13
          then cr
          else if c == 10
          then ok (some (buf + 1, token_start, distance token_start buf))
          else ok none

unfoldable pub get_token_to_eol : List ℕ → ℕ → ℕ → Run (Option (ℕ × ℕ × ℕ))
get_token_to_eol bytes buf_end buf = do
  (found, p) ← fast_loop (buf_end + 1) bytes buf_end buf
  o ← if found then ok (some p) else slow_loop (buf_end + 1) bytes buf_end p
  elim o [ none ↦ ok none | some q ↦ found_ctl bytes buf_end buf q ]

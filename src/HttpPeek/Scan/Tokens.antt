-- ===== src/HttpPeek/Scan/Tokens.antt =====
-- `parse_token` and `ADVANCE_TOKEN` find the longest token.
use armory.Common.{
  ℕ, zero, suc, ◌+◌, ◌-◌, ◌^◌, ◌≤◌, ◌<◌, ◌≡◌, ◌≢◌, List, false, not, ◌&&◌, arith, Returns, returns,
  Returns-map, Returns-if, Returns-unless, length, at, ◌==◌, ==_iff, sub32,
}
use armory.ClassicSort.Memory.{load-ok}
use armory.HttpPeek.Chars.{printable, token_char, breaks_path}
use armory.HttpPeek.Scan.{token_loop, parse_token, advance_loop, advance_token}
use armory.HttpPeek.Scan.Search.{
  Scan-step, Scan-here, Scan-end, Hunt, found, refused, ended, Hunt-step, token_stop, path_stop,
  TokenDone, Returns-token,
}

unprintable : (c : ℕ) → (not (printable c) && breaks_path c) ≡ breaks_path c
unfolding printable breaks_path sub32
unprintable c = ground arith

module _ (bytes : List ℕ) (len : ℕ) (fits : len ≤ length bytes) where
  token_loop-Hunt :
      (fuel start next : ℕ)
      → len - start ≤ fuel
      → start < len
      → Returns (Hunt (token_stop next) next bytes len start) (token_loop fuel bytes len next start)
  unfolding token_loop
  token_loop-Hunt zero start next f h = absurd (omega arith)
  token_loop-Hunt (suc fuel) start next f h = rw (load-ok bytes start (omega arith)) (
      Returns-if (at bytes start == next)
        (λ here. returns (found (Scan-here bytes len start h (rw here)) ((==_iff _ _).0 here)))
        (λ other.
          Returns-unless (token_char (at bytes start))
            (λ good.
              let pass : token_stop next (at bytes start) ≡ false = rw (other, good) in
              Returns-if (start + 1 == len)
                (λ last.
                  let e = (==_iff _ _).0 last in
                  returns (
                    ended (
                      Scan-step bytes len start pass
                        (Scan-end bytes len (start + 1) (omega (arith, e))))))
                (λ more.
                  let n : start + 1 ≢ len = ground arith in
                  Returns-map (token_loop-Hunt fuel (start + 1) next (omega arith) (omega arith))
                    (λ o d. Hunt-step bytes len start pass d)))
            (λ bad.
              let n : at bytes start ≢ next = ground arith in
              returns (refused (Scan-here bytes len start h (rw (other, bad))) n))))

  -- From a byte inside the buffer `parse_token` returns. Its token is the longest run of token
  -- characters from there on, and is found exactly if the wanted character follows it.
  pub parse_token-TokenDone :
      (start next : ℕ)
      → len < 2 ^ 16
      → start < len
      → Returns
          (TokenDone (token_stop next) next bytes len start)
          (parse_token bytes len start next)
  unfolding parse_token
  parse_token-TokenDone start next small h =
      Returns-token bytes len start small (token_loop-Hunt (len + 1) start next (omega arith) h)

  advance_loop-Hunt :
      (fuel start : ℕ)
      → len - start ≤ fuel
      → start < len
      → Returns (Hunt path_stop 32 bytes len start) (advance_loop fuel bytes len start)
  unfolding advance_loop
  advance_loop-Hunt zero start f h = absurd (omega arith)
  advance_loop-Hunt (suc fuel) start f h = rw (load-ok bytes start (omega arith)) (
      Returns-if (at bytes start == 32)
        (λ here. returns (found (Scan-here bytes len start h (rw here)) ((==_iff _ _).0 here)))
        (λ other. rw (unprintable (at bytes start)) (
          Returns-if (breaks_path (at bytes start))
            (λ bad.
              let n : at bytes start ≢ 32 = ground arith in
              returns (refused (Scan-here bytes len start h (rw (other, bad))) n))
            (λ good.
              let pass : path_stop (at bytes start) ≡ false = rw (other, good) in
              Returns-if (start + 1 == len)
                (λ last.
                  let e = (==_iff _ _).0 last in
                  returns (
                    ended (
                      Scan-step bytes len start pass
                        (Scan-end bytes len (start + 1) (omega (arith, e))))))
                (λ more.
                  let n : start + 1 ≢ len = ground arith in
                  Returns-map (advance_loop-Hunt fuel (start + 1) (omega arith) (omega arith))
                    (λ o d. Hunt-step bytes len start pass d))))))

  -- From a byte inside the buffer `ADVANCE_TOKEN` ends. Its token is the longest run of bytes
  -- that are neither a space nor a control character, and is found exactly if a space follows.
  pub advance_token-TokenDone :
      (start : ℕ)
      → len < 2 ^ 16
      → start < len
      → Returns (TokenDone path_stop 32 bytes len start) (advance_token bytes len start)
  unfolding advance_token
  advance_token-TokenDone start small h =
      Returns-token bytes len start small (advance_loop-Hunt (len + 1) start (omega arith) h)

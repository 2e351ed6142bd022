-- ===== src/HttpPeek/Parse/Exact.antt =====
-- What a scanner returns where its token is known to stand in the buffer.
use armory.Common.{
  ℕ, suc, ◌+◌, ◌-◌, ◌^◌, ◌≤◌, ◌<◌, ◌≡◌, ◌≢◌, refl, sym, ap, ◌∙◌, List, [], ◌∷◌, Option, none, some,
  Bool, true, false, not, arith, Run, ok, Returns, Returns-inv, length, at, ltb, ◌==◌, ==_iff,
}
use native.Mathlib.Decide.{ℕ_discrete, dec_lt}
use armory.ClassicSort.Memory.{load-ok}
use armory.HttpPeek.Chars.{ends_line, blank, char_is_not_number}
use armory.HttpPeek.Scan.{
  parse_token, advance_token, skip_spaces, skip_blanks, trim_blanks, has_prefix, parse_http_version,
  version_prefix,
}
use armory.HttpPeek.Scan.Search.{
  Clear, Scan, stops, ends, refused, ended, token_stop, path_stop, TokenDone, token, no_token,
}
use armory.HttpPeek.Scan.Tokens.{parse_token-TokenDone, advance_token-TokenDone}
use armory.HttpPeek.Scan.Blanks.{skip_spaces-Scan, skip_blanks-Scan}
use armory.HttpPeek.Eol.{get_token_to_eol}
use armory.HttpPeek.Eol.Line.{LineDone, crlf, lf, broken, unended, get_token_to_eol-LineDone}
use armory.HttpPeek.Parse.HeaderLine.{IsToken}

clash : {b : Bool} → b ≡ true → b ≡ false → ⊥
clash p q = cc

some-injective : {a b : ℕ} → some a ≡ some b → a ≡ b
some-injective e = ground arith

-- There is one first byte.
Scan-unique :
    {test : ℕ → Bool} (bytes : List ℕ) (len start p : ℕ) {o : Option ℕ}
    → Scan test bytes len start (some p)
    → Scan test bytes len start o
    → o ≡ some p
Scan-unique bytes len start p (stops l h c t) (ends c') = absurd (clash t (c' p l h))
Scan-unique bytes len start p (stops l h c t) (stops {p = q} l' h' c' t') = elim (ℕ_discrete p q) [
  | yes e ↦ ap some (sym e)
  | no other ↦ elim (dec_lt p q) [
    | yes before ↦ absurd (clash t (c' p l before))
    | no after ↦ absurd (clash t' (c q l' (omega arith)))
  ]
]

TokenDone-unique :
    {test : ℕ → Bool} {wanted : ℕ} (bytes : List ℕ) (len start p : ℕ) {o : Option (ℕ × ℕ × ℕ)}
    → Scan test bytes len start (some p)
    → at bytes p ≡ wanted
    → TokenDone test wanted bytes len start o
    → o ≡ some (p, start, p - start)
TokenDone-unique bytes len start p s e (token {p = q} s' e') =
    let same : q ≡ p = some-injective (Scan-unique bytes len start p s s') in rw same
TokenDone-unique bytes len start p s e (no_token (refused {p = q} s' n)) =
    let same : q ≡ p = some-injective (Scan-unique bytes len start p s s') in
    absurd (n (ap (at bytes) same ∙ e))
TokenDone-unique bytes len start p s e (no_token (ended s')) =
    let same : none ≡ some p = Scan-unique bytes len start p s s' in absurd (ground arith)

-- A run that returns a value with `P` ends in the one value that has `P`.
Returns-only :
    {A : Type 0} {P : A → Type 0} {m : Run A} (x : A)
    → Returns P m
    → ((y : A) → P y → y ≡ x)
    → m ≡ ok x
Returns-only x d only = let (y, e, p) = Returns-inv d in e ∙ ap ok (only y p)

module _ (bytes : List ℕ) (len : ℕ) (fits : len ≤ length bytes) (small : len < 2 ^ 16) where
  IsToken-Scan :
      (test : ℕ → Bool) (next start n : ℕ)
      → IsToken test next bytes len start n
      → test next ≡ true
      → Scan test bytes len start (some (start + n))
  IsToken-Scan test next start n t stop =
      stops (omega arith) t.inside t.clear (ap test t.follower ∙ stop)

  pub parse_token-ok :
      (start n next : ℕ)
      → IsToken (token_stop next) next bytes len start n
      → parse_token bytes len start next ≡ ok (some (start + n, start, n))
  parse_token-ok start n next t =
      let size : start + n - start ≡ n = omega arith in
      let stop : token_stop next next ≡ true = rw ((==_iff next next).1 refl) in
      Returns-only _
        (parse_token-TokenDone bytes len fits start next small (omega (arith, t.inside)))
        (λ o d.
          TokenDone-unique bytes len start (start + n)
            (IsToken-Scan (token_stop next) next start n t stop) t.follower d
          ∙ ap (λ k. some (start + n, start, k)) size)

  pub advance_token-ok :
      (start n : ℕ)
      → IsToken path_stop 32 bytes len start n
      → advance_token bytes len start ≡ ok (some (start + n, start, n))
  advance_token-ok start n t =
      let size : start + n - start ≡ n = omega arith in
      Returns-only _ (advance_token-TokenDone bytes len fits start small (omega (arith, t.inside)))
        (λ o d.
          TokenDone-unique bytes len start (start + n) (IsToken-Scan path_stop 32 start n t refl)
            t.follower d
          ∙ ap (λ k. some (start + n, start, k)) size)

  pub skip_spaces-ok :
      (start : ℕ)
      → start + 1 < len
      → at bytes (start + 1) ≢ 32
      → skip_spaces (len + 1) bytes len start ≡ ok (some (start + 1))
  skip_spaces-ok start h other =
      Returns-only _ (skip_spaces-Scan bytes len fits (len + 1) start (omega arith) (omega arith))
        (λ o d.
          Scan-unique bytes len (start + 1) (start + 1)
            (stops (omega arith) h (λ k l m. absurd (omega arith)) (ground arith)) d)

  -- One space in front of the value.
  pub skip_blanks-ok :
      (start : ℕ)
      → start + 1 < len
      → blank (at bytes start) ≡ true
      → blank (at bytes (start + 1)) ≡ false
      → skip_blanks (len + 1) bytes len start ≡ ok (some (start + 1))
  skip_blanks-ok start h space other =
      Returns-only _ (skip_blanks-Scan bytes len fits (len + 1) start (omega arith) (omega arith))
        (λ o d. Scan-unique bytes len start (start + 1) (stops (omega arith) h only (rw other)) d)
    where
      only : Clear (λ c. not (blank c)) bytes start (start + 1)
      only k l m = let e : k ≡ start = omega arith in rw (e, space)

  pub trim_blanks-ok :
      (start n : ℕ)
      → start + suc n ≤ len
      → blank (at bytes (start + n)) ≡ false
      → trim_blanks bytes start (suc n) ≡ ok (suc n)
  unfolding trim_blanks
  trim_blanks-ok start n h other = rw (load-ok bytes (start + n) (omega arith), other)

  pub get_token_to_eol-ok :
      (start n : ℕ)
      → Clear ends_line bytes start (start + n)
      → at bytes (start + n) ≡ 13
      → at bytes (start + n + 1) ≡ 10
      → start + n + 1 < len
      → get_token_to_eol bytes len start ≡ ok (some (start + n + 2, start, n))
  unfolding ends_line
  get_token_to_eol-ok start n clear cr lf' h =
      Returns-only _ (get_token_to_eol-LineDone bytes len fits start small (omega arith)) only
    where
      scan : Scan ends_line bytes len start (some (start + n))
      scan = stops (omega arith) (omega arith) clear (rw cr)

      only :
          (o : Option (ℕ × ℕ × ℕ)) → LineDone bytes len start o → o ≡ some (start + n + 2, start, n)
      only o (crlf {p} s e g e') =
          let same : p ≡ start + n =
            some-injective (Scan-unique bytes len start (start + n) scan s) in
          let size : p - start ≡ n = omega arith in
          ap (λ q. some (q + 2, start, q - start)) same
          ∙ ap (λ k. some (start + n + 2, start, k)) (omega arith)
      only o (lf {p} s e) =
          let same : p ≡ start + n =
            some-injective (Scan-unique bytes len start (start + n) scan s) in
          let c = ap (at bytes) same in absurd (omega (arith, c, e, cr))
      only o (broken {p} s n1 n2) =
          let same : p ≡ start + n =
            some-injective (Scan-unique bytes len start (start + n) scan s) in
          absurd
            (n2 (ap (at bytes) same ∙ cr) (omega arith) (ap (λ q. at bytes (q + 1)) same ∙ lf'))
      only o (unended s) =
          let same : none ≡ some (start + n) = Scan-unique bytes len start (start + n) scan s in
          absurd (ground arith)

  has_prefix-ok :
      (start : ℕ) (xs : List ℕ)
      → start + length xs ≤ len
      → ((k : ℕ) → k < length xs → at bytes (start + k) ≡ at xs k)
      → has_prefix bytes start xs ≡ ok true
  unfolding has_prefix at
  has_prefix-ok start [] h same = refl
  has_prefix-ok start (x ∷ xs) h same =
      let first : at bytes (start + 0) ≡ x = same 0 (omega arith) in
      let zero' : start + 0 ≡ start = omega arith in
      let here : (at bytes start == x) ≡ true =
        (==_iff _ _).1 (ap (at bytes) (sym zero') ∙ first) in
      rw (load-ok bytes start (omega arith), here)
        (has_prefix-ok (start + 1) xs (omega arith) (λ k l.
          let e : start + 1 + k ≡ start + suc k = omega arith in
          ap (at bytes) e ∙ same (suc k) (omega arith)))

  pub parse_http_version-ok :
      (start d : ℕ)
      → start + 9 ≤ len
      → ((k : ℕ) → k < 7 → at bytes (start + k) ≡ at version_prefix k)
      → at bytes (start + 7) ≡ 48 + d
      → d < 10
      → parse_http_version bytes len start ≡ ok (some (start + 8, d))
  unfolding parse_http_version char_is_not_number
  parse_http_version-ok start d h same digit l =
      let long : ltb len (start + 9) ≡ false = ground arith in
      let is_digit : char_is_not_number (48 + d) ≡ false = ground arith in
      let value : 48 + d - 48 ≡ d = omega arith in
      rw (
        long,
        has_prefix-ok start version_prefix (omega arith) same,
        load-ok bytes (start + 7) (omega arith),
        digit,
        is_digit,
        value,
      )

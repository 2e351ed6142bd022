-- ===== src/HttpPeek/Parse/HeaderLine.antt =====
-- `parse_header`: what it finds lies in the buffer, and it changes nothing else.
use armory.Common.{
  ℕ, ◌+◌, ◌-◌, ◌%◌, ◌^◌, ◌≤◌, ◌<◌, ◌≡◌, ◌≢◌, refl, List, Option, none, some, Bool, true, false, not,
  arith, ok, ◌>>=◌, Returns, returns, Returns-bind, Returns-map, Returns-if, length, at, ◌==◌,
  if◌then◌else◌,
}
use armory.ClassicSort.Memory.{load-ok}
use armory.HttpPeek.Chars.{ends_line, blank}
use armory.HttpPeek.Scan.{trim_blanks}
use armory.HttpPeek.Scan.Search.{Clear, Scan, stops, token_stop, TokenDone, token}
use armory.HttpPeek.Scan.Tokens.{parse_token-TokenDone}
use armory.HttpPeek.Scan.Blanks.{skip_blanks-Scan, trim_blanks-Trimmed}
use armory.HttpPeek.Eol.Line.{LineDone, crlf, lf, get_token_to_eol-LineDone, expect_char-found}
use armory.HttpPeek.Parse.{Header, parse_value, parse_named, parse_line, parse_header}

-- A piece of the buffer that is not empty, has nothing that the test finds, and is followed by
-- the byte `next` inside the buffer.
pub record IsToken (test : ℕ → Bool) (next : ℕ) (bytes : List ℕ) (len start n : ℕ) : Type 0 where
  pub positive : 0 < n
  pub inside : start + n < len
  pub clear : Clear test bytes start (start + n)
  pub follower : at bytes (start + n) ≡ next

pub IsToken-of_Scan :
    {test : ℕ → Bool} {next : ℕ} (bytes : List ℕ) (len start p : ℕ)
    → Scan test bytes len start (some p)
    → at bytes p ≡ next
    → 0 < p - start
    → IsToken test next bytes len start (p - start)
IsToken-of_Scan bytes len start p (stops l h c t) e some_bytes =
    let back : start + (p - start) ≡ p = omega arith in
    record { positive = some_bytes; inside = omega arith; clear = rw back c; follower = rw back e }

-- A header's name: a token in front of a colon, or none for a line that starts with a blank.
pub data IsName (bytes : List ℕ) (len : ℕ) : Option ℕ → ℕ → Type 0 where
  named :
      {start n : ℕ} → IsToken (token_stop 58) 58 bytes len start n → IsName bytes len (some start) n
  continued : IsName bytes len none 0

-- A header's value: no control characters but tabs, and no blank at its end.
pub record IsValue (bytes : List ℕ) (len start n : ℕ) : Type 0 where
  pub inside : start + n < len
  pub clear : Clear ends_line bytes start (start + n)
  pub last : (k : ℕ) → k < n → k + 1 ≡ n → blank (at bytes (start + k)) ≡ false

abbrev pub ValueDone : List ℕ → ℕ → ℕ → Header → Bool × Header → Type 0
ValueDone bytes len start head r =
    r.0 ≡ true
    → (n : ℕ) × (r.1 ≡ record head { value = some start; value_len = n })
      × IsValue bytes len start n

-- If the result is true, the name and the value are the header line's, and no other field of
-- `*p_head` is changed.
abbrev pub HeaderDone : List ℕ → ℕ → Header → Bool × Header → Type 0
HeaderDone bytes len head r =
    r.0 ≡ true
    → (name : Option ℕ) × (name_len start n : ℕ) × (r.1
        ≡ record head { name = name; name_len = name_len; value = some start; value_len = n })
      × IsName bytes len name name_len
      × IsValue bytes len start n

pub no_result {ℓ} : {A : Type ℓ} → false ≡ true → A
no_result e = absurd (ground arith)

module _ (bytes : List ℕ) (len : ℕ) (fits : len ≤ length bytes) (small : len < 2 ^ 16) where
  parse_value-ValueDone :
      (start : ℕ) (head : Header)
      → start ≤ len
      → Returns (ValueDone bytes len start head) (parse_value bytes len start head)
  unfolding parse_value
  parse_value-ValueDone start head h =
      Returns-bind (get_token_to_eol-LineDone bytes len fits start small h) λ o d. after o d
    where
      trimmed :
          (p : ℕ)
          → Scan ends_line bytes len start (some p)
          → Returns (ValueDone bytes len start head) (do
            n ← trim_blanks bytes start (p - start)
            ok (true, record head { value = some start; value_len = n % 2 ^ 16 }))
      trimmed p (stops l h' c t) =
          Returns-bind (trim_blanks-Trimmed bytes len fits start (p - start) (omega arith))
            λ n (le, last, cut).
              let same : n % 2 ^ 16 ≡ n = omega (arith, le) in
              rw same (
                returns λ e. (
                  n,
                  refl,
                  record {
                    inside = omega (arith, le);
                    clear = λ k x y. c k x (omega (arith, le));
                    last = last;
                  },
                ))

      after :
          (o : Option (ℕ × ℕ × ℕ))
          → LineDone bytes len start o
          → Returns (ValueDone bytes len start head) (elim o [
            | none ↦ ok (false, head)
            | some (p, value, value_len) ↦ do
              n ← trim_blanks bytes value value_len
              ok (true, record head { value = some value; value_len = n % 2 ^ 16 })
          ])
      after (some (q, v, m)) (crlf {p} s e g e') = trimmed p s
      after (some (q, v, m)) (lf {p} s e) = trimmed p s
      after none d = returns no_result

  parse_named-HeaderDone :
      (start n : ℕ) (head : Header)
      → IsToken (token_stop 58) 58 bytes len start n
      → (let head1 = record head { name = some start; name_len = n } in
          Returns (HeaderDone bytes len head) (parse_named bytes len (start + n + 1) head1))
  unfolding parse_named
  parse_named-HeaderDone start n head t =
      Returns-bind
        (skip_blanks-Scan bytes len fits (len + 1) (start + n + 1) (omega arith)
          (omega (arith, t.inside)))
        λ o d. value o d
    where
      value :
          (o : Option ℕ)
          → Scan (λ c. not (blank c)) bytes len (start + n + 1) o
          → (let head1 = record head { name = some start; name_len = n } in
              Returns
                (HeaderDone bytes len head)
                (elim o [ none ↦ ok (false, head1) | some q ↦ parse_value bytes len q head1 ]))
      value none d = returns no_result
      value (some q) (stops l h' c' e) =
          Returns-map
            (parse_value-ValueDone q (record head { name = some start; name_len = n })
              (omega arith))
            (λ r d e. let (m, same, v) = d e in (some start, n, q, m, same, named t, v))

  parse_line-HeaderDone :
      (start c : ℕ) (head : Header)
      → start < len
      → Returns (HeaderDone bytes len head) (parse_line bytes len start c head)
  unfolding parse_line
  parse_line-HeaderDone start c head h =
      Returns-if (blank c)
        (λ indent.
          Returns-map
            (parse_value-ValueDone start (record head { name = none; name_len = 0 }) (omega arith))
            (λ r d e. let (n, same, v) = d e in (none, 0, start, n, same, continued, v)))
        (λ name.
          Returns-bind (parse_token-TokenDone bytes len fits start 58 small h) λ o d. after o d)
    where
      after :
          (o : Option (ℕ × ℕ × ℕ))
          → TokenDone (token_stop 58) 58 bytes len start o
          → Returns (HeaderDone bytes len head) (elim o [
            | none ↦ ok (false, head)
            | some (p, name, name_len) ↦
                let head1 = record head { name = some name; name_len = name_len } in
                if name_len == 0 then ok (false, head1) else parse_named bytes len (p + 1) head1
          ])
      after none d = returns no_result
      after (some (q, v, m)) (token {p} (stops l h' c t) e) =
          Returns-if (p - start == 0) (λ empty. returns no_result)
            (λ some_name.
              let ne : p - start ≢ 0 = ground arith in
              let back : start + (p - start) ≡ p = omega arith in
              rw back at (
                parse_named-HeaderDone start (p - start) head
                  (IsToken-of_Scan bytes len start p (stops l h' c t) e (omega arith))))

  -- From any index of the buffer `parse_header` returns and reads nothing behind the buffer. If
  -- its result is true, `name` is a token in front of a colon or NULL for a line that starts with
  -- a blank, `value` has no control character but tabs and no blank at its end, both lie inside
  -- the buffer, and no other field is changed.
  pub parse_header-HeaderDone :
      (start : ℕ) (head : Header)
      → start ≤ len
      → Returns (HeaderDone bytes len head) (parse_header bytes len start head)
  unfolding parse_header
  parse_header-HeaderDone start head h =
      Returns-if (start == len) (λ last. returns no_result)
        (λ more.
          let n : start ≢ len = ground arith in
          rw (load-ok bytes start (omega arith)) (
            Returns-if (at bytes start == 13)
              (λ cr.
                Returns-bind (expect_char-found bytes len fits (start + 1) (omega arith))
                  λ o d. returns no_result)
              (λ no_cr.
                Returns-if (at bytes start == 10) (λ is_lf. returns no_result)
                  (λ no_lf. parse_line-HeaderDone start (at bytes start) head (omega arith)))))

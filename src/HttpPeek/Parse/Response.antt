-- ===== src/HttpPeek/Parse/Response.antt =====
-- `peek_http_response`: what it finds lies in the buffer, and `msg` is left as it was.
use armory.Common.{
  ltb, ltb-false→le, ◌*◌, ℕ, ◌+◌, ◌-◌, ◌^◌, ◌≤◌, ◌<◌, ◌≡◌, refl, List, Option, none, some, Bool,
  true, false, arith, inl, inr, ok, Returns, returns, Returns-bind, Returns-map, Returns-if,
  Returns-unless, length, at, ◌==◌, Bool-cases,
}
use armory.ClassicSort.Memory.{load-ok}
use native.Mathlib.Nat.{le_refl}
use armory.HttpPeek.Chars.{char_is_not_number}
use armory.HttpPeek.Scan.Search.{stops}
use armory.HttpPeek.Scan.Blanks.{skip_spaces-Scan}
use armory.HttpPeek.Scan.Version.{VersionDone, version, parse_http_version-VersionDone, digit_value}
use armory.HttpPeek.Eol.Line.{LineDone, crlf, lf, get_token_to_eol-LineDone}
use armory.HttpPeek.Parse.{
  Header, finish_response, status_code, status_digits, response_message, response_status,
  response_version, peek_http_response,
}
use armory.HttpPeek.Parse.HeaderLine.{
  IsName, IsValue, HeaderDone, parse_header-HeaderDone, no_result,
}

-- What is known of a true result, from the message on.
abbrev MessageDone : List ℕ → ℕ → Header → Bool × Header → Type 0
MessageDone bytes len head r = HeaderDone bytes len head r

-- The same, from the status code on.
abbrev StatusDone : List ℕ → ℕ → Header → Bool × Header → Type 0
StatusDone bytes len head r =
    r.0 ≡ true
    → (code : ℕ) × (name : Option ℕ) × (name_len start n : ℕ) × (r.1 ≡ record head {
      res_code = code;
      name = name;
      name_len = name_len;
      value = some start;
      value_len = n;
    })
      × (code < 1000)
      × IsName bytes len name name_len
      × IsValue bytes len start n

-- If the result is true, the version is a digit, the status code has three digits, and the name
-- and the value are a header line's. All other fields, the message's among them, are as before.
abbrev pub ResponseDone : List ℕ → ℕ → Header → Bool × Header → Type 0
ResponseDone bytes len head r =
    r.0 ≡ true
    → (d code : ℕ) × (name : Option ℕ) × (name_len start n : ℕ) × (r.1 ≡ record head {
      version = d;
      res_code = code;
      name = name;
      name_len = name_len;
      value = some start;
      value_len = n;
    })
      × (d < 10)
      × (code < 1000)
      × IsName bytes len name name_len
      × IsValue bytes len start n

module _ (bytes : List ℕ) (len : ℕ) (fits : len ≤ length bytes) (small : len < 2 ^ 16) where
  -- Three digits and one more byte.
  abbrev DigitsDone : ℕ → Option ℕ → Type 0
  DigitsDone start o = (code : ℕ) → o ≡ some code → (code < 1000) × (start + 4 ≤ len)

  status_digits-DigitsDone :
      (start : ℕ) → Returns (DigitsDone start) (status_digits bytes len start)
  unfolding status_digits status_code
  status_digits-DigitsDone start =
      Returns-if (ltb len (start + 4)) (λ short. returns nothing)
        (λ long.
          let room = ltb-false→le _ _ long in
          rw
            (
              load-ok bytes start (omega (arith, room)),
              load-ok bytes (start + 1) (omega (arith, room)),
              load-ok bytes (start + 2) (omega (arith, room)),
            )
            (Returns-if (char_is_not_number (at bytes start)) (λ no1. returns nothing)
              (λ d1.
                Returns-if (char_is_not_number (at bytes (start + 1))) (λ no2. returns nothing)
                  (λ d2. elim (Bool-cases (char_is_not_number (at bytes (start + 2)))) [
                    | inl no3 ↦ rw no3 (returns nothing)
                    | inr d3 ↦ rw d3 (
                        returns (λ code e.
                          let (x, ex, lx) = digit_value (at bytes start) d1 in
                          let (y, ey, ly) = digit_value (at bytes (start + 1)) d2 in
                          let (z, ez, lz) = digit_value (at bytes (start + 2)) d3 in
                          let e' : 100 * (at bytes start - 48)
                                + 10 * (at bytes (start + 1) - 48)
                                + (at bytes (start + 2) - 48)
                              ≡ code =
                            ground (arith, e) in
                          (omega (arith, e', ex, lx, ey, ly, ez, lz), room)))
                  ]))))
    where
      nothing : DigitsDone start none
      nothing code e = absurd (ground arith)

  response_message-HeaderDone :
      (start code : ℕ) (head : Header)
      → head.msg_len ≡ 0
      → start ≤ len
      → code < 1000
      → (let head1 = record head { res_code = code } in
          Returns (StatusDone bytes len head) (response_message bytes len start head1))
  unfolding response_message finish_response
  response_message-HeaderDone start code head zero_len h small_code =
      Returns-bind (get_token_to_eol-LineDone bytes len fits start small h) λ o d. after o d
    where
      header :
          (q v n : ℕ)
          → q ≤ len
          → (let head1 = record head { res_code = code; value = some v; value_len = n } in
              Returns (StatusDone bytes len head) (finish_response bytes len q head1))
      header q v n l =
          Returns-if (head.msg_len == 0)
            (λ no_message.
              Returns-map
                (parse_header-HeaderDone bytes len fits small q
                  (record head { res_code = code; value = some v; value_len = n }) l)
                λ r done e.
                  let (name, name_len, s, k, same, is_name, is_value) = done e in
                  (code, name, name_len, s, k, same, small_code, is_name, is_value))
            (λ message. absurd (ground (arith, zero_len)))

      after :
          (o : Option (ℕ × ℕ × ℕ))
          → LineDone bytes len start o
          → (let head1 = record head { res_code = code } in
              Returns (StatusDone bytes len head) (elim o [
                | none ↦ ok (false, head1)
                | some (q, v, n) ↦
                    finish_response bytes len q (record head1 { value = some v; value_len = n })
              ]))
      after none d = returns no_result
      after (some (q, v, n)) (crlf {p} s e g e') = header (p + 2) start (p - start) (omega arith)
      after (some (q, v, n)) (lf {p} (stops l h' c t) e) =
          header (p + 1) start (p - start) (omega arith)

  response_status-StatusDone :
      (start : ℕ) (head : Header)
      → head.msg_len ≡ 0
      → Returns (StatusDone bytes len head) (response_status bytes len start head)
  unfolding response_status
  response_status-StatusDone start head zero_len =
      Returns-bind (status_digits-DigitsDone start) λ o d. after o d
    where
      after :
          (o : Option ℕ)
          → DigitsDone start o
          → Returns (StatusDone bytes len head) (elim o [
            | none ↦ ok (false, head)
            | some code ↦ response_message bytes len (start + 3) (record head { res_code = code })
          ])
      after none d = returns no_result
      after (some code) d =
          let (small_code, room) = d code refl in
          response_message-HeaderDone (start + 3) code head zero_len (omega (arith, room))
            small_code

  response_version-ResponseDone :
      (start v : ℕ) (head : Header)
      → head.msg_len ≡ 0
      → start < len
      → v < 10
      → (let head1 = record head { version = v } in
          Returns (ResponseDone bytes len head) (response_version bytes len start head1))
  unfolding response_version
  response_version-ResponseDone start v head zero_len h digit =
      rw (load-ok bytes start (omega arith)) (
        Returns-unless (at bytes start == 32)
          (λ space.
            Returns-bind (skip_spaces-Scan bytes len fits (len + 1) start (omega arith) h)
              λ o d. after o)
          (λ other. returns no_result))
    where
      after :
          (o : Option ℕ)
          → (let head1 = record head { version = v } in
              Returns
                (ResponseDone bytes len head)
                (elim o [ none ↦ ok (false, head1) | some p ↦ response_status bytes len p head1 ]))
      after none = returns no_result
      after (some p) =
          Returns-map (response_status-StatusDone p (record head { version = v }) zero_len)
            λ r done e.
              let (code, name, name_len, s, k, same, small_code, is_name, is_value) = done e in
              (v, code, name, name_len, s, k, same, digit, small_code, is_name, is_value)

-- On every message of a length that fits `uint16_t`, and with `msg_len` 0 at the start,
-- `peek_http_response` returns and reads nothing behind the message. If its result is true, the
-- version is a digit, the status code is less than 1000, the name is a token in front of a colon or
-- NULL, and the value has no control character but tabs and no blank at its end, both inside the
-- message. `msg`, `msg_len` and the fields of a request are left as they were.
pub peek_http_response-ResponseDone :
    (bytes : List ℕ) (head : Header)
    → length bytes < 2 ^ 16
    → head.msg_len ≡ 0
    → Returns
        (ResponseDone bytes (length bytes) head)
        (peek_http_response bytes (length bytes) head)
unfolding peek_http_response
peek_http_response-ResponseDone bytes head small zero_len =
    Returns-bind (parse_http_version-VersionDone bytes (length bytes) (le_refl _) 0)
      λ o d. after o d
  where
    after :
        (o : Option (ℕ × ℕ))
        → VersionDone bytes (length bytes) 0 o
        → Returns (ResponseDone bytes (length bytes) head) (elim o [
          | none ↦ ok (false, head)
          | some (p, v) ↦ response_version bytes (length bytes) p (record head { version = v })
        ])
    after none d = returns no_result
    after (some (p, v)) (version room prefix e digit) =
        response_version-ResponseDone bytes (length bytes) (le_refl _) small 8 v head zero_len
          (omega (arith, room)) digit

-- ===== src/HttpPeek/Parse/RequestLine.antt =====
-- The request line: what is found lies in the buffer, and nothing behind it is read.
use armory.Common.{
  ℕ, ◌+◌, ◌-◌, ◌^◌, ◌≤◌, ◌<◌, ◌≡◌, refl, List, Option, none, some, Bool, true, false, not, ◌||◌,
  arith, inl, inr, ok, ◌>>=◌, Returns, returns, Returns-bind, Returns-map, Returns-if, length, at,
  ◌==◌,
}
use armory.ClassicSort.Memory.{load-ok}
use armory.HttpPeek.Scan.{expect_char}
use armory.HttpPeek.Scan.Search.{Scan, stops, token_stop, path_stop, TokenDone, token}
use armory.HttpPeek.Scan.Tokens.{parse_token-TokenDone, advance_token-TokenDone}
use armory.HttpPeek.Scan.Blanks.{skip_spaces-Scan}
use armory.HttpPeek.Scan.Version.{VersionDone, version, parse_http_version-VersionDone}
use armory.HttpPeek.Eol.Line.{expect_char-found}
use armory.HttpPeek.Parse.{
  Header, end_line, parse_header, finish_request, request_version, request_path, request_target,
  request_method,
}
use armory.HttpPeek.Parse.HeaderLine.{
  IsToken, IsToken-of_Scan, IsName, IsValue, parse_header-HeaderDone, no_result,
}

-- What is known of a true result, from the version on.
abbrev FinishDone : List ℕ → ℕ → Header → Bool × Header → Type 0
FinishDone bytes len head r =
    r.0 ≡ true
    → (0 < head.method_len)
      × (0 < head.path_len)
      × (d : ℕ) × (name : Option ℕ) × (name_len start n : ℕ) × (r.1 ≡ record head {
        version = d;
        name = name;
        name_len = name_len;
        value = some start;
        value_len = n;
      })
      × (d < 10)
      × IsName bytes len name name_len
      × IsValue bytes len start n

-- The same, from the path on.
abbrev PathDone : List ℕ → ℕ → Header → Bool × Header → Type 0
PathDone bytes len head r =
    r.0 ≡ true
    → (0 < head.method_len)
      × (path path_len d : ℕ) × (name : Option ℕ) × (name_len start n : ℕ) × (r.1 ≡ record head {
        path = some path;
        path_len = path_len;
        version = d;
        name = name;
        name_len = name_len;
        value = some start;
        value_len = n;
      })
      × IsToken path_stop 32 bytes len path path_len
      × (d < 10)
      × IsName bytes len name name_len
      × IsValue bytes len start n

-- If the result is true, the method is a token and the path has no space and no control
-- character, both are followed by a space inside the buffer, the version is a digit, and the name
-- and the value are a header line's. The fields of a response are as before.
abbrev pub RequestDone : List ℕ → ℕ → Header → Bool × Header → Type 0
RequestDone bytes len head r =
    r.0 ≡ true
    → (method method_len path path_len d : ℕ) × (name : Option ℕ) × (name_len start n : ℕ) × (r.1
        ≡ record head {
          method = some method;
          method_len = method_len;
          path = some path;
          path_len = path_len;
          version = d;
          name = name;
          name_len = name_len;
          value = some start;
          value_len = n;
        })
      × IsToken (token_stop 32) 32 bytes len method method_len
      × IsToken path_stop 32 bytes len path path_len
      × (d < 10)
      × IsName bytes len name name_len
      × IsValue bytes len start n

module _ (bytes : List ℕ) (len : ℕ) (fits : len ≤ length bytes) (small : len < 2 ^ 16) where
  -- The index that a step ends at is at most the buffer's end.
  abbrev Within : Option ℕ → Type 0
  Within o = (q : ℕ) → o ≡ some q → q ≤ len

  some-Within : (p : ℕ) → p ≤ len → Within (some p)
  some-Within p h q e = ground (arith, e)

  expect_char-Within : (p : ℕ) → p < len + 1 → Returns Within (expect_char bytes len p 10)
  expect_char-Within p h = Returns-map (expect_char-found bytes len fits p h) λ o d. elim d [
    | inl (l, e, eo) ↦ rw eo (some-Within (p + 1) (omega arith))
    | inr (n, eo) ↦ rw eo (λ q e. absurd (ground arith))
  ]

  end_line-Within : (p : ℕ) → p < len → Returns Within (end_line bytes len p)
  unfolding end_line
  end_line-Within p h = rw (load-ok bytes p (omega arith)) (
      Returns-if (at bytes p == 13) (λ cr. expect_char-Within (p + 1) (omega arith))
        (λ no_cr.
          Returns-if (at bytes p == 10) (λ is_lf. returns (some-Within (p + 1) (omega arith)))
            (λ no_lf. returns (λ q e. absurd (ground arith)))))

  finish_request-FinishDone :
      (start : ℕ) (head : Header)
      → Returns (FinishDone bytes len head) (finish_request bytes len start head)
  unfolding finish_request
  finish_request-FinishDone start head =
      Returns-if ((head.method_len == 0) || (head.path_len == 0)) (λ empty. returns no_result)
        (λ full.
          Returns-bind (parse_http_version-VersionDone bytes len fits start)
            λ o v. after (ground arith) (ground arith) o v)
    where
      last :
          0 < head.method_len
          → 0 < head.path_len
          → (d : ℕ) → d < 10
          → (o : Option ℕ) → Within o
          → (let head1 = record head { version = d } in
              Returns
                (FinishDone bytes len head)
                (elim o [ none ↦ ok (false, head1) | some q ↦ parse_header bytes len q head1 ]))
      last m p d digit none w = returns no_result
      last m p d digit (some q) w =
          Returns-map
            (parse_header-HeaderDone bytes len fits small q (record head { version = d })
              (w q refl))
            λ r done e.
              let (name, name_len, start, n, same, is_name, is_value) = done e in
              (m, p, d, name, name_len, start, n, same, digit, is_name, is_value)

      after :
          0 < head.method_len
          → 0 < head.path_len
          → (o : Option (ℕ × ℕ)) → VersionDone bytes len start o
          → Returns (FinishDone bytes len head) (elim o [
            | none ↦ ok (false, head)
            | some (p, v) ↦ do
              o ← end_line bytes len p
              let head1 = record head { version = v }
              elim o [ none ↦ ok (false, head1) | some q ↦ parse_header bytes len q head1 ]
          ])
      after m p none v = returns no_result
      after m p (some (q, d)) (version room prefix e digit) =
          Returns-bind (end_line-Within (start + 8) (omega (arith, room)))
            λ o w. last m p d digit o w

  request_version-PathDone :
      (start p n : ℕ) (head : Header)
      → start < len
      → (0 < n → IsToken path_stop 32 bytes len p n)
      → (let head1 = record head { path = some p; path_len = n } in
          Returns (PathDone bytes len head) (request_version bytes len start head1))
  unfolding request_version
  request_version-PathDone start p n head h t =
      Returns-bind (skip_spaces-Scan bytes len fits (len + 1) start (omega arith) h) λ o d. after o
    where
      after :
          (o : Option ℕ)
          → (let head1 = record head { path = some p; path_len = n } in
              Returns
                (PathDone bytes len head)
                (elim o [ none ↦ ok (false, head1) | some q ↦ finish_request bytes len q head1 ]))
      after none = returns no_result
      after (some q) =
          Returns-map (finish_request-FinishDone q (record head { path = some p; path_len = n }))
            λ r done e.
              let (m, some_path, d, name, name_len, s, k, same, digit, is_name, is_value) =
                done e in
              (m, p, n, d, name, name_len, s, k, same, t some_path, digit, is_name, is_value)

  request_path-PathDone :
      (start : ℕ) (head : Header)
      → start < len
      → Returns (PathDone bytes len head) (request_path bytes len start head)
  unfolding request_path
  request_path-PathDone start head h =
      Returns-bind (advance_token-TokenDone bytes len fits start small h) λ o d. after o d
    where
      after :
          (o : Option (ℕ × ℕ × ℕ))
          → TokenDone path_stop 32 bytes len start o
          → Returns (PathDone bytes len head) (elim o [
            | none ↦ ok (false, head)
            | some (q, path, path_len) ↦
                request_version bytes len q (record head { path = some path; path_len = path_len })
          ])
      after none d = returns no_result
      after (some (q, v, m)) (token {p} (stops l h' c t) e) =
          request_version-PathDone p start (p - start) head h'
            (IsToken-of_Scan bytes len start p (stops l h' c t) e)

  request_target-RequestDone :
      (start m n : ℕ) (head : Header)
      → start < len
      → (0 < n → IsToken (token_stop 32) 32 bytes len m n)
      → (let head1 = record head { method = some m; method_len = n } in
          Returns (RequestDone bytes len head) (request_target bytes len start head1))
  unfolding request_target
  request_target-RequestDone start m n head h t =
      Returns-bind (skip_spaces-Scan bytes len fits (len + 1) start (omega arith) h)
        λ o d. after o d
    where
      after :
          (o : Option ℕ)
          → Scan (λ c. not (c == 32)) bytes len (start + 1) o
          → (let head1 = record head { method = some m; method_len = n } in
              Returns
                (RequestDone bytes len head)
                (elim o [ none ↦ ok (false, head1) | some q ↦ request_path bytes len q head1 ]))
      after none d = returns no_result
      after (some q) (stops l h' c t') =
          Returns-map (request_path-PathDone q (record head { method = some m; method_len = n }) h')
            λ r done e.
              let (
                some_method, p, k, d, name, name_len, s, j, same, is_path, digit, is_name, is_value,
              ) =
                done e in
              (
                m,
                n,
                p,
                k,
                d,
                name,
                name_len,
                s,
                j,
                same,
                t some_method,
                is_path,
                digit,
                is_name,
                is_value,
              )

  pub request_method-RequestDone :
      (start : ℕ) (head : Header)
      → start < len
      → Returns (RequestDone bytes len head) (request_method bytes len start head)
  unfolding request_method
  request_method-RequestDone start head h =
      Returns-bind (parse_token-TokenDone bytes len fits start 32 small h) λ o d. after o d
    where
      after :
          (o : Option (ℕ × ℕ × ℕ))
          → TokenDone (token_stop 32) 32 bytes len start o
          → Returns (RequestDone bytes len head) (elim o [
            | none ↦ ok (false, head)
            | some (q, method, method_len) ↦
                request_target bytes len q
                  (record head { method = some method; method_len = method_len })
          ])
      after none d = returns no_result
      after (some (q, v, m)) (token {p} (stops l h' c t) e) =
          request_target-RequestDone p start (p - start) head h'
            (IsToken-of_Scan bytes len start p (stops l h' c t) e)

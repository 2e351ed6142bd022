-- ===== src/HttpPeek/Parse/Accept.antt =====
-- A well-formed request is accepted, and its parts are reported where they stand.
use armory.Common.{
  ℕ, suc, ◌+◌, ◌%◌, ◌^◌, ◌≤◌, ◌<◌, ◌≡◌, ◌≢◌, refl, sym, ap, ◌∙◌, List, some, Bool, true, false, not,
  ◌||◌, arith, inl, inr, ok, length, at, ◌==◌, ==_iff, Bool-cases,
}
use native.Mathlib.Nat.{le_refl}
use armory.ClassicSort.Memory.{load-ok}
use armory.HttpPeek.Chars.{no_tokens, tokens, token_char_map, token_char, ends_line, blank}
use armory.HttpPeek.Scan.{expect_char, version_prefix}
use armory.HttpPeek.Scan.Search.{Clear, token_stop, path_stop}
use armory.HttpPeek.Parse.{
  Header, parse_value, parse_named, parse_line, parse_header, skip_line, end_line, finish_request,
  request_version, request_path, request_target, request_method, peek_http_request,
}
use armory.HttpPeek.Parse.HeaderLine.{IsToken}
use armory.HttpPeek.Parse.Exact.{
  parse_token-ok, advance_token-ok, skip_spaces-ok, skip_blanks-ok, trim_blanks-ok,
  get_token_to_eol-ok, parse_http_version-ok,
}

-- A line end: CR LF.
abbrev LineEnd : List ℕ → ℕ → Type 0
LineEnd bytes p = (at bytes p ≡ 13) × (at bytes (p + 1) ≡ 10)

-- A header line `name: value` at `h`: the name has `k` bytes, and the value, at `w`, has `j + 1`.
pub record IsHeaderLine (bytes : List ℕ) (len h k w j : ℕ) : Type 0 where
  pub name : IsToken (token_stop 58) 58 bytes len h k
  pub space : at bytes (h + k + 1) ≡ 32
  pub value_at : w ≡ h + k + 2
  pub first : blank (at bytes w) ≡ false
  pub last : blank (at bytes (w + j)) ≡ false
  pub clear : Clear ends_line bytes w (w + suc j)
  pub line_end : LineEnd bytes (w + suc j)
  pub inside : w + suc j + 1 < len

-- A request line with a method of `m` bytes at the start, a path of `n` bytes at `p`, `HTTP/1.d` at
-- `v`, and a header line at `h`, with single spaces between them.
pub record IsRequest (bytes : List ℕ) (len m p n v d h k w j : ℕ) : Type 0 where
  pub method : IsToken (token_stop 32) 32 bytes len 0 m
  pub path_at : p ≡ m + 1
  pub path : IsToken path_stop 32 bytes len p n
  pub version_at : v ≡ p + n + 1
  pub prefix : (i : ℕ) → i < 7 → at bytes (v + i) ≡ at version_prefix i
  pub digit : at bytes (v + 7) ≡ 48 + d
  pub one_digit : d < 10
  pub line_end : LineEnd bytes (v + 8)
  pub header_at : h ≡ v + 10
  pub header : IsHeaderLine bytes len h k w j

kept : (a b : Bool) → (a || not b) ≡ false → b ≡ true
kept a b h = ground arith

clash : {b : Bool} → b ≡ true → b ≡ false → ⊥
clash p q = cc

path_no_space : (c : ℕ) → path_stop c ≡ false → c ≢ 32
path_no_space c h e = ground arith

version_no_space :
    (bytes : List ℕ) (v : ℕ)
    → ((i : ℕ) → i < 7 → at bytes (v + i) ≡ at version_prefix i)
    → at bytes v ≢ 32
unfolding at
version_no_space bytes v prefix e =
    let v' : v + 0 ≡ v = omega arith in
    let h : at bytes (v + 0) ≡ 72 = prefix 0 (omega arith) in
    absurd (omega (arith, ap (at bytes) v', h, e))

space-blank : (c : ℕ) → c ≡ 32 → blank c ≡ true
unfolding blank
space-blank c e = rw e

-- A byte of a token is no line end and no blank.
token_byte :
    (next c : ℕ)
    → token_stop next c ≡ false
    → ((c == 13) ≡ false) × ((c == 10) ≡ false) × (blank c ≡ false)
unfolding blank token_char token_char_map no_tokens tokens at
token_byte next c h =
    (other 13 refl, other 10 refl, both (c == 32) (c == 9) (other 32 refl) (other 9 refl))
  where
    both : (a b : Bool) → a ≡ false → b ≡ false → (a || b) ≡ false
    both a b e f = ground arith

    other : (x : ℕ) → token_char x ≡ false → (c == x) ≡ false
    other x bad = elim (Bool-cases (c == x)) [
      | inl same ↦
          absurd
            (clash (kept (c == next) (token_char c) h) (ap token_char ((==_iff c x).0 same) ∙ bad))
      | inr differs ↦ differs
    ]

module _ (bytes : List ℕ) (len : ℕ) (fits : len ≤ length bytes) (small : len < 2 ^ 16) where
  parse_header-ok :
      (h k w j : ℕ) (head : Header)
      → IsHeaderLine bytes len h k w j
      → parse_header bytes len h head
        ≡ ok (true, record head { name = some h; name_len = k; value = some w; value_len = suc j })
  unfolding parse_header parse_line parse_named parse_value
  parse_header-ok h k w j head r =
      let inside = r.inside in
      let first : h + 0 ≡ h = omega arith in
      let (no_cr, no_lf, no_blank) =
        token_byte 58 (at bytes h) (r.name.clear h (le_refl h) (omega (arith, r.name.positive))) in
      let not_end : (h == len) ≡ false = ground (arith, r.value_at) in
      let some_name : (k == 0) ≡ false = ground (arith, r.name.positive) in
      let w' : h + k + 1 + 1 ≡ w = omega (arith, r.value_at) in
      let size : suc j % 2 ^ 16 ≡ suc j = omega arith in
      rw (
        not_end,
        load-ok bytes h (omega (arith, r.value_at)),
        no_cr,
        no_lf,
        no_blank,
        parse_token-ok bytes len fits small h k 58 r.name,
        some_name,
        skip_blanks-ok bytes len fits small (h + k + 1) (omega (arith, r.value_at))
            (space-blank _ r.space) (rw w' r.first),
        w',
        get_token_to_eol-ok bytes len fits small w (suc j) r.clear r.line_end.0 r.line_end.1 inside,
        trim_blanks-ok bytes len fits small w j (omega arith) r.last,
        size,
      )

  finish_request-ok :
      (v d h k w j : ℕ) (head : Header)
      → 0 < head.method_len
      → 0 < head.path_len
      → v + 10 < len
      → ((i : ℕ) → i < 7 → at bytes (v + i) ≡ at version_prefix i)
      → at bytes (v + 7) ≡ 48 + d
      → d < 10
      → LineEnd bytes (v + 8)
      → h ≡ v + 10
      → IsHeaderLine bytes len h k w j
      → finish_request bytes len v head
        ≡ ok (
          true,
          record head {
            version = d;
            name = some h;
            name_len = k;
            value = some w;
            value_len = suc j;
          },
        )
  unfolding finish_request end_line expect_char
  finish_request-ok v d h k w j head m p room prefix digit one_digit (cr, lf) e line =
      let no_method : (head.method_len == 0) ≡ false = ground arith in
      let no_path : (head.path_len == 0) ≡ false = ground arith in
      let more : (v + 8 + 1 == len) ≡ false = ground arith in
      let h' : v + 8 + 1 + 1 ≡ h = omega (arith, e) in
      rw
        (
          no_method,
          no_path,
          parse_http_version-ok bytes len fits small v d (omega arith) prefix digit one_digit,
          load-ok bytes (v + 8) (omega arith),
          cr,
          more,
          load-ok bytes (v + 8 + 1) (omega arith),
          lf,
          h',
        )
        (parse_header-ok h k w j (record head { version = d }) line)

-- A message of a length that fits `uint16_t` is accepted, whatever follows, and each part is
-- reported at its place and with its length, if it starts with a method, a path and `HTTP/1.` with
-- a digit, then a header name, a colon and a value, with one space between the parts and CR LF
-- behind both lines. The parts are not empty; the method and the name are tokens, the path has no
-- space and no control character, the value has no control character but tabs and no blank at
-- either end.
pub peek_http_request-accepts :
    (bytes : List ℕ) (head : Header) (m p n v d h k w j : ℕ)
    → length bytes < 2 ^ 16
    → IsRequest bytes (length bytes) m p n v d h k w j
    → peek_http_request bytes (length bytes) head
      ≡ ok (
        true,
        record head {
          method = some 0;
          method_len = m;
          path = some p;
          path_len = n;
          version = d;
          name = some h;
          name_len = k;
          value = some w;
          value_len = suc j;
        },
      )
unfolding peek_http_request skip_line request_method request_target request_path request_version
peek_http_request-accepts bytes head m p n v d h k w j small r =
    let len = length bytes in
    let fits = le_refl len in
    let line = r.header in
    let room : v + 10 < len = omega (arith, r.header_at, line.inside, line.value_at) in
    let (no_cr, no_lf, _) =
      token_byte 32 (at bytes 0)
        (r.method.clear 0 (omega arith) (omega (arith, r.method.positive))) in
    let full : (0 == len) ≡ false = ground arith in
    let p' : m + 1 ≡ p = sym r.path_at in
    let v' : p + n + 1 ≡ v = sym r.version_at in
    let zero' : 0 + m ≡ m = omega arith in
    let path_byte : at bytes (m + 1) ≢ 32 =
      rw p' (
        path_no_space (at bytes p) (r.path.clear p (le_refl p) (omega (arith, r.path.positive)))) in
    let version_byte : at bytes (p + n + 1) ≢ 32 = rw v' (version_no_space bytes v r.prefix) in
    rw
      (
        full,
        load-ok bytes 0 (omega arith),
        no_cr,
        no_lf,
        parse_token-ok bytes len fits small 0 m 32 r.method,
        zero',
        skip_spaces-ok bytes len fits small m (omega (arith, r.version_at, r.path_at)) path_byte,
        p',
        advance_token-ok bytes len fits small p n r.path,
        skip_spaces-ok bytes len fits small (p + n) (omega (arith, r.version_at)) version_byte,
        v',
      )
      (finish_request-ok bytes len fits small v d h k w j
        (record head { method = some 0; method_len = m; path = some p; path_len = n })
        r.method.positive r.path.positive room r.prefix r.digit r.one_digit r.line_end r.header_at
        line)

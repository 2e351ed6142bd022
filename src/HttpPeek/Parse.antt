-- ===== src/HttpPeek/Parse.antt =====
-- `parse_header`, `peek_http_request` and `peek_http_response` of common/http_peek.c. Each
-- returns its result and `*p_head`, which it may have changed in part when the result is false.
pub mod HeaderLine
pub mod RequestLine
pub mod Request
pub mod Response
pub mod Exact
pub mod Accept
use armory.Common.{
  ℕ, zero, suc, ◌+◌, ◌-◌, ◌*◌, ◌%◌, ◌^◌, List, Option, none, some, Bool, true, false, not, ◌||◌,
  Run, ok, fault, out_of_fuel, ◌>>=◌, ltb, ◌==◌, if◌then◌else◌, length,
}
use armory.ClassicSort.Memory.{load}
use armory.HttpPeek.Chars.{char_is_not_number, blank}
use armory.HttpPeek.Scan.{
  expect_char, parse_token, advance_token, skip_spaces, skip_blanks, trim_blanks,
  parse_http_version,
}
use armory.HttpPeek.Eol.{get_token_to_eol}

-- `peek_header_t`; a pointer is NULL or an index of the buffer.
pub record Header : Type 0 where
  pub name : Option ℕ
  pub name_len : ℕ
  pub value : Option ℕ
  pub value_len : ℕ
  pub version : ℕ
  pub method : Option ℕ
  pub method_len : ℕ
  pub path : Option ℕ
  pub path_len : ℕ
  pub res_code : ℕ
  pub msg : Option ℕ
  pub msg_len : ℕ

-- `if ((buf = ...) == NULL) return result`.
abbrev pub or_return {ℓ κ} : {A : Type ℓ} {B : Type κ} → Run (Option A) → B → (A → Run B) → Run B
or_return m result next = do o ← m; elim o [ none ↦ ok result | some x ↦ next x ]

-- The value of a header line, from its first byte on.
unfoldable pub parse_value : List ℕ → ℕ → ℕ → Header → Run (Bool × Header)
parse_value bytes buf_end buf head =
    or_return (get_token_to_eol bytes buf_end buf) (false, head)
      λ (p, value, value_len). do
        n ← trim_blanks bytes value value_len
        ok (true, record head { value = some value; value_len = n % 2 ^ 16 })

-- Behind the colon of a name.
unfoldable pub parse_named : List ℕ → ℕ → ℕ → Header → Run (Bool × Header)
parse_named bytes buf_end buf head =
    or_return (skip_blanks (buf_end + 1) bytes buf_end buf) (false, head)
      λ q. parse_value bytes buf_end q head

-- The header line whose first byte is `c`.
unfoldable pub parse_line : List ℕ → ℕ → ℕ → ℕ → Header → Run (Bool × Header)
parse_line bytes buf_end buf c head =
    let named : Run (Bool × Header) =
      or_return (parse_token bytes buf_end buf 58) (false, head)
        λ (p, name, name_len).
          let head1 = record head { name = some name; name_len = name_len } in
          let rest = parse_named bytes buf_end (p + 1) head1 in
          if name_len == 0 then ok (false, head1) else rest in
    let unnamed = parse_value bytes buf_end buf (record head { name = none; name_len = 0 }) in
    if blank c then unnamed else named

unfoldable pub parse_header : List ℕ → ℕ → ℕ → Header → Run (Bool × Header)
parse_header bytes buf_end buf head =
    let empty_line : Run (Bool × Header) = do
      o ← expect_char bytes buf_end (buf + 1) 10
      ok (false, head)
    in let body : Run (Bool × Header) = do
      c ← load bytes buf
      if c == 13
          then empty_line
          else if c == 10
          then ok (false, head)
          else parse_line bytes buf_end buf c head
      in if buf == buf_end then ok (false, head) else body

-- The first `if` of `peek_http_request`: the index behind an empty line.
unfoldable pub skip_line : List ℕ → ℕ → Run (Option ℕ)
skip_line bytes buf_end =
    let test : Run (Option ℕ) = do
      c ← load bytes 0
      if c == 13
          then expect_char bytes buf_end 1 10
          else if c == 10
          then ok (some 1)
          else ok (some 0)
    in if 0 == buf_end then ok none else test

-- The end of the request line.
unfoldable pub end_line : List ℕ → ℕ → ℕ → Run (Option ℕ)
end_line bytes buf_end buf = do
  c ← load bytes buf
  if c == 13
      then expect_char bytes buf_end (buf + 1) 10
      else if c == 10
      then ok (some (buf + 1))
      else ok none

-- From the version of the request line on.
unfoldable pub finish_request : List ℕ → ℕ → ℕ → Header → Run (Bool × Header)
finish_request bytes buf_end buf head =
    let rest : Run (Bool × Header) =
      or_return (parse_http_version bytes buf_end buf) (false, head)
        λ (p, version).
          let head1 = record head { version = version } in
          or_return (end_line bytes buf_end p) (false, head1)
            λ q. parse_header bytes buf_end q head1 in
    if (head.method_len == 0) || (head.path_len == 0) then ok (false, head) else rest

-- From the space behind the path on.
unfoldable pub request_version : List ℕ → ℕ → ℕ → Header → Run (Bool × Header)
request_version bytes buf_end buf head =
    or_return (skip_spaces (buf_end + 1) bytes buf_end buf) (false, head)
      λ r. finish_request bytes buf_end r head

-- From the first byte of the path on.
unfoldable pub request_path : List ℕ → ℕ → ℕ → Header → Run (Bool × Header)
request_path bytes buf_end buf head =
    or_return (advance_token bytes buf_end buf) (false, head)
      λ (q, path, path_len).
        request_version bytes buf_end q (record head { path = some path; path_len = path_len })

-- From the space behind the method on.
unfoldable pub request_target : List ℕ → ℕ → ℕ → Header → Run (Bool × Header)
request_target bytes buf_end buf head =
    or_return (skip_spaces (buf_end + 1) bytes buf_end buf) (false, head)
      λ p. request_path bytes buf_end p head

-- From the method on.
unfoldable pub request_method : List ℕ → ℕ → ℕ → Header → Run (Bool × Header)
request_method bytes buf_end buf head =
    or_return (parse_token bytes buf_end buf 32) (false, head)
      λ (p, method, method_len).
        request_target bytes buf_end p
          (record head { method = some method; method_len = method_len })

unfoldable pub peek_http_request : List ℕ → ℕ → Header → Run (Bool × Header)
peek_http_request bytes len head =
    or_return (skip_line bytes len) (false, head) λ buf. request_method bytes len buf head

-- `*p_head->msg`.
unfoldable pub load_msg : List ℕ → Header → Run ℕ
load_msg bytes head = elim head.msg [ none ↦ fault | some i ↦ load bytes i ]

-- `do { ++msg; --msg_len; } while (*msg == ' ')`.
unfoldable pub skip_msg : ℕ → List ℕ → Header → Run Header
skip_msg zero bytes head = out_of_fuel
skip_msg (suc fuel) bytes head = elim head.msg [
  | none ↦ fault
  | some i ↦
      let head1 = record head {
        msg = some (i + 1);
        msg_len = (head.msg_len + 2 ^ 16 - 1) % 2 ^ 16;
      } in
      let rest = skip_msg fuel bytes head1 in
      do c ← load bytes (i + 1); if c == 32 then rest else ok head1
]

-- The tests of `msg_len` and `*msg` in `peek_http_response`, and the header line.
unfoldable pub finish_response : List ℕ → ℕ → ℕ → Header → Run (Bool × Header)
finish_response bytes buf_end buf head =
    let rest = parse_header bytes buf_end buf head in
    let spaces : Run (Bool × Header) = do
      head1 ← skip_msg (length bytes + 1) bytes head
      parse_header bytes buf_end buf head1
    in let test : Run (Bool × Header) = do
      c ← load_msg bytes head
      if c == 32 then spaces else ok (false, head)
      in if head.msg_len == 0 then rest else test

-- `100 * (buf[0] - '0')`, plus the two digits after it.
unfoldable pub status_code : ℕ → ℕ → ℕ → ℕ
status_code x y z = 100 * (x - 48) + 10 * (y - 48) + (z - 48)

-- The three digits from `buf` on; `none` if one is no digit.
unfoldable pub status_digits : List ℕ → ℕ → ℕ → Run (Option ℕ)
status_digits bytes buf_end buf =
    let digits : Run (Option ℕ) = do
      x ← load bytes buf
      let two : Run (Option ℕ) = do
        y ← load bytes (buf + 1)
        let one : Run (Option ℕ) = do
          z ← load bytes (buf + 2)
          ok (if char_is_not_number z then none else some (status_code x y z))
        if char_is_not_number y then ok none else one
      if char_is_not_number x then ok none else two
    in if ltb buf_end (buf + 4) then ok none else digits

-- From the byte behind the status code on.
unfoldable pub response_message : List ℕ → ℕ → ℕ → Header → Run (Bool × Header)
response_message bytes buf_end buf head =
    or_return (get_token_to_eol bytes buf_end buf) (false, head)
      λ (q, value, value_len).
        finish_response bytes buf_end q (record head { value = some value; value_len = value_len })

-- From the status code on.
unfoldable pub response_status : List ℕ → ℕ → ℕ → Header → Run (Bool × Header)
response_status bytes buf_end buf head =
    or_return (status_digits bytes buf_end buf) (false, head)
      λ code. response_message bytes buf_end (buf + 3) (record head { res_code = code })

-- From the byte behind the version on.
unfoldable pub response_version : List ℕ → ℕ → ℕ → Header → Run (Bool × Header)
response_version bytes buf_end buf head =
    let rest : Run (Bool × Header) =
      or_return (skip_spaces (buf_end + 1) bytes buf_end buf) (false, head)
        λ p. response_status bytes buf_end p head in
    do c ← load bytes buf; if not (c == 32) then ok (false, head) else rest

unfoldable pub peek_http_response : List ℕ → ℕ → Header → Run (Bool × Header)
peek_http_response bytes len head =
    or_return (parse_http_version bytes len 0) (false, head)
      λ (p, version). response_version bytes len p (record head { version = version })

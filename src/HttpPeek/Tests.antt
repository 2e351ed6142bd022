-- ===== src/HttpPeek/Tests.antt =====
-- Runs of the parser on small messages, and examples of its results.
use armory.Common.{
  Bool, ◌<◌, suc, ◌+◌, zero, refl, ℕ, ◌≡◌, refl, ap, List, [], ◌∷◌, ◌++◌, none, some, true, arith,
  inl, inr, ok, fault, Returns, length, at, sub32, ◌↔◌,
}
use armory.ClassicSort.Memory.{load}
use armory.HttpPeek.Chars.{
  printable, char_is_not_number, no_tokens, tokens, token_char_map, token_char, ends_line,
  breaks_path, blank,
}
use armory.HttpPeek.Chars.Laws.{is_tchar, token_char-is_tchar}
use armory.HttpPeek.Scan.{
  expect_char, token_loop, parse_token, advance_loop, advance_token, skip_spaces, skip_blanks,
  trim_blanks, has_prefix, version_prefix, parse_http_version,
}
use armory.HttpPeek.Scan.Search.{token_stop, TokenDone}
use armory.HttpPeek.Scan.Tokens.{parse_token-TokenDone}
use armory.HttpPeek.Eol.{doit, eight_bytes, fast_loop, slow_loop, found_ctl, get_token_to_eol}
use armory.HttpPeek.Eol.Line.{LineDone, get_token_to_eol-LineDone}
use armory.HttpPeek.Parse.{
  Header, parse_value, parse_named, parse_line, parse_header, skip_line, end_line, finish_request,
  request_version, request_path, request_target, request_method, peek_http_request, finish_response,
  status_code, status_digits, response_message, response_status, response_version,
  peek_http_response,
}
use armory.HttpPeek.Parse.HeaderLine.{HeaderDone, parse_header-HeaderDone}
use armory.HttpPeek.Parse.RequestLine.{RequestDone}
use armory.HttpPeek.Parse.Request.{
  JustLineEnd, peek_http_request-RequestDone, peek_http_request-fault_iff,
}
use armory.HttpPeek.Scan.Search.{Clear, Clear-step, path_stop}
use armory.HttpPeek.Parse.HeaderLine.{IsToken}
use armory.HttpPeek.Parse.Accept.{IsRequest, peek_http_request-accepts}
use armory.HttpPeek.Parse.Response.{ResponseDone, peek_http_response-ResponseDone}

-- A header set to zeros.
abbrev cleared : Header
cleared = record {
  name = none;
  name_len = 0;
  value = none;
  value_len = 0;
  version = 0;
  method = none;
  method_len = 0;
  path = none;
  path_len = 0;
  res_code = 0;
  msg = none;
  msg_len = 0;
}

-- `H: xyzxyz\tzz \r\n`
abbrev header_line : List ℕ
header_line = 72 ∷ 58 ∷ 32 ∷ 120 ∷ 121 ∷ 122 ∷ 120 ∷ 121 ∷ 122 ∷ 9 ∷ 122 ∷ 122 ∷ 32 ∷ 13 ∷ 10 ∷ []

-- `GET /a HTTP/1.1\r\n` and the header line.
abbrev request : List ℕ
request =
    (71 ∷ 69 ∷ 84 ∷ 32 ∷ 47 ∷ 97 ∷ 32 ∷ []) ++ version_prefix ++ (49 ∷ 13 ∷ 10 ∷ []) ++ header_line

-- `HTTP/1.1 204 OK\r\n` and the header line.
abbrev response : List ℕ
response = version_prefix ++ (49 ∷ 32 ∷ 50 ∷ 48 ∷ 52 ∷ 32 ∷ 79 ∷ 75 ∷ 13 ∷ 10 ∷ []) ++ header_line

request_run :
    peek_http_request request 32 cleared
    ≡ ok (
      true,
      record cleared {
        method = some 0;
        method_len = 3;
        path = some 4;
        path_len = 2;
        version = 1;
        name = some 17;
        name_len = 1;
        value = some 20;
        value_len = 9;
      },
    )
unfolding printable char_is_not_number no_tokens tokens token_char_map token_char ends_line
    breaks_path blank doit eight_bytes fast_loop slow_loop found_ctl get_token_to_eol parse_value
    parse_named parse_line parse_header skip_line end_line finish_request request_version
    request_path request_target request_method peek_http_request finish_response status_code
    status_digits response_message response_status response_version peek_http_response expect_char
    token_loop parse_token advance_loop advance_token skip_spaces skip_blanks trim_blanks has_prefix
    parse_http_version load at sub32
request_run = refl

response_run :
    peek_http_response response 32 cleared
    ≡ ok (
      true,
      record cleared {
        version = 1;
        res_code = 204;
        name = some 17;
        name_len = 1;
        value = some 20;
        value_len = 9;
      },
    )
unfolding printable char_is_not_number no_tokens tokens token_char_map token_char ends_line
    breaks_path blank doit eight_bytes fast_loop slow_loop found_ctl get_token_to_eol parse_value
    parse_named parse_line parse_header skip_line end_line finish_request request_version
    request_path request_target request_method peek_http_request finish_response status_code
    status_digits response_message response_status response_version peek_http_response expect_char
    token_loop parse_token advance_loop advance_token skip_spaces skip_blanks trim_blanks has_prefix
    parse_http_version load at sub32
response_run = refl

no_line_end : ¬ JustLineEnd request
no_line_end (inl e) = absurd (omega (arith, ap length e))
no_line_end (inr e) = absurd (omega (arith, ap length e))

peek_http_request-RequestDone_example :
    Returns (RequestDone request 32 cleared) (peek_http_request request 32 cleared)
peek_http_request-RequestDone_example =
    peek_http_request-RequestDone request cleared (omega arith) no_line_end

peek_http_request-fault_iff_example :
    (peek_http_request (13 ∷ 10 ∷ []) 2 cleared ≡ fault) ↔ JustLineEnd (13 ∷ 10 ∷ [])
peek_http_request-fault_iff_example =
    peek_http_request-fault_iff (13 ∷ 10 ∷ []) cleared (omega arith)

peek_http_response-ResponseDone_example :
    Returns (ResponseDone response 32 cleared) (peek_http_response response 32 cleared)
peek_http_response-ResponseDone_example =
    peek_http_response-ResponseDone response cleared (omega arith) refl

parse_header-HeaderDone_example :
    Returns (HeaderDone header_line 15 cleared) (parse_header header_line 15 0 cleared)
parse_header-HeaderDone_example =
    parse_header-HeaderDone header_line 15 (omega arith) (omega arith) 0 cleared (omega arith)

get_token_to_eol-LineDone_example :
    Returns (LineDone header_line 15 3) (get_token_to_eol header_line 15 3)
get_token_to_eol-LineDone_example =
    get_token_to_eol-LineDone header_line 15 (omega arith) 3 (omega arith) (omega arith)

parse_token-TokenDone_run :
    Returns (TokenDone (token_stop 58) 58 header_line 15 0) (parse_token header_line 15 0 58)
parse_token-TokenDone_run =
    parse_token-TokenDone header_line 15 (omega arith) 0 58 (omega arith) (omega arith)

token_char-is_tchar_example : token_char 58 ≡ is_tchar 58
token_char-is_tchar_example = token_char-is_tchar 58 (omega arith)

-- `G /a HTTP/1.1\r\nH: x\r\n`
abbrev short_request : List ℕ
short_request =
    (71 ∷ 32 ∷ 47 ∷ 97 ∷ 32 ∷ [])
    ++ version_prefix
    ++ (49 ∷ 13 ∷ 10 ∷ 72 ∷ 58 ∷ 32 ∷ 120 ∷ 13 ∷ 10 ∷ [])

Clear-none : (test : ℕ → Bool) (n : ℕ) → Clear test short_request n n
Clear-none test n k l h = absurd (omega arith)

short_method : IsToken (token_stop 32) 32 short_request 21 0 1
unfolding at token_char token_char_map no_tokens tokens
short_method = record {
  positive = omega arith;
  inside = omega arith;
  clear = Clear-step (token_stop 32) short_request 0 1 refl (Clear-none (token_stop 32) 1);
  follower = refl;
}

short_path : IsToken path_stop 32 short_request 21 2 2
unfolding at breaks_path
short_path = record {
  positive = omega arith;
  inside = omega arith;
  clear =
      Clear-step path_stop short_request 2 4 refl
        (Clear-step path_stop short_request 3 4 refl (Clear-none path_stop 4));
  follower = refl;
}

short_name : IsToken (token_stop 58) 58 short_request 21 15 1
unfolding at token_char token_char_map no_tokens tokens
short_name = record {
  positive = omega arith;
  inside = omega arith;
  clear = Clear-step (token_stop 58) short_request 15 16 refl (Clear-none (token_stop 58) 16);
  follower = refl;
}

short_prefix : (i : ℕ) → i < 7 → at short_request (5 + i) ≡ at version_prefix i
unfolding at
short_prefix zero h = refl
short_prefix (suc zero) h = refl
short_prefix (suc (suc zero)) h = refl
short_prefix (suc (suc (suc zero))) h = refl
short_prefix (suc (suc (suc (suc zero)))) h = refl
short_prefix (suc (suc (suc (suc (suc zero))))) h = refl
short_prefix (suc (suc (suc (suc (suc (suc zero)))))) h = refl
short_prefix (suc (suc (suc (suc (suc (suc (suc i))))))) h = absurd (omega arith)

short_request-IsRequest : IsRequest short_request 21 1 2 2 5 1 15 1 18 0
unfolding at blank ends_line
short_request-IsRequest = record {
  method = short_method;
  path_at = refl;
  path = short_path;
  version_at = refl;
  prefix = short_prefix;
  digit = refl;
  one_digit = omega arith;
  line_end = (refl, refl);
  header_at = refl;
  header = record {
    name = short_name;
    space = refl;
    value_at = refl;
    first = refl;
    last = refl;
    clear = Clear-step ends_line short_request 18 19 refl (Clear-none ends_line 19);
    line_end = (refl, refl);
    inside = omega arith;
  };
}

peek_http_request-accepts_example :
    peek_http_request short_request 21 cleared
    ≡ ok (
      true,
      record cleared {
        method = some 0;
        method_len = 1;
        path = some 2;
        path_len = 2;
        version = 1;
        name = some 15;
        name_len = 1;
        value = some 18;
        value_len = 1;
      },
    )
peek_http_request-accepts_example =
    peek_http_request-accepts short_request cleared 1 2 2 5 1 15 1 18 0 (omega arith)
      short_request-IsRequest

-- ===== src/EasyLog/Format.antt =====
-- The time stamps of common/easy_log/easy_log.c: `utc_format`, with `snprintf` as far as it is used.
use armory.Common.{ℕ, ◌+◌, ◌-◌, List, ◌∷◌, ◌++◌, Bool, ltb, print_int, take, if◌then◌else◌}

-- `struct tm`: what `localtime_r` gives.
pub record Tm : Type 0 where
  pub tm_year : ℕ
  pub tm_mon : ℕ
  pub tm_mday : ℕ
  pub tm_hour : ℕ
  pub tm_min : ℕ
  pub tm_sec : ℕ

unfoldable pub print_two : ℕ → List ℕ
print_two n = if ltb n 10 then 48 ∷ print_int n else print_int n

-- The two formats differ in their separators; at most `buf_len - 1` bytes are kept.
unfoldable pub utc_format : Tm → ℕ → Bool → List ℕ
utc_format curr buf_len path_suffix =
    let date_sep : ℕ = if path_suffix then 45 else 47 in
    let middle : ℕ = if path_suffix then 95 else 32 in
    take (buf_len - 1) (
      print_int (curr.tm_year + 1900)
      ++ date_sep ∷ print_two (curr.tm_mon + 1)
      ++ date_sep ∷ print_two curr.tm_mday
      ++ middle ∷ print_two curr.tm_hour
      ++ 58 ∷ print_two curr.tm_min
      ++ 58 ∷ print_two curr.tm_sec)

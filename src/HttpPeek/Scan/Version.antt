-- ===== src/HttpPeek/Scan/Version.antt =====
-- `parse_http_version` of common/http_peek.c.
use armory.Common.{
  ℕ, zero, suc, ◌+◌, ◌-◌, ◌≤◌, ◌<◌, ◌≡◌, List, [], ◌∷◌, Option, none, some, true, false, arith, inl,
  inr, Returns, returns, Returns-bind, Returns-map, Returns-if, Returns-unless, length, at, ltb,
  ltb-false→le, ◌==◌, ==_iff, Bool-cases,
}
use armory.ClassicSort.Memory.{load-ok}
use armory.HttpPeek.Chars.{char_is_not_number}
use armory.HttpPeek.Scan.{has_prefix, parse_http_version, version_prefix}
use armory.HttpPeek.Scan.Search.{}

pub digit_value : (c : ℕ) → char_is_not_number c ≡ false → (d : ℕ) × (c ≡ 48 + d) × (d < 10)
unfolding char_is_not_number
digit_value c h = (c - 48, ground arith, ground arith)

-- A version is the digit behind `HTTP/1.`, with another byte behind it.
pub data VersionDone (bytes : List ℕ) (len start : ℕ) : Option (ℕ × ℕ) → Type 0 where
  version :
      {d : ℕ}
      → start + 9 ≤ len
      → ((k : ℕ) → k < 7 → at bytes (start + k) ≡ at version_prefix k)
      → at bytes (start + 7) ≡ 48 + d
      → d < 10
      → VersionDone bytes len start (some (start + 8, d))
  no_version : VersionDone bytes len start none

module _ (bytes : List ℕ) (len : ℕ) (fits : len ≤ length bytes) where
  pub has_prefix-reads :
      (start : ℕ) (xs : List ℕ)
      → start + length xs ≤ len
      → Returns
          (λ b. b ≡ true → (k : ℕ) → k < length xs → at bytes (start + k) ≡ at xs k)
          (has_prefix bytes start xs)
  unfolding has_prefix at
  has_prefix-reads start [] h = returns (λ _ k l. absurd (omega arith))
  has_prefix-reads start (x ∷ xs) h = rw (load-ok bytes start (omega arith)) (
      Returns-unless (at bytes start == x)
        (λ holds.
          Returns-map (has_prefix-reads (start + 1) xs (omega arith))
            (λ b rest e k l. step ((==_iff _ _).0 holds) k l (rest e)))
        (λ other. returns (λ e. absurd (ground arith))))
    where
      step :
          at bytes start ≡ x
          → (k : ℕ) → k < suc (length xs)
          → ((j : ℕ) → j < length xs → at bytes (start + 1 + j) ≡ at xs j)
          → at bytes (start + k) ≡ at (x ∷ xs) k
      step first zero l rest = let e : start + 0 ≡ start = omega arith in rw e first
      step first (suc k) l rest =
          let e : start + suc k ≡ start + 1 + k = omega arith in rw e (rest k (omega arith))

  pub parse_http_version-VersionDone :
      (start : ℕ) → Returns (VersionDone bytes len start) (parse_http_version bytes len start)
  unfolding parse_http_version
  parse_http_version-VersionDone start =
      Returns-if (ltb len (start + 9)) (λ short. returns no_version)
        (λ long.
          let room = ltb-false→le _ _ long in
          Returns-bind (has_prefix-reads start version_prefix (omega (arith, room))) (λ b same.
            Returns-unless b
              (λ good.
                rw (load-ok bytes (start + 7) (omega (arith, room)))
                  (elim (Bool-cases (char_is_not_number (at bytes (start + 7)))) [
                    | inl no_digit ↦ rw no_digit (returns no_version)
                    | inr digit ↦ rw digit (
                        let (d, e, l) = digit_value (at bytes (start + 7)) digit in
                        let e' : at bytes (start + 7) - 48 ≡ d = omega (arith, e) in
                        rw e' (returns (version room (same good) e l)))
                  ]))
              (λ bad. returns no_version)))

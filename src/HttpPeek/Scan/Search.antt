-- ===== src/HttpPeek/Scan/Search.antt =====
-- The first byte from an index on that a test finds, and the tokens before it.
use armory.Common.{
  ℕ, ◌+◌, ◌-◌, ◌%◌, ◌^◌, ◌≤◌, ◌<◌, ◌≡◌, ◌≢◌, List, Option, none, some, Bool, true, false, not, ◌||◌,
  arith, Run, ok, ◌>>=◌, Returns, returns, Returns-bind, at, ◌==◌,
}
use native.Mathlib.Decide.{ℕ_discrete, dec_le}
use armory.HttpPeek.Chars.{token_char, breaks_path}
use armory.HttpPeek.Scan.{distance}

-- The test finds nothing from `start` up to `stop`.
abbrev pub Clear : (ℕ → Bool) → List ℕ → ℕ → ℕ → Type 0
Clear test bytes start stop = (k : ℕ) → start ≤ k → k < stop → test (at bytes k) ≡ false

pub Clear-step :
    (test : ℕ → Bool) (bytes : List ℕ) (start stop : ℕ)
    → test (at bytes start) ≡ false
    → Clear test bytes (start + 1) stop
    → Clear test bytes start stop
Clear-step test bytes start stop here after k l h = elim (ℕ_discrete start k) [
  | yes e ↦ rw e at here
  | no n ↦ after k (omega arith) h
]

pub Clear-join :
    (test : ℕ → Bool) (bytes : List ℕ) (start mid stop : ℕ)
    → Clear test bytes start mid
    → Clear test bytes mid stop
    → Clear test bytes start stop
Clear-join test bytes start mid stop before after k l h = elim (dec_le mid k) [
  | yes m ↦ after k m h
  | no n ↦ before k l (omega arith)
]

-- The first byte that the test finds from `start` on, if there is one before `len`.
pub data Scan (test : ℕ → Bool) (bytes : List ℕ) (len start : ℕ) : Option ℕ → Type 0 where
  stops :
      {p : ℕ}
      → start ≤ p
      → p < len
      → Clear test bytes start p
      → test (at bytes p) ≡ true
      → Scan test bytes len start (some p)
  ends : Clear test bytes start len → Scan test bytes len start none

pub Scan-step :
    {test : ℕ → Bool} (bytes : List ℕ) (len start : ℕ) {o : Option ℕ}
    → test (at bytes start) ≡ false
    → Scan test bytes len (start + 1) o
    → Scan test bytes len start o
Scan-step {test} bytes len start here (stops l h c t) =
    stops (omega arith) h (Clear-step test bytes start _ here c) t
Scan-step {test} bytes len start here (ends c) = ends (Clear-step test bytes start len here c)

pub Scan-here :
    {test : ℕ → Bool} (bytes : List ℕ) (len start : ℕ)
    → start < len
    → test (at bytes start) ≡ true
    → Scan test bytes len start (some start)
Scan-here bytes len start h t = stops (omega arith) h (λ k l m. absurd (omega arith)) t

pub Scan-end :
    {test : ℕ → Bool} (bytes : List ℕ) (len start : ℕ)
    → len ≤ start
    → Scan test bytes len start none
Scan-end bytes len start h = ends (λ k l m. absurd (omega arith))

-- A search that gives up: the first byte that the test finds is the result if it is the wanted
-- one, and there is none if it is another.
pub data Hunt (test : ℕ → Bool) (wanted : ℕ) (bytes : List ℕ) (len start : ℕ)
    : Option ℕ → Type 0 where
  found :
      {p : ℕ}
      → Scan test bytes len start (some p)
      → at bytes p ≡ wanted
      → Hunt test wanted bytes len start (some p)
  refused :
      {p : ℕ}
      → Scan test bytes len start (some p)
      → at bytes p ≢ wanted
      → Hunt test wanted bytes len start none
  ended : Scan test bytes len start none → Hunt test wanted bytes len start none

pub Hunt-step :
    {test : ℕ → Bool} {wanted : ℕ} (bytes : List ℕ) (len start : ℕ) {o : Option ℕ}
    → test (at bytes start) ≡ false
    → Hunt test wanted bytes len (start + 1) o
    → Hunt test wanted bytes len start o
Hunt-step bytes len start here (found s e) = found (Scan-step bytes len start here s) e
Hunt-step bytes len start here (refused s n) = refused (Scan-step bytes len start here s) n
Hunt-step bytes len start here (ended s) = ended (Scan-step bytes len start here s)

-- What stops a token: the character behind it, or one that no token has.
abbrev pub token_stop : ℕ → ℕ → Bool
token_stop next c = (c == next) || not (token_char c)

abbrev pub path_stop : ℕ → Bool
path_stop c = (c == 32) || breaks_path c

-- The scanner's result: the index behind a token from `start` on, its start and its length.
pub data TokenDone (test : ℕ → Bool) (wanted : ℕ) (bytes : List ℕ) (len start : ℕ)
    : Option (ℕ × ℕ × ℕ) → Type 0 where
  token :
      {p : ℕ}
      → Scan test bytes len start (some p)
      → at bytes p ≡ wanted
      → TokenDone test wanted bytes len start (some (p, start, p - start))
  no_token : Hunt test wanted bytes len start none → TokenDone test wanted bytes len start none

pub Returns-token :
    {test : ℕ → Bool} {wanted : ℕ} (bytes : List ℕ) (len start : ℕ) {m : Run (Option ℕ)}
    → len < 2 ^ 16
    → Returns (Hunt test wanted bytes len start) m
    → Returns
        (TokenDone test wanted bytes len start)
        (do o ← m; elim o [ none ↦ ok none | some p ↦ ok (some (p, start, distance start p)) ])
Returns-token {test} {wanted} bytes len start small h = Returns-bind h (λ o d. result o d)
  where
    result :
        (o : Option ℕ)
        → Hunt test wanted bytes len start o
        → Returns
            (TokenDone test wanted bytes len start)
            (elim o [ none ↦ ok none | some p ↦ ok (some (p, start, distance start p)) ])
    result none d = returns (no_token d)
    result (some p) (found (stops l h c t) e) =
        let same : (p - start) % 2 ^ 16 ≡ p - start = omega arith in
        rw same (returns (token (stops l h c t) e))

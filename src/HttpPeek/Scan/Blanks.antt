-- ===== src/HttpPeek/Scan/Blanks.antt =====
-- The loops of common/http_peek.c that pass over spaces and tabs.
use armory.Common.{
  ℕ, zero, suc, ◌+◌, ◌-◌, ◌≤◌, ◌<◌, ◌≡◌, ◌≢◌, List, true, false, not, arith, Returns, returns,
  Returns-map, Returns-if, Returns-unless, length, at, ◌==◌, ==_iff,
}
use native.Mathlib.Decide.{ℕ_discrete}
use armory.ClassicSort.Memory.{load-ok}
use armory.HttpPeek.Chars.{blank}
use armory.HttpPeek.Scan.{skip_spaces, skip_blanks, trim_blanks}
use armory.HttpPeek.Scan.Search.{Scan, Scan-step, Scan-here, Scan-end}

module _ (bytes : List ℕ) (len : ℕ) (fits : len ≤ length bytes) where
  pub skip_spaces-Scan :
      (fuel start : ℕ)
      → len - start < fuel
      → start < len
      → Returns (Scan (λ c. not (c == 32)) bytes len (start + 1)) (skip_spaces fuel bytes len start)
  unfolding skip_spaces
  skip_spaces-Scan zero start f h = absurd (omega arith)
  skip_spaces-Scan (suc fuel) start f h =
      Returns-if (start + 1 == len)
        (λ last.
          let e = (==_iff _ _).0 last in
          returns (Scan-end bytes len (start + 1) (omega (arith, e))))
        (λ more.
          let n : start + 1 ≢ len = ground arith in
          rw (load-ok bytes (start + 1) (omega arith)) (
            Returns-if (at bytes (start + 1) == 32)
              (λ space.
                Returns-map (skip_spaces-Scan fuel (start + 1) (omega arith) (omega arith))
                  (λ o d. Scan-step bytes len (start + 1) (rw space) d))
              (λ other. returns (Scan-here bytes len (start + 1) (omega arith) (rw other)))))

  pub skip_blanks-Scan :
      (fuel start : ℕ)
      → len - start < fuel
      → start ≤ len
      → Returns (Scan (λ c. not (blank c)) bytes len start) (skip_blanks fuel bytes len start)
  unfolding skip_blanks
  skip_blanks-Scan zero start f h = absurd (omega arith)
  skip_blanks-Scan (suc fuel) start f h =
      Returns-if (start == len)
        (λ last.
          let e = (==_iff _ _).0 last in returns (Scan-end bytes len start (omega (arith, e))))
        (λ more.
          let n : start ≢ len = ground arith in
          rw (load-ok bytes start (omega arith)) (
            Returns-unless (blank (at bytes start))
              (λ holds.
                Returns-map (skip_blanks-Scan fuel (start + 1) (omega arith) (omega arith))
                  (λ o d. Scan-step bytes len start (rw holds) d))
              (λ other. returns (Scan-here bytes len start (omega arith) (rw other)))))

  -- What is left has no blank at its end, and what is cut off is blank.
  pub trim_blanks-Trimmed :
      (start n : ℕ)
      → start + n ≤ len
      → Returns
          (λ m.
            (m ≤ n)
            × ((k : ℕ) → k < m → k + 1 ≡ m → blank (at bytes (start + k)) ≡ false)
            × ((k : ℕ) → m ≤ k → k < n → blank (at bytes (start + k)) ≡ true))
          (trim_blanks bytes start n)
  unfolding trim_blanks
  trim_blanks-Trimmed start zero h =
      returns (omega arith, λ k l e. absurd (omega arith), λ k l g. absurd (omega arith))
  trim_blanks-Trimmed start (suc n) h = rw (load-ok bytes (start + n) (omega arith)) (
      Returns-unless (blank (at bytes (start + n)))
        (λ holds. Returns-map (trim_blanks-Trimmed start n (omega arith)) (λ m (le, last, cut). (
          omega (arith, le),
          last,
          λ k l g. elim (ℕ_discrete k n) [ yes e ↦ rw (e, holds) | no ne ↦ cut k l (omega arith) ],
        )))
        (λ other. returns (
          omega arith,
          λ k l e. let e' : k ≡ n = omega arith in rw (e', other),
          λ k l g. absurd (omega arith),
        )))

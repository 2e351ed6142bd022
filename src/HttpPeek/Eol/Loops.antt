-- ===== src/HttpPeek/Eol/Loops.antt =====
-- The loop over eight bytes and the loop over one find the same first control character.
use armory.Common.{
  ℕ, zero, suc, ◌+◌, ◌-◌, ◌≤◌, ◌<◌, ◌≡◌, ◌≢◌, List, Bool, true, false, not, ◌&&◌, arith, inl, inr,
  ok, Returns, returns, Returns-bind, Returns-map, Returns-if, Returns-unless, length, at, leb,
  leb→le, ◌==◌, ==_iff, Bool-cases, if◌then◌else◌, sub32,
}
use armory.ClassicSort.Memory.{load-ok}
use armory.HttpPeek.Chars.{printable, ends_line}
use armory.HttpPeek.Scan.Search.{
  Clear, Clear-step, Clear-join, Scan, Scan-step, Scan-here, Scan-end,
}
use armory.HttpPeek.Eol.{doit, eight_bytes, fast_loop, slow_loop}

printable-ends_line : (c : ℕ) → printable c ≡ true → ends_line c ≡ false
unfolding printable ends_line sub32
printable-ends_line c h = ground arith

unprintable : (c : ℕ) → (not (printable c) && ends_line c) ≡ ends_line c
unfolding printable ends_line sub32
unprintable c = ground arith

-- Where a loop stops: at a control character before `limit`, or between `low` and `limit` with
-- none found so far.
pub data Stop (bytes : List ℕ) (start low limit : ℕ) : Bool × ℕ → Type 0 where
  control :
      {p : ℕ}
      → start ≤ p
      → p < limit
      → Clear ends_line bytes start p
      → ends_line (at bytes p) ≡ true
      → Stop bytes start low limit (true, p)
  so_far :
      {p : ℕ}
      → low ≤ p
      → p ≤ limit
      → Clear ends_line bytes start p
      → Stop bytes start low limit (false, p)

module _ (bytes : List ℕ) (len : ℕ) (fits : len ≤ length bytes) where
  doit-Stop :
      (n start : ℕ)
      → start + n ≤ len
      → Returns
          (λ r.
            (start ≤ r.1)
            × Clear ends_line bytes start r.1
            × (r.0 ≡ true → r.1 ≡ start + n)
            × (r.0 ≡ false → r.1 < start + n))
          (doit n bytes start)
  unfolding doit
  doit-Stop zero start h =
      returns
        (omega arith, λ k l g. absurd (omega arith), λ e. omega arith, λ e. absurd (ground arith))
  doit-Stop (suc n) start h = rw (load-ok bytes start (omega arith)) (
      Returns-unless (printable (at bytes start))
        (λ fine. Returns-map (doit-Stop n (start + 1) (omega arith)) (λ r (l, c, t, f). (
          omega (arith, l),
          Clear-step ends_line bytes start r.1 (printable-ends_line _ fine) c,
          λ e. omega (arith, t e),
          λ e. omega (arith, f e),
        )))
        (λ odd. returns (
          omega arith,
          λ k l g. absurd (omega arith),
          λ e. absurd (ground arith),
          λ e. omega arith,
        )))

  eight_bytes-Stop :
      (start : ℕ)
      → start + 8 ≤ len
      → Returns (Stop bytes start (start + 1) (start + 8)) (eight_bytes bytes start)
  unfolding eight_bytes
  eight_bytes-Stop start h = Returns-bind (doit-Stop 8 start h) λ (all, p) (l, c, t, f).
      Returns-if all (λ yes'. returns (so_far (omega (arith, t yes')) (omega (arith, t yes')) c))
        (λ no'.
          rw (load-ok bytes p (omega (arith, f no'))) (elim (Bool-cases (ends_line (at bytes p))) [
            | inl end ↦ rw end (returns (control l (f no') c end))
            | inr more ↦ rw more (
                returns (
                  so_far (omega (arith, l)) (omega (arith, f no')) (
                    Clear-join ends_line bytes start p (p + 1) c
                      (Clear-step ends_line bytes p (p + 1) more (λ k x y. absurd (omega arith))))))
          ]))

  pub fast_loop-Stop :
      (fuel start : ℕ)
      → len - start < fuel
      → start ≤ len
      → Returns (Stop bytes start start len) (fast_loop fuel bytes len start)
  unfolding fast_loop
  fast_loop-Stop zero start f h = absurd (omega arith)
  fast_loop-Stop (suc fuel) start f h =
      Returns-if (leb (start + 8) len)
        (λ eight.
          let room = leb→le _ _ eight in
          Returns-bind (eight_bytes-Stop start room)
            (next (λ p l h. fast_loop-Stop fuel p (omega arith) h) room))
        (λ few. returns (so_far (omega arith) h (λ k l g. absurd (omega arith))))
    where
      later :
          (p : ℕ)
          → start ≤ p
          → Clear ends_line bytes start p
          → (r : Bool × ℕ) → Stop bytes p p len r
          → Stop bytes start start len r
      later p l c (true, q) (control l' h' c' e) =
          control (omega arith) h' (Clear-join ends_line bytes start p q c c') e
      later p l c (false, q) (so_far l' h' c') =
          so_far (omega arith) h' (Clear-join ends_line bytes start p q c c')

      next :
          ((p : ℕ)
            → start < p
            → p ≤ len
            → Returns (Stop bytes p p len) (fast_loop fuel bytes len p))
          → start + 8 ≤ len
          → (r : Bool × ℕ) → Stop bytes start (start + 1) (start + 8) r
          → Returns
              (Stop bytes start start len)
              (let (found, p) = r in if found then ok (true, p) else fast_loop fuel bytes len p)
      next again room (true, p) (control l h' c e) = returns (control l (omega arith) c e)
      next again room (false, p) (so_far l h' c) =
          Returns-map (again p (omega arith) (omega arith)) (later p (omega arith) c)

  pub slow_loop-Scan :
      (fuel start : ℕ)
      → len - start < fuel
      → start ≤ len
      → Returns (Scan ends_line bytes len start) (slow_loop fuel bytes len start)
  unfolding slow_loop
  slow_loop-Scan zero start f h = absurd (omega arith)
  slow_loop-Scan (suc fuel) start f h =
      Returns-if (start == len)
        (λ last.
          let e = (==_iff _ _).0 last in returns (Scan-end bytes len start (omega (arith, e))))
        (λ more.
          let n : start ≢ len = ground arith in
          rw (load-ok bytes start (omega arith), unprintable (at bytes start))
            (Returns-if (ends_line (at bytes start))
              (λ end. returns (Scan-here bytes len start (omega arith) end))
              (λ other.
                Returns-map (slow_loop-Scan fuel (start + 1) (omega arith) (omega arith))
                  (λ o d. Scan-step bytes len start other d))))

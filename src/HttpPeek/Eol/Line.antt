-- ===== src/HttpPeek/Eol/Line.antt =====
-- `get_token_to_eol` finds the rest of a line.
use armory.Common.{
  ℕ, ◌+◌, ◌-◌, ◌%◌, ◌^◌, ◌≤◌, ◌<◌, ◌≡◌, ◌≢◌, ◌⊎◌, refl, List, Option, none, some, Bool, true, false,
  arith, inl, inr, ok, Returns, returns, Returns-bind, Returns-map, Returns-if, length, at, ◌==◌,
  ==_iff, Bool-cases, if◌then◌else◌,
}
use armory.ClassicSort.Memory.{load-ok}
use armory.HttpPeek.Chars.{ends_line}
use armory.HttpPeek.Scan.{expect_char}
use armory.HttpPeek.Scan.Search.{Clear-join, Scan, stops, ends}
use armory.HttpPeek.Eol.{slow_loop, found_ctl, get_token_to_eol}
use armory.HttpPeek.Eol.Loops.{Stop, control, so_far, fast_loop-Stop, slow_loop-Scan}

-- A line from `start` on: its token is followed by CR LF or by LF, and has no control character
-- but tabs. There is none without such an end.
pub data LineDone (bytes : List ℕ) (len start : ℕ) : Option (ℕ × ℕ × ℕ) → Type 0 where
  crlf :
      {p : ℕ}
      → Scan ends_line bytes len start (some p)
      → at bytes p ≡ 13
      → p + 1 < len
      → at bytes (p + 1) ≡ 10
      → LineDone bytes len start (some (p + 2, start, p - start))
  lf :
      {p : ℕ}
      → Scan ends_line bytes len start (some p)
      → at bytes p ≡ 10
      → LineDone bytes len start (some (p + 1, start, p - start))
  broken :
      {p : ℕ}
      → Scan ends_line bytes len start (some p)
      → at bytes p ≢ 10
      → (at bytes p ≡ 13 → p + 1 < len → at bytes (p + 1) ≢ 10)
      → LineDone bytes len start none
  unended : Scan ends_line bytes len start none → LineDone bytes len start none

module _ (bytes : List ℕ) (len : ℕ) (fits : len ≤ length bytes) where
  -- Behind a carriage return there is a line feed.
  pub expect_char-found :
      (p : ℕ)
      → p < len + 1
      → Returns
          (λ o.
            ((p < len) × (at bytes p ≡ 10) × (o ≡ some (p + 1)))
            ⊎ ((p < len → at bytes p ≢ 10) × (o ≡ none)))
          (expect_char bytes len p 10)
  unfolding expect_char
  expect_char-found p h =
      Returns-if (p == len)
        (λ last.
          let e = (==_iff _ _).0 last in returns (inr ((λ l. absurd (omega (arith, e))), refl)))
        (λ more.
          let n : p ≢ len = ground arith in
          rw (load-ok bytes p (omega arith)) (elim (Bool-cases (at bytes p == 10)) [
            | inl same ↦ rw same (returns (inl (omega arith, (==_iff _ _).0 same, refl)))
            | inr other ↦
                let ne : at bytes p ≢ 10 = ground arith in
                rw other (returns (inr ((λ l. ne), refl)))
          ]))

  found_ctl-LineDone :
      (start p : ℕ)
      → len < 2 ^ 16
      → Scan ends_line bytes len start (some p)
      → Returns (LineDone bytes len start) (found_ctl bytes len start p)
  unfolding found_ctl
  found_ctl-LineDone start p small (stops l h c t) =
      let scan : Scan ends_line bytes len start (some p) = stops l h c t in
      let same : (p - start) % 2 ^ 16 ≡ p - start = omega arith in
      let same' : (p + 2 - 2 - start) % 2 ^ 16 ≡ p - start = omega arith in
      let two : p + 1 + 1 ≡ p + 2 = omega arith in
      rw (load-ok bytes p (omega arith)) (
        Returns-if (at bytes p == 13)
          (λ cr.
            let e = (==_iff _ _).0 cr in
            Returns-bind (expect_char-found (p + 1) (omega arith)) λ o d. elim d [
              | inl (l', e', eo) ↦ rw (eo, two, same') (returns (crlf scan e l' e'))
              | inr (n, eo) ↦ rw eo (returns (broken scan (ground (arith, e)) (λ _ l'. n l')))
            ])
          (λ no_cr.
            let ne : at bytes p ≢ 13 = ground arith in
            Returns-if (at bytes p == 10)
              (λ is_lf. rw same (returns (lf scan ((==_iff _ _).0 is_lf))))
              (λ no_lf.
                let ne' : at bytes p ≢ 10 = ground arith in
                returns (broken scan ne' (λ e. absurd (ne e))))))

  -- From any index of the buffer `get_token_to_eol` returns, reads nothing behind the buffer, and
  -- finds the token of the line exactly if the first control character other than a tab is the
  -- start of CR LF or a LF, as a search byte by byte would.
  pub get_token_to_eol-LineDone :
      (start : ℕ)
      → len < 2 ^ 16
      → start ≤ len
      → Returns (LineDone bytes len start) (get_token_to_eol bytes len start)
  unfolding get_token_to_eol
  get_token_to_eol-LineDone start small h =
      Returns-bind (fast_loop-Stop bytes len fits (len + 1) start (omega arith) h)
        λ (found, p) s. Returns-bind (both found p s) λ o scan. rest o scan
    where
      both :
          (found : Bool) (p : ℕ)
          → Stop bytes start start len (found, p)
          → Returns
              (Scan ends_line bytes len start)
              (if found then ok (some p) else slow_loop (len + 1) bytes len p)
      both true p (control l h' c t) = returns (stops l h' c t)
      both false p (so_far l h' c) =
          Returns-map (slow_loop-Scan bytes len fits (len + 1) p (omega arith) h')
            (λ o d. Scan-later o d)
        where
          Scan-later :
              (o : Option ℕ) → Scan ends_line bytes len p o → Scan ends_line bytes len start o
          Scan-later (some q) (stops l' g c' t) =
              stops (omega arith) g (Clear-join ends_line bytes start p q c c') t
          Scan-later none (ends c') = ends (Clear-join ends_line bytes start p len c c')

      rest :
          (o : Option ℕ)
          → Scan ends_line bytes len start o
          → Returns
              (LineDone bytes len start)
              (elim o [ none ↦ ok none | some q ↦ found_ctl bytes len start q ])
      rest none d = returns (unended d)
      rest (some q) d = found_ctl-LineDone start q small d

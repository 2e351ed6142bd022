-- ===== src/HttpPeek/Parse/Request.antt =====
-- `peek_http_request`: when its result can be trusted, and the two messages that make it read
-- behind the buffer.
use armory.Common.{
  ℕ, ◌^◌, ◌<◌, ◌≡◌, ◌≢◌, ◌⊎◌, ◌↔◌, refl, ap, ◌∙◌, List, [], ◌∷◌, Option, none, some, false, arith,
  inl, inr, Run, ok, fault, Returns, returns, Returns-bind, Returns-map, Returns-if, Returns-inv,
  length, at, ◌==◌, ==_iff,
}
use native.Mathlib.Decide.{ℕ_discrete}
use native.Mathlib.Nat.{le_refl}
use armory.ClassicSort.Memory.{load, load-ok}
use armory.HttpPeek.Scan.{expect_char, parse_token, token_loop}
use armory.HttpPeek.Eol.Line.{expect_char-found}
use armory.HttpPeek.Parse.{Header, skip_line, request_method, peek_http_request}
use armory.HttpPeek.Parse.HeaderLine.{no_result}
use armory.HttpPeek.Parse.RequestLine.{RequestDone, request_method-RequestDone}

-- The message is the end of an empty line, and nothing else.
abbrev pub JustLineEnd : List ℕ → Type 0
JustLineEnd bytes = (bytes ≡ 10 ∷ []) ⊎ (bytes ≡ 13 ∷ 10 ∷ [])

one_byte : (bytes : List ℕ) → length bytes ≡ 1 → at bytes 0 ≡ 10 → bytes ≡ 10 ∷ []
unfolding at
one_byte [] h e = absurd (omega arith)
one_byte (x ∷ []) h e = rw e
one_byte (x ∷ y ∷ rest) h e = absurd (omega arith)

two_bytes :
    (bytes : List ℕ) → length bytes ≡ 2 → at bytes 0 ≡ 13 → at bytes 1 ≡ 10 → bytes ≡ 13 ∷ 10 ∷ []
unfolding at
two_bytes [] h e f = absurd (omega arith)
two_bytes (x ∷ []) h e f = absurd (omega arith)
two_bytes (x ∷ y ∷ []) h e f = rw (e, f)
two_bytes (x ∷ y ∷ z ∷ rest) h e f = absurd (omega arith)

-- The index is inside the buffer.
abbrev Inside : List ℕ → Option ℕ → Type 0
Inside bytes o = (q : ℕ) → o ≡ some q → q < length bytes

some-Inside : (bytes : List ℕ) (p : ℕ) → p < length bytes → Inside bytes (some p)
some-Inside bytes p h q e = ground (arith, e)

skip_line-Inside :
    (bytes : List ℕ) → ¬ JustLineEnd bytes → Returns (Inside bytes) (skip_line bytes (length bytes))
unfolding skip_line
skip_line-Inside bytes more =
    Returns-if (0 == length bytes) (λ empty. returns (λ q e. absurd (ground arith)))
      (λ full.
        let n : 0 ≢ length bytes = ground arith in
        rw (load-ok bytes 0 (omega arith)) (
          Returns-if (at bytes 0 == 13)
            (λ cr.
              let e = (==_iff _ _).0 cr in
              Returns-map (expect_char-found bytes (length bytes) (le_refl _) 1 (omega arith))
                λ o d. elim d [
                  | inl (l, e', eo) ↦ rw eo (
                      some-Inside bytes 2 (elim (ℕ_discrete (length bytes) 2) [
                        | yes two ↦ absurd (more (inr (two_bytes bytes two e e')))
                        | no longer ↦ omega arith
                      ]))
                  | inr (l, eo) ↦ rw eo (λ q e. absurd (ground arith))
                ])
            (λ no_cr.
              Returns-if (at bytes 0 == 10)
                (λ lf. returns (
                  some-Inside bytes 1 (elim (ℕ_discrete (length bytes) 1) [
                    | yes one ↦ absurd (more (inl (one_byte bytes one ((==_iff _ _).0 lf))))
                    | no longer ↦ omega arith
                  ])))
                (λ no_lf. returns (some-Inside bytes 0 (omega arith))))))

-- On every message of a length that fits `uint16_t`, except the end of an empty line alone,
-- `peek_http_request` returns and reads nothing behind the message. If its result is true, the
-- method, the path, the name and the value it reports are pieces of the message: the method and
-- the name are tokens that are not empty, or the name is NULL for a line that starts with a blank,
-- the path has no space and no control character, the value has no control character but tabs and
-- no blank at its end. The version is a digit, and the fields of a response are as before.
pub peek_http_request-RequestDone :
    (bytes : List ℕ) (head : Header)
    → length bytes < 2 ^ 16
    → ¬ JustLineEnd bytes
    → Returns (RequestDone bytes (length bytes) head) (peek_http_request bytes (length bytes) head)
unfolding peek_http_request
peek_http_request-RequestDone bytes head small more =
    Returns-bind (skip_line-Inside bytes more) λ o d. after o d
  where
    after :
        (o : Option ℕ)
        → Inside bytes o
        → Returns (RequestDone bytes (length bytes) head) (elim o [
          | none ↦ ok (false, head)
          | some buf ↦ request_method bytes (length bytes) buf head
        ])
    after none d = returns no_result
    after (some q) d =
        request_method-RequestDone bytes (length bytes) (le_refl _) small q head (d q refl)

lf_alone : (head : Header) → peek_http_request (10 ∷ []) 1 head ≡ fault
unfolding peek_http_request skip_line request_method parse_token token_loop expect_char load at
lf_alone head = refl

crlf_alone : (head : Header) → peek_http_request (13 ∷ 10 ∷ []) 2 head ≡ fault
unfolding peek_http_request skip_line request_method parse_token token_loop expect_char load at
crlf_alone head = refl

line_end-fault :
    (bytes : List ℕ) (head : Header)
    → JustLineEnd bytes
    → peek_http_request bytes (length bytes) head ≡ fault
line_end-fault bytes head (inl e) = ap (λ b. peek_http_request b (length b) head) e ∙ lf_alone head
line_end-fault bytes head (inr e) =
    ap (λ b. peek_http_request b (length b) head) e ∙ crlf_alone head

JustLineEnd-cases : (bytes : List ℕ) → JustLineEnd bytes ⊎ (¬ JustLineEnd bytes)
unfolding at
JustLineEnd-cases bytes = elim (ℕ_discrete (length bytes) 1) [
  | yes one ↦ elim (ℕ_discrete (at bytes 0) 10) [
    | yes lf ↦ inl (inl (one_byte bytes one lf))
    | no other ↦ inr λ d. elim d [
      | inl e ↦ other (ap (λ b. at b 0) e)
      | inr e ↦ absurd (omega (arith, one, ap length e))
    ]
  ]
  | no not_one ↦ elim (ℕ_discrete (length bytes) 2) [
    | yes two ↦ elim (ℕ_discrete (at bytes 0) 13) [
      | yes cr ↦ elim (ℕ_discrete (at bytes 1) 10) [
        | yes lf ↦ inl (inr (two_bytes bytes two cr lf))
        | no other ↦
            inr λ d. elim d [ inl e ↦ not_one (ap length e) | inr e ↦ other (ap (λ b. at b 1) e) ]
      ]
      | no other ↦
          inr λ d. elim d [ inl e ↦ not_one (ap length e) | inr e ↦ other (ap (λ b. at b 0) e) ]
    ]
    | no not_two ↦ inr λ d. elim d [ inl e ↦ not_one (ap length e) | inr e ↦ not_two (ap length e) ]
  ]
]

ok-fault : {A : Type 0} {m : Run A} {x : A} → m ≡ ok x → m ≢ fault
ok-fault e f = cc

-- Among the messages whose length fits `uint16_t`, those that make `peek_http_request` read
-- behind the message are exactly a line feed alone and CR LF alone.
pub peek_http_request-fault_iff :
    (bytes : List ℕ) (head : Header)
    → length bytes < 2 ^ 16
    → (peek_http_request bytes (length bytes) head ≡ fault) ↔ JustLineEnd bytes
peek_http_request-fault_iff bytes head small = (only, line_end-fault bytes head)
  where
    only : peek_http_request bytes (length bytes) head ≡ fault → JustLineEnd bytes
    only bad = elim (JustLineEnd-cases bytes) [
      | inl just ↦ just
      | inr more ↦
          let (r, e, done) = Returns-inv (peek_http_request-RequestDone bytes head small more) in
          absurd (ok-fault e bad)
    ]

-- ===== src/Common/Decimal.antt =====
-- Numbers as text: `%d` and `%ld` of what is not negative, and `atol`, on lists of bytes.
use Prim.Native.Nat.{ℕ, zero, suc, ◌+◌, ◌-◌, ◌*◌, ◌/◌, ◌%◌, ◌^◌, ◌≤◌, ◌<◌}
use mathlib.Core.Path.{◌≡◌, refl, ap, ◌∙◌}
use mathlib.Core.Logic.{inl, inr}
use mathlib.Core.Bool.{Bool, true, false, ◌&&◌, ◌||◌}
use mathlib.Core.List.{List, [], ◌∷◌, ◌++◌}
use native.Mathlib.Omega.{arith}
use native.Mathlib.Nat.{mod-lt, div-add-mod}
use armory.Common.Tests.{ltb, leb, ◌==◌, lt→ltb, Bool-cases, if◌then◌else◌}
use armory.Common.Lists.{length}
use armory.Common.Int.{ℤ, pos, negsuc}
use armory.Common.Outcome.{Run, ok, fault, ◌>>=◌}

-- The digits of a number of at most `fuel` digits, in front of `rest`.
decimal : ℕ → ℕ → List ℕ → List ℕ
decimal zero n rest = rest
decimal (suc fuel) n rest =
    let here = (48 + n % 10) ∷ rest in
    let more = decimal fuel (n / 10) here in if ltb n 10 then here else more

-- An `int` or a process id that is not negative has at most ten digits.
unfoldable pub print_int : ℕ → List ℕ
unfolding decimal
print_int n = decimal 10 n []

is_digit : ℕ → Bool
is_digit c = leb 48 c && leb c 57

-- The number of the digits at the start; the end of the list is the end of the memory.
digits : ℕ → List ℕ → Run ℕ
unfolding is_digit
digits acc [] = fault
digits acc (c ∷ cs) =
    let rest = digits (acc * 10 + (c - 48)) cs in if is_digit c then rest else ok acc

minus : ℕ → ℤ
minus zero = pos 0
minus (suc n) = negsuc n

-- A number that does not fit `long` is undefined behaviour.
fit_long : Bool → ℕ → Run ℤ
unfolding minus
fit_long negative n =
    if negative
    then if leb n (2 ^ 63) then ok (minus n) else fault
    else if ltb n (2 ^ 63)
    then ok (pos n)
    else fault

unfoldable pub atol : List ℕ → Run ℤ
unfolding digits fit_long
atol [] = fault
atol (c ∷ cs) =
    let later = atol cs in
    let signed = digits 0 cs >>= λ n. fit_long (c == 45) n in
    let unsigned = digits 0 (c ∷ cs) >>= λ n. fit_long false n in
    if (c == 32) || (leb 9 c && leb c 13)
    then later
    else if (c == 45) || (c == 43)
    then signed
    else unsigned

digits-next :
    (acc n : ℕ) (rest : List ℕ)
    → digits acc ((48 + n % 10) ∷ rest) ≡ digits (acc * 10 + n % 10) rest
unfolding digits is_digit
digits-next acc n rest =
    let small : n % 10 < 10 = mod-lt n (omega arith) in
    let low : leb 48 (48 + n % 10) ≡ true = ground arith in
    let high : leb (48 + n % 10) 57 ≡ true = ground (arith, small) in
    rw (low, high) (ap (λ k. digits (acc * 10 + k) rest) (omega arith))

digits-decimal :
    (fuel n : ℕ) (rest : List ℕ)
    → n < 10 ^ suc fuel
    → digits 0 (decimal (suc fuel) n rest) ≡ digits n rest
unfolding decimal
digits-decimal zero n rest h =
    let small : ltb n 10 ≡ true = lt→ltb n 10 (omega (arith, h)) in
    let same : 0 * 10 + n % 10 ≡ n = omega (arith, h) in
    rw small (digits-next 0 n rest ∙ ap (λ k. digits k rest) same)
digits-decimal (suc fuel) n rest h = elim (Bool-cases (ltb n 10)) [
  | inl small ↦
      let same : 0 * 10 + n % 10 ≡ n = ground arith in
      rw small (digits-next 0 n rest ∙ ap (λ k. digits k rest) same)
  | inr large ↦
      let whole : n / 10 * 10 + n % 10 ≡ n = omega (arith, div-add-mod n 10) in
      rw large (
        digits-decimal fuel (n / 10) ((48 + n % 10) ∷ rest) (omega (arith, h))
        ∙ digits-next (n / 10) n rest
        ∙ ap (λ k. digits k rest) whole)
]

-- A list of bytes that starts with a digit.
Digital : List ℕ → Type 0
unfolding is_digit
Digital [] = ⊥
Digital (c ∷ cs) = is_digit c ≡ true

Digital-if : (b : Bool) (x y : List ℕ) → Digital x → Digital y → Digital (if b then x else y)
Digital-if true x y d e = d
Digital-if false x y d e = e

digit-Digital : (n : ℕ) (rest : List ℕ) → Digital ((48 + n % 10) ∷ rest)
unfolding Digital is_digit
digit-Digital n rest = let small : n % 10 < 10 = mod-lt n (omega arith) in ground (arith, small)

decimal-Digital : (fuel n : ℕ) (rest : List ℕ) → Digital (decimal (suc fuel) n rest)
unfolding decimal
decimal-Digital zero n rest =
    Digital-if (ltb n 10) _ _ (digit-Digital n rest) (digit-Digital n rest)
decimal-Digital (suc fuel) n rest =
    Digital-if (ltb n 10) _ _ (digit-Digital n rest)
      (decimal-Digital fuel (n / 10) ((48 + n % 10) ∷ rest))

-- Text that starts with a digit is read without a sign.
atol-Digital :
    (bytes : List ℕ) → Digital bytes → atol bytes ≡ digits 0 bytes >>= λ n. fit_long false n
unfolding atol Digital is_digit
atol-Digital [] d = absurd d
atol-Digital (c ∷ cs) d =
    let space : ((c == 32) || (leb 9 c && leb c 13)) ≡ false = ground arith in
    let sign : ((c == 45) || (c == 43)) ≡ false = ground arith in rw (space, sign) refl

decimal-append : (fuel n : ℕ) (xs ys : List ℕ) → decimal fuel n xs ++ ys ≡ decimal fuel n (xs ++ ys)
unfolding decimal
decimal-append zero n xs ys = refl
decimal-append (suc fuel) n xs ys = elim (Bool-cases (ltb n 10)) [
  | inl small ↦ rw small refl
  | inr large ↦ rw large (decimal-append fuel (n / 10) ((48 + n % 10) ∷ xs) ys)
]

length-decimal : (fuel n : ℕ) (rest : List ℕ) → length (decimal fuel n rest) ≤ fuel + length rest
unfolding decimal
length-decimal zero n rest = omega arith
length-decimal (suc fuel) n rest =
    let later = length-decimal fuel (n / 10) ((48 + n % 10) ∷ rest) in
    elim (Bool-cases (ltb n 10)) [
      | inl small ↦ rw small (omega arith)
      | inr large ↦ rw large (omega (arith, later))
    ]

end-fits :
    (n : ℕ) (rest : List ℕ)
    → n < 10 ^ 10
    → (digits n (0 ∷ rest) >>= λ k. fit_long false k) ≡ ok (pos n)
unfolding digits is_digit fit_long
end-fits n rest h =
    let fits : ltb n (2 ^ 63) ≡ true = lt→ltb n (2 ^ 63) (omega (arith, h)) in rw fits refl

pub length-print_int : (n : ℕ) → length (print_int n) ≤ 10
unfolding print_int
length-print_int n = length-decimal 10 n []

-- A number of at most ten digits is read as it was printed, whatever stands behind its end.
pub atol-print_int :
    (n : ℕ) (rest : List ℕ) → n < 10 ^ 10 → atol (print_int n ++ 0 ∷ rest) ≡ ok (pos n)
unfolding print_int
atol-print_int n rest h =
    ap atol (decimal-append 10 n [] (0 ∷ rest))
    ∙ atol-Digital (decimal 10 n (0 ∷ rest)) (decimal-Digital 9 n (0 ∷ rest))
    ∙ ap (λ m. m >>= λ k. fit_long false k) (digits-decimal 9 n (0 ∷ rest) h)
    ∙ end-fits n rest h

some-Digital : (text : List ℕ) → Digital text → (length text == 0) ≡ false
unfolding Digital
some-Digital [] d = absurd d
some-Digital (c ∷ text) d = ground arith

pub print_int-some : (n : ℕ) → (length (print_int n) == 0) ≡ false
unfolding print_int
print_int-some n = some-Digital (decimal 10 n []) (decimal-Digital 9 n [])

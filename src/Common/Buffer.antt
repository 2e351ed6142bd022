-- ===== src/Common/Buffer.antt =====
-- Texts in buffers of a fixed size, as lists of bytes.
use Prim.Native.Nat.{ℕ, zero, suc, ◌-◌, ◌≤◌, ◌<◌}
use mathlib.Core.Path.{◌≡◌, refl, ap, ◌∙◌}
use mathlib.Core.List.{List, [], ◌∷◌, ◌++◌}
use native.Mathlib.Omega.{arith}
use armory.Common.Lists.{length}
use armory.Common.Outcome.{Run, ok, fault, ◌>>=◌}

-- The first `n` bytes.
unfoldable pub take : ℕ → List ℕ → List ℕ
take zero xs = []
take (suc n) [] = []
take (suc n) (x ∷ xs) = x ∷ take n xs

-- A buffer of `n` bytes that holds a text from its start, with zeros behind it.
unfoldable pub filled : ℕ → List ℕ → List ℕ
filled zero text = []
filled (suc n) [] = 0 ∷ filled n []
filled (suc n) (c ∷ text) = c ∷ filled n text

-- The first `n` bytes of a buffer, which must be there.
unfoldable pub read_bytes : ℕ → List ℕ → Run (List ℕ)
read_bytes zero buf = ok []
read_bytes (suc n) [] = fault
read_bytes (suc n) (c ∷ buf) = do rest ← read_bytes n buf; ok (c ∷ rest)

pub take-all : (n : ℕ) (xs : List ℕ) → length xs ≤ n → take n xs ≡ xs
unfolding take
take-all zero [] h = refl
take-all zero (x ∷ xs) h = absurd (omega (arith, h))
take-all (suc n) [] h = refl
take-all (suc n) (x ∷ xs) h = ap (λ ys. x ∷ ys) (take-all n xs (omega (arith, h)))

-- A text that leaves room in the buffer ends in a byte 0.
pub filled-end :
    (n : ℕ) (text : List ℕ)
    → length text < n
    → filled n text ≡ text ++ 0 ∷ filled (n - 1 - length text) []
unfolding filled
filled-end zero text h = absurd (omega (arith, h))
filled-end (suc n) [] h = ap (λ k. 0 ∷ filled k []) (omega arith)
filled-end (suc n) (c ∷ text) h =
    ap (λ bytes. c ∷ bytes)
      (filled-end n text (omega (arith, h)) ∙ ap (λ k. text ++ 0 ∷ filled k []) (omega arith))

pub length-filled : (n : ℕ) (text : List ℕ) → length (filled n text) ≡ n
unfolding filled
length-filled zero text = refl
length-filled (suc n) [] = ap suc (length-filled n [])
length-filled (suc n) (c ∷ text) = ap suc (length-filled n text)

pub read_bytes-append : (xs ys : List ℕ) → read_bytes (length xs) (xs ++ ys) ≡ ok xs
unfolding read_bytes
read_bytes-append [] ys = refl
read_bytes-append (x ∷ xs) ys = rw (read_bytes-append xs ys) refl

pub read_bytes-inside :
    (n : ℕ) (buf : List ℕ) → n ≤ length buf → (bytes : List ℕ) × (read_bytes n buf ≡ ok bytes)
unfolding read_bytes
read_bytes-inside zero buf h = ([], refl)
read_bytes-inside (suc n) [] h = absurd (omega (arith, h))
read_bytes-inside (suc n) (c ∷ buf) h =
    let (bytes, e) = read_bytes-inside n buf (omega (arith, h)) in (c ∷ bytes, rw e refl)

pub read_bytes-outside : (n : ℕ) (buf : List ℕ) → length buf < n → read_bytes n buf ≡ fault
unfolding read_bytes
read_bytes-outside zero buf h = absurd (omega (arith, h))
read_bytes-outside (suc n) [] h = refl
read_bytes-outside (suc n) (c ∷ buf) h = rw (read_bytes-outside n buf (omega (arith, h))) refl

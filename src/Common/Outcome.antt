-- ===== src/Common/Outcome.antt =====
-- The outcomes of the modelled functions, and what it means that a function returns.
use mathlib.Core.Logic.{◌≢◌}
use mathlib.Core.Path.{◌≡◌, refl, ap, ◌∙◌}
use mathlib.Core.Bool.{Bool, true, false, not}
use armory.Common.Tests.{if◌then◌else◌}

-- The result of a C function. A `fault` is undefined behaviour, such as an access outside an
-- array; `out_of_fuel` is the model's own, and says nothing about the C code.
pub data Run {ℓ} (A : Type ℓ) : Type ℓ where
  fault : Run A
  out_of_fuel : Run A
  ok : A → Run A

-- One step of a sequence: what is not `ok` ends it.
infixl 5 ◌>>=◌
abbrev pub ◌>>=◌ {ℓ ℓ'} : {A : Type ℓ} {B : Type ℓ'} → Run A → (A → Run B) → Run B
fault >>= next = fault
out_of_fuel >>= next = out_of_fuel
ok x >>= next = next x

pub not_fault {ℓ} : {A : Type ℓ} {x : A} → ok x ≢ fault
not_fault e = cc

-- The function returns some value, for which `P` holds.
pub record Returns {ℓ ℓ'} {A : Type ℓ} (P : A → Type ℓ') (m : Run A) : Type (ℓ ⊔ ℓ') where
  pub value : A
  pub ends : m ≡ ok value
  pub holds : P value

pub returns {ℓ ℓ'} : {A : Type ℓ} {P : A → Type ℓ'} {x : A} → P x → Returns P (ok x)
returns h = record { value = _; ends = refl; holds = h }

pub Returns-inv {ℓ ℓ'} :
    {A : Type ℓ} {P : A → Type ℓ'} {m : Run A} → Returns P m → (x : A) × (m ≡ ok x) × P x
Returns-inv d = (d.value, d.ends, d.holds)

pub Returns-map {ℓ ℓ' ℓ''} :
    {A : Type ℓ} {P : A → Type ℓ'} {P' : A → Type ℓ''} {m : Run A}
    → Returns P m
    → ((x : A) → P x → P' x)
    → Returns P' m
Returns-map d weaken = record { value = _; ends = d.ends; holds = weaken _ d.holds }

-- A sequence returns if its second part does after every result of the first.
pub Returns-bind {ℓ ℓ' κ κ'} :
    {A : Type ℓ} {B : Type κ} {P : A → Type ℓ'} {Q : B → Type κ'} {m : Run A} {next : A → Run B}
    → Returns P m
    → ((x : A) → P x → Returns Q (next x))
    → Returns Q (m >>= next)
Returns-bind {next} d after =
    let last = after d.value d.holds in
    record { value = _; ends = ap (λ s. s >>= next) d.ends ∙ last.ends; holds = last.holds }

-- A test returns if each branch does where the test has the branch's answer.
pub Returns-if {ℓ ℓ'} :
    {A : Type ℓ} {P : A → Type ℓ'} {yes no : Run A} (test : Bool)
    → (test ≡ true → Returns P yes)
    → (test ≡ false → Returns P no)
    → Returns P (if test then yes else no)
Returns-if false on off = off refl
Returns-if true on off = on refl

-- The same for a test that is negated.
pub Returns-unless {ℓ ℓ'} :
    {A : Type ℓ} {P : A → Type ℓ'} {yes no : Run A} (test : Bool)
    → (test ≡ true → Returns P no)
    → (test ≡ false → Returns P yes)
    → Returns P (if not test then yes else no)
Returns-unless false on off = off refl
Returns-unless true on off = on refl

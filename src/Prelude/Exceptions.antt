-- ===== src/Prelude/Exceptions.antt =====
-- Python's exceptions as values. A message is dropped; the class of the exception is kept.
use mathlib.Core.Path.{◌≡◌, refl}
use mathlib.Core.Logic.{◌⊎◌, inl, inr}
use mathlib.Core.Bool.{Bool, true, false}

-- `api_error` is `anthropic.APIError` or `openai.APIError`; `other` is any further exception.
pub data Exn : Type 0 where
  value_error type_error lookup_error conflict_error api_error redis_error other : Exn

-- what a call gives back or raises
pub data Result {ℓ} (Value : Type ℓ) : Type ℓ where
  err : Exn → Result Value
  ok : Value → Result Value

-- `if not test: raise raised`
abbrev pub require : Bool → Exn → Result (Unit {0})
require false raised = err raised
require true raised = ok tt

-- a statement after a statement that may raise
infixl 5 ◌>>=◌
abbrev pub ◌>>=◌ {ℓ κ} : {X : Type ℓ} {Y : Type κ} → Result X → (X → Result Y) → Result Y
err raised >>= next = err raised
ok x >>= next = next x

infixl 5 ◌>>◌
abbrev pub ◌>>◌ {κ} : {Y : Type κ} → Result (Unit {0}) → Result Y → Result Y
err raised >> next = err raised
ok _ >> next = next

-- a sequence that gives a value: its first call gave one
pub >>=-eq-ok {ℓ κ} :
    {X : Type ℓ} {Y : Type κ} (first : Result X) (next : X → Result Y) {y : Y}
    → first >>= next ≡ ok y
    → (x : X) × (first ≡ ok x) × (next x ≡ ok y)
>>=-eq-ok (err raised) next given = cc
>>=-eq-ok (ok x) next given = (x, refl, given)

pub Result-cases {ℓ} :
    {A : Type ℓ} (m : Result A) → ((a : A) × (m ≡ ok a)) ⊎ ((e : Exn) × (m ≡ err e))
Result-cases (ok a) = inl (a, refl)
Result-cases (err e) = inr (e, refl)

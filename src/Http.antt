-- ===== src/Http.antt =====
-- The exceptions of @nestjs/common that the services throw, and results that may be one.

use balanz.Prelude.{String, ◌≡◌, refl, ◌⊎◌, inl, inr, Bool, true, false, Option, none, some}

-- The exception classes, each with its message or code.
pub data Failure : Type 0 where
  bad_request unauthorized forbidden not_found conflict unprocessable : String → Failure
  -- `throw new Error(message)`
  plain_error : String → Failure

-- What a service returns, or the exception that it throws instead.
pub data Result {ℓ} (T : Type ℓ) : Type ℓ where
  err : Failure → Result T
  ok : T → Result T

-- `await`: an exception skips the rest.
abbrev pub ◌>>=◌ {κ ℓ} : {T : Type κ} {U : Type ℓ} → Result T → (T → Result U) → Result U
err failure >>= rest = err failure
ok value >>= rest = rest value

infixl 5 ◌>>=◌
abbrev pub ◌>>◌ {ℓ} : {U : Type ℓ} → Result (Unit {0}) → Result U → Result U
err failure >> rest = err failure
ok value >> rest = rest

infixl 5 ◌>>◌
-- `if (b) throw e`
abbrev pub throw_if : Bool → Failure → Result (Unit {0})
throw_if true e = err e
throw_if false e = ok tt

-- `if (!o) throw e`
abbrev pub or_throw {ℓ} : {A : Type ℓ} → Option A → Failure → Result A
or_throw none e = err e
or_throw (some a) e = ok a

abbrev pub succeeds {ℓ} : {A : Type ℓ} → Result A → Bool
succeeds (ok a) = true
succeeds (err e) = false

pub >>=-eq-ok {κ ℓ} :
    {T : Type κ} {U : Type ℓ} (step : Result T) (rest : T → Result U) {result : U}
    → (step >>= rest) ≡ ok result
    → (value : T) × (step ≡ ok value) × (rest value ≡ ok result)
>>=-eq-ok (err failure) rest returned = cc
>>=-eq-ok (ok value) rest returned = (value, refl, returned)

pub throw_if-eq-ok : (b : Bool) (e : Failure) → throw_if b e ≡ ok tt → b ≡ false
throw_if-eq-ok true e h = cc
throw_if-eq-ok false e h = refl

pub or_throw-eq-ok {ℓ} :
    {A : Type ℓ} (o : Option A) (e : Failure) {a : A} → or_throw o e ≡ ok a → o ≡ some a
or_throw-eq-ok none e h = cc
or_throw-eq-ok (some a) e h = cc

pub Result-cases {ℓ} :
    {A : Type ℓ} (r : Result A) → ((e : Failure) × (r ≡ err e)) ⊎ ((a : A) × (r ≡ ok a))
Result-cases (err e) = inl (e, refl)
Result-cases (ok a) = inr (a, refl)

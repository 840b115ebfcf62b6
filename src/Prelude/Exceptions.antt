-- ===== src/Prelude/Exceptions.antt =====
-- JavaScript exceptions as values: a computation returns, or throws.
use Prim.Native.String.{String}
use mathlib.Core.Path.{◌≡◌, refl}
use mathlib.Core.Bool.{Bool, true, false}
use mathlib.Core.Logic.{◌⊎◌, inl, inr}

-- `VerificationFailure` of packages/types/src/verify.ts.
pub data VerificationFailure : Type 0 where
  malformed_signature invalid_signature expired : VerificationFailure

-- The exceptions that some `catch` of the program tells apart: the language's own errors, with the
-- message that the runtime gives, and the classes that the program declares.
pub data Exception : Type 0 where
  type_error : String → Exception
  syntax_error : String → Exception
  error : String → Exception
  malformed_payment_error : String → Exception
  assertion_verification_error : VerificationFailure → String → Exception

-- `error.message`
abbrev pub message : Exception → String
message (type_error m) = m
message (syntax_error m) = m
message (error m) = m
message (malformed_payment_error m) = m
message (assertion_verification_error reason m) = m

pub data Throws {ℓ} (A : Type ℓ) : Type ℓ where
  ok : A → Throws A
  throw : Exception → Throws A

infixl 5 ◌>>=◌ ◌>>◌
abbrev pub ◌>>=◌ {ℓ κ} : {A : Type ℓ} {B : Type κ} → Throws A → (A → Throws B) → Throws B
throw e >>= continue = throw e
ok value >>= continue = continue value

abbrev pub ◌>>◌ {ℓ} : {B : Type ℓ} → Throws (Unit {0}) → Throws B → Throws B
first >> second = first >>= λ nothing. second

pub Throws-cases {ℓ} :
    {A : Type ℓ} (m : Throws A) → ((a : A) × (m ≡ ok a)) ⊎ ((e : Exception) × (m ≡ throw e))
Throws-cases (ok a) = inl (a, refl)
Throws-cases (throw e) = inr (e, refl)

-- Inversion of a computation that returns.
pub >>=-eq-ok {ℓ κ} :
    {A : Type ℓ} {B : Type κ} (m : Throws A) (continue : A → Throws B) {result : B}
    → (m >>= continue) ≡ ok result
    → (a : A) × (m ≡ ok a) × (continue a ≡ ok result)
>>=-eq-ok (throw e) continue h = cc
>>=-eq-ok (ok a) continue h = (a, refl, h)

-- Inversion of a computation that throws.
pub >>=-eq-throw {ℓ κ} :
    {A : Type ℓ} {B : Type κ} (m : Throws A) (f : A → Throws B) {e : Exception}
    → (m >>= f) ≡ throw e
    → (m ≡ throw e) ⊎ ((a : A) × (m ≡ ok a) × (f a ≡ throw e))
>>=-eq-throw (ok a) f h = inr (a, refl, h)
>>=-eq-throw (throw e') f h = inl (cc)

-- Whether a computation returns.
abbrev pub returns {ℓ} : {A : Type ℓ} → Throws A → Bool
returns (ok a) = true
returns (throw e) = false

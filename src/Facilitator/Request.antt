-- ===== src/Facilitator/Request.antt =====
-- facilitator/src/handler.ts: `validateRequest`, the check of a request's shape before anything
-- reads a field of it.
pub mod Laws
use agentic_attribution.Prelude.{
  String, Bool, true, false, Option, none, some, List, [], ◌∷◌, if◌then◌else◌,
}
use Prim.Native.String.{◌++◌}
use agentic_attribution.Js.Json.{
  Json, null, as_string, property, is_object, is_object_value, value_text,
}
use agentic_attribution.Js.Decimal.{codes, is_decimal}

-- `RequestValidation`
pub data Validation {ℓ} (A : Type ℓ) : Type ℓ where
  accepted : A → Validation A
  refused : String → Validation A

infixl 5 ◌>>=◌ ◌>>◌
abbrev ◌>>=◌ {ℓ κ} : {A : Type ℓ} {B : Type κ} → Validation A → (A → Validation B) → Validation B
accepted a >>= f = f a
refused e >>= f = refused e

abbrev ◌>>◌ {ℓ} : {B : Type ℓ} → Validation (Unit {0}) → Validation B → Validation B
m >> k = m >>= λ _. k

-- `FacilitatorRequest`, with the authorization inside its payload.
pub record FacilitatorRequest : Type 0 where
  pub payment_payload : Json
  pub authorization : Json
  pub payment_requirements : Json

-- `typeof v !== 'object' || v === null` refuses.
object_or : String → Option Json → Validation Json
object_or problem none = refused problem
object_or problem (some v) = if is_object v then accepted v else refused problem

check : String → Bool → Validation (Unit {0})
check problem true = accepted tt
check problem false = refused problem

abbrev pub throwing_requirement_fields : List String
throwing_requirement_fields = "asset" ∷ "payTo" ∷ "maxAmountRequired" ∷ []

is_text : Option Json → Bool
is_text v = elim (as_string v) [ none ↦ false | some _ ↦ true ]

check_fields : Json → List String → Validation (Unit {0})
unfolding check is_text
check_fields requirements [] = accepted tt
check_fields requirements (field ∷ fields) =
    let rest = check_fields requirements fields in
    if is_text (property requirements field)
    then rest
    else refused ("paymentRequirements." ++ field ++ " is missing or not a string")

unfoldable pub validate_request : Json → Validation FacilitatorRequest
unfolding object_or check check_fields
validate_request body = do
  request ← object_or "request body is not an object" (some body)
  payload ← object_or "request carries no paymentPayload" (property request "paymentPayload")
  requirements ←
      object_or "request carries no paymentRequirements" (property request "paymentRequirements")
  authorization ←
      object_or "paymentPayload carries no authorization" (property payload "authorization")
  check_fields requirements throwing_requirement_fields
  check "paymentRequirements.maxAmountRequired is not a decimal integer"
      (is_decimal (codes (value_text (property requirements "maxAmountRequired"))))
  accepted (record {
    payment_payload = payload;
    authorization = authorization;
    payment_requirements = requirements;
  })

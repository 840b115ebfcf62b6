-- ===== src/Facilitator/Request/Laws.antt =====
-- What a request that passes `validateRequest` is known to hold.
use agentic_attribution.Prelude.{
  ℕ, String, Bool, true, false, Option, none, some, ◌≡◌, refl, arith, Option-cases, inl, inr,
}
use agentic_attribution.Js.Json.{Json, str, as_string, property, value_text}
use agentic_attribution.Js.Json.Laws.{as_string-eq-some}
use agentic_attribution.Js.Integer.{pos}
use agentic_attribution.Js.Decimal.{codes, is_decimal, big_int}
use agentic_attribution.Js.Decimal.Laws.{is_decimal-big_int}
use agentic_attribution.Facilitator.Request.{
  Validation, accepted, refused, ◌>>=◌, FacilitatorRequest, object_or, check, is_text, check_fields,
  throwing_requirement_fields, validate_request,
}

>>=-eq-accepted {ℓ κ} :
    {A : Type ℓ} {B : Type κ} (m : Validation A) (f : A → Validation B) {b : B}
    → (m >>= f) ≡ accepted b
    → (a : A) × (m ≡ accepted a) × (f a ≡ accepted b)
>>=-eq-accepted (accepted a) f h = (a, refl, h)
>>=-eq-accepted (refused e) f h = ground arith

-- The parts of the request are objects found where the protocol puts them, and what verification
-- reads of the requirements outside a `try` is there: two texts and a decimal amount.
pub record IsValidated (body : Json) (r : FacilitatorRequest) : Type 0 where
  pub payload_is : property body "paymentPayload" ≡ some r.payment_payload
  pub requirements_is : property body "paymentRequirements" ≡ some r.payment_requirements
  pub authorization_is : property r.payment_payload "authorization" ≡ some r.authorization
  pub asset : String
  pub asset_is : property r.payment_requirements "asset" ≡ some (str asset)
  pub pay_to : String
  pub pay_to_is : property r.payment_requirements "payTo" ≡ some (str pay_to)
  pub amount : ℕ
  pub amount_is :
      big_int (codes (value_text (property r.payment_requirements "maxAmountRequired")))
      ≡ some (pos amount)

object_or-eq-accepted :
    (problem : String) (v : Option Json) (j : Json) → object_or problem v ≡ accepted j → v ≡ some j
unfolding object_or
object_or-eq-accepted problem none j h = ground arith
object_or-eq-accepted problem (some v) j h = ground arith

is_text-str : (v : Option Json) → is_text v ≡ true → (s : String) × (v ≡ some (str s))
unfolding is_text
is_text-str v h = elim (Option-cases (as_string v)) [
  | inl missing ↦ ground arith
  | inr (s, e) ↦ (s, as_string-eq-some v s e)
]

check_fields-texts :
    (requirements : Json) (u : Unit {0})
    → check_fields requirements throwing_requirement_fields ≡ accepted u
    → (is_text (property requirements "asset") ≡ true)
      × (is_text (property requirements "payTo") ≡ true)
unfolding check_fields
check_fields-texts requirements u h = ground arith

check-eq-accepted :
    (problem : String) (b : Bool) (u : Unit {0}) → check problem b ≡ accepted u → b ≡ true
unfolding check
check-eq-accepted problem true u h = refl
check-eq-accepted problem false u h = ground arith

-- A validated request holds its three objects, and requirements with a textual asset and payee and
-- a decimal amount, so nothing that verification reads of the requirements can throw.
pub validate_request-IsValidated :
    (body : Json) (r : FacilitatorRequest) → validate_request body ≡ accepted r → IsValidated body r
unfolding validate_request
validate_request-IsValidated body r h =
    let (q, p₁, h₁) = >>=-eq-accepted (object_or "request body is not an object" (some body)) _ h in
    let (payload, p₂, h₂) =
      >>=-eq-accepted (object_or "request carries no paymentPayload" (property q "paymentPayload"))
        _ h₁ in
    let (requirements, p₃, h₃) =
      >>=-eq-accepted
        (object_or "request carries no paymentRequirements" (property q "paymentRequirements")) _
        h₂ in
    let (authorization, p₄, h₄) =
      >>=-eq-accepted
        (object_or "paymentPayload carries no authorization" (property payload "authorization")) _
        h₃ in
    let (u, p₅, h₅) =
      >>=-eq-accepted (check_fields requirements throwing_requirement_fields) _ h₄ in
    let (w, p₆, h₆) =
      >>=-eq-accepted
        (check "paymentRequirements.maxAmountRequired is not a decimal integer"
          (is_decimal (codes (value_text (property requirements "maxAmountRequired")))))
        _ h₅ in
    let same = object_or-eq-accepted "request body is not an object" (some body) q p₁ in
    let e₂ =
      object_or-eq-accepted "request carries no paymentPayload" (property q "paymentPayload")
        payload p₂ in
    let e₃ =
      object_or-eq-accepted "request carries no paymentRequirements"
        (property q "paymentRequirements") requirements p₃ in
    let e₄ =
      object_or-eq-accepted "paymentPayload carries no authorization"
        (property payload "authorization") authorization p₄ in
    let (ta, tp) = check_fields-texts requirements u p₅ in
    let (asset, ea) = is_text-str (property requirements "asset") ta in
    let (pay_to, ep) = is_text-str (property requirements "payTo") tp in
    let (n, en) =
      is_decimal-big_int (codes (value_text (property requirements "maxAmountRequired"))) (
        check-eq-accepted "paymentRequirements.maxAmountRequired is not a decimal integer" _ w
          p₆) in
    record {
      payload_is = ground arith;
      requirements_is = ground arith;
      authorization_is = ground arith;
      asset = asset;
      asset_is = ground arith;
      pay_to = pay_to;
      pay_to_is = ground arith;
      amount = n;
      amount_is = ground arith;
    }

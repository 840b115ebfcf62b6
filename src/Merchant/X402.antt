-- ===== src/Merchant/X402.antt =====
-- merchant/src/x402.ts: the wire format, and the decoding of headers.
pub mod Laws
use Prim.Native.String.{◌++◌}
use agentic_attribution.Prelude.{
  ℕ, String, Bool, true, false, Option, none, some, List, [], ◌∷◌, Throws, ok, throw, error,
  syntax_error, malformed_payment_error, str_eq, if◌then◌else◌, ◌>>=◌, ◌>>◌,
}
use agentic_attribution.Js.Json.{Json, str, as_string, property, is_object_value}
use agentic_attribution.Platform.{Platform}

pub record Eip3009Authorization : Type 0 where
  pub from : String
  pub to : String
  pub value : String
  pub valid_after : String
  pub valid_before : String
  pub nonce : String

-- A decoded payment: the object as it came, and the fields of it that were checked.
pub record PaymentPayload : Type 0 where
  pub raw : Json
  pub authorization : Eip3009Authorization
  pub signature : String

pub record PaymentRequirements : Type 0 where
  pub scheme : String
  pub network : String
  pub asset : String
  pub max_amount_required : String
  pub pay_to : String
  pub max_timeout_seconds : ℕ
  pub resource : String
  pub description : String

pub record PaymentRequiredBody : Type 0 where
  pub x402_version : ℕ
  pub accepts : List PaymentRequirements

abbrev pub payment_required_header : String
payment_required_header = "payment-required"

abbrev pub payment_signature_header : String
payment_signature_header = "payment-signature"

abbrev pub payment_response_header : String
payment_response_header = "payment-response"

abbrev pub attribution_assertion_header : String
attribution_assertion_header = "x-attribution-assertion"

-- `typeof authorization[field] !== 'string'` throws.
text_field : Option Json → (field : String) → Throws String
text_field v field = elim (as_string v) [
  | none ↦
      throw (malformed_payment_error ("authorization." ++ field ++ " is missing or not a string"))
  | some s ↦ ok s
]

object_field : Option Json → (problem : String) → Throws Json
object_field none problem = throw (malformed_payment_error problem)
object_field (some v) problem =
    if is_object_value (some v) then ok v else throw (malformed_payment_error problem)

signature_field : Option Json → Throws String
signature_field v = elim (as_string v) [
  | none ↦ throw (malformed_payment_error "payment payload carries no signature")
  | some s ↦
      if str_eq s ""
      then throw (malformed_payment_error "payment payload carries no signature")
      else ok s
]

authorization_fields : Json → Throws Eip3009Authorization
unfolding text_field
authorization_fields authorization = do
  from ← text_field (property authorization "from") "from"
  to ← text_field (property authorization "to") "to"
  value ← text_field (property authorization "value") "value"
  valid_after ← text_field (property authorization "validAfter") "validAfter"
  valid_before ← text_field (property authorization "validBefore") "validBefore"
  nonce ← text_field (property authorization "nonce") "nonce"
  ok (record {
    from = from;
    to = to;
    value = value;
    valid_after = valid_after;
    valid_before = valid_before;
    nonce = nonce;
  })

-- The checks of `decodePaymentHeader` on the decoded value.
unfoldable pub checked_payment : Json → Throws PaymentPayload
unfolding object_field authorization_fields signature_field
checked_payment decoded = do
  payload ← object_field (some decoded) "payment payload is not an object"
  authorization ←
      object_field (property payload "authorization") "payment payload carries no authorization"
  fields ← authorization_fields authorization
  signature ← signature_field (property payload "signature")
  ok (record { raw = payload; authorization = fields; signature = signature })

module _ {Key : Type 0} (platform : Platform Key) where
  open platform use {atob, btoa, utf8, utf8_text, parse_json, stringify}

  unfoldable pub encode_header_json : Json → String
  encode_header_json value = btoa (utf8 (stringify value))

  parsed_json : Option Json → Throws Json
  parsed_json none = throw (syntax_error "Unexpected token in JSON")
  parsed_json (some v) = ok v

  unfoldable pub decode_header_json : String → Throws Json
  unfolding parsed_json
  decode_header_json encoded = elim (atob encoded) [
    | none ↦ throw (error "The string to be decoded is not correctly encoded.")
    | some bytes ↦ parsed_json (parse_json (utf8_text bytes))
  ]

  unfoldable pub decode_payment_header : String → Throws PaymentPayload
  unfolding decode_header_json checked_payment
  decode_payment_header encoded = do decoded ← decode_header_json encoded; checked_payment decoded

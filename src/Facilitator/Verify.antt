-- ===== src/Facilitator/Verify.antt =====
-- facilitator/src/verify.ts: the checks on one payment. Payload and requirements are parsed JSON
-- whose shape `Facilitator.Handler` has checked only in part, so reading them can throw.
pub mod Laws
pub mod Totality
use mathlib.Core.Option
use agentic_attribution.Prelude.{
  ℕ, String, Bool, true, false, not, ◌||◌, Option, none, some, List, [], ◌∷◌, Throws, ok, throw,
  type_error, syntax_error, str_eq, ltb, leb, ◌==◌, if◌then◌else◌, ◌>>=◌,
}
use agentic_attribution.Js.Json.{Json, str, as_string, property, strict_equal, value_text, join}
use agentic_attribution.Js.Decimal.{codes, big_int}
use agentic_attribution.Js.Integer.{ℤ, pos, eqb_ℤ, ltb_ℤ}
use agentic_attribution.Types.Eip3009.{
  Eip712Domain, Eip3009Message, eip712_domain, to_typed_message,
}

pub data InvalidReason : Type 0 where
  unsupported_scheme network_mismatch asset_mismatch payee_mismatch insufficient_amount
        authorization_not_yet_valid authorization_expired invalid_signature malformed_payload :
      InvalidReason

-- The reasons as the protocol spells them.
abbrev pub reason_text : InvalidReason → String
reason_text unsupported_scheme = "unsupported_scheme"
reason_text network_mismatch = "network_mismatch"
reason_text asset_mismatch = "asset_mismatch"
reason_text payee_mismatch = "payee_mismatch"
reason_text insufficient_amount = "insufficient_amount"
reason_text authorization_not_yet_valid = "authorization_not_yet_valid"
reason_text authorization_expired = "authorization_expired"
reason_text invalid_signature = "invalid_signature"
reason_text malformed_payload = "malformed_payload"

-- `VerifyOutcome`: valid with the payer, or invalid with a reason.
pub data VerifyOutcome : Type 0 where
  valid : (payer : Option Json) → VerifyOutcome
  invalid : InvalidReason → VerifyOutcome

-- `toLowerCase`, and what viem does: the check of a typed-data signature, which may throw, and the
-- hash of a text.
pub record Chain : Type 0 where
  pub to_lower_case : String → String
  pub verify_typed_data :
      (address : Option Json) (domain : Eip712Domain) (message : Eip3009Message)
      (signature : Option Json)
      → Throws Bool
  -- `keccak256(toHex(text))`
  pub keccak256_text : String → String

abbrev pub scheme_exact : Option Json
scheme_exact = some (str "exact")

-- `value.toLowerCase` of what is not a text is undefined, and calling it throws.
lower_operand : Option Json → Throws String
lower_operand v = elim (as_string v) [
  | none ↦ throw (type_error "toLowerCase is not a function")
  | some s ↦ ok s
]

-- `BigInt(requirements.maxAmountRequired)`
required_amount : Option Json → Throws ℤ
required_amount v = elim (big_int (codes (value_text v))) [
  | none ↦ throw (syntax_error "Cannot convert to a BigInt")
  | some amount ↦ ok amount
]

-- The message and the domain; a key of `NETWORKS` is converted to text.
typed_data : (payload authorization : Json) → Throws (Eip3009Message × Eip712Domain)
typed_data payload authorization = do
  message ← to_typed_message authorization
  domain ← eip712_domain (value_text (property payload "network"))
  ok (message, domain)

module _ (chain : Chain) where
  open chain use {to_lower_case, verify_typed_data, keccak256_text}

  unfoldable pub same_address : Option Json → Option Json → Throws Bool
  unfolding lower_operand
  same_address left right = do
    l ← lower_operand left
    r ← lower_operand right
    ok (str_eq (to_lower_case l) (to_lower_case r))

  -- The `try` round `verifyTypedData`, and what follows it.
  signature_outcome : Eip3009Message → Throws Bool → VerifyOutcome
  signature_outcome message (throw _) = invalid malformed_payload
  signature_outcome message (ok false) = invalid invalid_signature
  signature_outcome message (ok true) = valid message.from

  check_amount_and_time : Json → Eip3009Message → Eip712Domain → (required now : ℤ) → VerifyOutcome
  unfolding signature_outcome
  check_amount_and_time payload message domain required now =
      if not (eqb_ℤ (pos message.value) required)
      then invalid insufficient_amount
      else if ltb_ℤ now (pos message.valid_after)
      then invalid authorization_not_yet_valid
      else if not (ltb_ℤ now (pos message.valid_before))
      then invalid authorization_expired
      else signature_outcome message
          (verify_typed_data message.from domain message (property payload "signature"))

  check_required :
      (payload requirements : Json)
      → Eip3009Message
      → Eip712Domain
      → (now : ℤ) → Throws VerifyOutcome
  unfolding check_amount_and_time required_amount
  check_required payload requirements message domain now = do
    required ← required_amount (property requirements "maxAmountRequired")
    ok (check_amount_and_time payload message domain required now)

  check_payee :
      (payload authorization requirements : Json)
      → Eip3009Message
      → Eip712Domain
      → (now : ℤ) → Throws VerifyOutcome
  unfolding same_address check_required
  check_payee payload authorization requirements message domain now = do
    same ← same_address (property authorization "to") (property requirements "payTo")
    if same
        then check_required payload requirements message domain now
        else ok (invalid payee_mismatch)

  check_asset :
      (payload authorization requirements : Json)
      → Eip3009Message
      → Eip712Domain
      → (now : ℤ) → Throws VerifyOutcome
  unfolding same_address check_payee
  check_asset payload authorization requirements message domain now = do
    same ← same_address (property requirements "asset") (Option.map str domain.verifying_contract)
    if same
        then check_payee payload authorization requirements message domain now
        else ok (invalid asset_mismatch)

  -- The `try` round the message and the domain: whatever it throws is a malformed payload.
  with_typed_data :
      (payload authorization requirements : Json)
      → (now : ℤ) → Throws (Eip3009Message × Eip712Domain)
      → Throws VerifyOutcome
  unfolding check_asset
  with_typed_data payload authorization requirements now (throw _) = ok (invalid malformed_payload)
  with_typed_data payload authorization requirements now (ok (message, domain)) =
      check_asset payload authorization requirements message domain now

  -- `verifyPayment`; `authorization` is `payload.authorization`, which the caller has found to be an
  -- object.
  unfoldable pub verify_payment :
      (payload authorization requirements : Json) → (now : ℤ) → Throws VerifyOutcome
  unfolding typed_data with_typed_data
  verify_payment payload authorization requirements now =
      if not (strict_equal (property payload "scheme") scheme_exact)
        || not (strict_equal (property requirements "scheme") scheme_exact)
      then ok (invalid unsupported_scheme)
      else if not (strict_equal (property payload "network") (property requirements "network"))
      then ok (invalid network_mismatch)
      else with_typed_data payload authorization requirements now (typed_data payload authorization)

  -- The fields of an authorization, joined.
  unfoldable pub simulated_transaction_hash : Json → String
  simulated_transaction_hash authorization = keccak256_text (
      join "|" (
        property authorization "from"
        ∷ property authorization "to"
        ∷ property authorization "value"
        ∷ property authorization "validAfter"
        ∷ property authorization "validBefore"
        ∷ property authorization "nonce"
        ∷ []))

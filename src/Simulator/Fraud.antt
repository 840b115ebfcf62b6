-- ===== src/Simulator/Fraud.antt =====
-- simulator/src/fraud.ts: the attacks on a genuine assertion, and the reasons expected for them.
pub mod Laws
use Prim.Native.String.{◌++◌}
use agentic_attribution.Prelude.{
  ℕ, ◌%◌, String, Option, none, some, List, [], ◌∷◌, ◌==◌, ◌-◌, if◌then◌else◌,
}
use agentic_attribution.Js.Json.{Json, str, num, obj, member, end}
use agentic_attribution.Js.Decimal.{to_string}
use agentic_attribution.Simulator.Agent.{AttributionAssertion}

pub data FraudMode : Type 0 where
  tampered_publisher tampered_commission expired forged_signature unknown_publisher : FraudMode

abbrev pub fraud_modes : List FraudMode
fraud_modes =
    tampered_publisher ∷ tampered_commission ∷ expired ∷ forged_signature ∷ unknown_publisher ∷ []

unfoldable pub expected_rejection : FraudMode → String
expected_rejection tampered_publisher = "assertion_signature_invalid"
expected_rejection tampered_commission = "assertion_signature_invalid"
expected_rejection expired = "assertion_expired"
expected_rejection forged_signature = "assertion_signature_invalid"
expected_rejection unknown_publisher = "assertion_signature_invalid"

abbrev pub attacker_publisher : String
attacker_publisher = "pub_999999"

abbrev pub inflated_commission_bps : ℕ
inflated_commission_bps = 9999

abbrev pub signature_prefix : String
signature_prefix = "ed25519:"

-- `'A'.repeat(86) + '=='`
abbrev pub forged_body : String
forged_body =
    "AAAAAAAAAAAAAAAAAAAAAAAAAAAAAAAAAAAAAAAAAAAAAAAAAAAAAAAAAAAAAAAAAAAAAAAAAAAAAAAAAAAAAA=="

-- `hours_ago` is `hoursAgo` at the moment of the attack: a time, to the second, as ISO 8601 has it.
unfoldable pub apply_fraud :
    (hours_ago : ℕ → String) → AttributionAssertion → FraudMode → AttributionAssertion
apply_fraud hours_ago assertion tampered_publisher = record assertion {
  publisher_id = attacker_publisher;
}
apply_fraud hours_ago assertion tampered_commission = record assertion {
  commission_bps = inflated_commission_bps;
}
apply_fraud hours_ago assertion expired = record assertion {
  issued_at = hours_ago 3;
  expires_at = hours_ago 2;
}
apply_fraud hours_ago assertion forged_signature = record assertion {
  signature = signature_prefix ++ forged_body;
}
apply_fraud hours_ago assertion unknown_publisher = record assertion {
  publisher_id = attacker_publisher;
  commission_bps = inflated_commission_bps;
}

-- An array's element, undefined from its length on.
unfoldable pub element {ℓ} : {A : Type ℓ} → List A → ℕ → Option A
element [] i = none
element (x ∷ xs) i = let rest = element xs (i - 1) in if i == 0 then some x else rest

-- `draw n` is `Math.floor(random() * n)`.
unfoldable pub pick_fraud_mode : (draw : ℕ → ℕ) → Option FraudMode
unfolding element
pick_fraud_mode draw = element fraud_modes (draw 5 % 5)

-- The assertion as it comes out of a header that `JSON.stringify` filled.
unfoldable pub wire : AttributionAssertion → Json
wire a = obj (
    member "assertion_id" (str a.assertion_id) (
      member "publisher_id" (str a.publisher_id) (
        member "product_id" (str a.product_id) (
          member "search_request_id" (str a.search_request_id) (
            member "issued_at" (str a.issued_at) (
              member "expires_at" (str a.expires_at) (
                member "commission_bps" (num (to_string a.commission_bps))
                  (member "signature" (str a.signature) end))))))))

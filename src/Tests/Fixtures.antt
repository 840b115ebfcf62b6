-- ===== src/Tests/Fixtures.antt =====
-- A small payment and a chain that accepts every signature.
use agentic_attribution.Prelude.{String, some, ok, true, str_eq, if◌then◌else◌}
use agentic_attribution.Js.Json.{Json, num, str, obj, end, member}
use agentic_attribution.Facilitator.Verify.{Chain}
use agentic_attribution.Facilitator.Ledger.{empty}
use agentic_attribution.Facilitator.Request.{FacilitatorRequest}
use agentic_attribution.Facilitator.Handler.{FacilitatorState, no_fault}

abbrev pub chain : Chain
chain = record {
  to_lower_case = λ s. if str_eq s "0xAB" then "0xab" else s;
  verify_typed_data = λ address domain message signature. ok true;
  keccak256_text = λ s. s;
}

abbrev pub authorization_with : String → Json
authorization_with n = obj (
    member "from" (str "0xf") (
      member "to" (str "0xm") (
        member "value" (str "20000") (
          member "validAfter" (str "0")
            (member "validBefore" (str "9") (member "nonce" (str n) end))))))

abbrev pub payload_with : Json → Json
payload_with authorization = obj (
    member "x402Version" (num "1") (
      member "scheme" (str "exact") (
        member "network" (str "base-sepolia")
          (member "authorization" authorization (member "signature" (str "0xs") end)))))

abbrev pub requirements : Json
requirements = obj (
    member "scheme" (str "exact") (
      member "network" (str "base-sepolia") (
        member "asset" (str "0x036CbD53842c5426634e7929541eC2318f3dCF7e")
          (member "maxAmountRequired" (str "20000") (member "payTo" (str "0xm") end)))))

abbrev pub body_with : Json → Json
body_with payload =
    obj (member "paymentPayload" payload (member "paymentRequirements" requirements end))

abbrev pub request_with : String → FacilitatorRequest
request_with n = record {
  payment_payload = payload_with (authorization_with n);
  authorization = authorization_with n;
  payment_requirements = requirements;
}

abbrev pub settle_body : String → Json
settle_body n = body_with (payload_with (authorization_with n))

abbrev pub fresh : FacilitatorState
fresh = record { nonces = empty; fault = some no_fault }

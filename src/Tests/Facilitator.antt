-- ===== src/Tests/Facilitator.antt =====
-- The facilitator at the small payment.
use agentic_attribution.Prelude.{
  String, true, none, some, ok, [], ◌∷◌, ◌≡◌, refl, arith, returns, eq_iff, ◌+◌, ◌⊎◌, length,
}
use agentic_attribution.Js.Json.{
  Json, null, str, obj, member, end, property, read, strict_equal, value_text, join,
  is_object_value,
}
use agentic_attribution.Js.Decimal.{big_int, is_decimal, is_blank}
use agentic_attribution.Js.Integer.{pos}
use agentic_attribution.Types.Eip3009.{
  Eip3009Message, to_typed_message, eip712_domain, network_parameters,
}
use agentic_attribution.Facilitator.Verify.{valid, verify_payment, simulated_transaction_hash}
use agentic_attribution.Facilitator.Verify.Laws.{IsPayable, verify_payment-valid_iff}
use agentic_attribution.Facilitator.Ledger.{empty, has, claim, size}
use agentic_attribution.Facilitator.Request.{accepted, validate_request}
use agentic_attribution.Facilitator.Request.Laws.{validate_request-IsValidated}
use agentic_attribution.Facilitator.Handler.{
  FacilitatorState, settle_route, now_seconds, injected, unavailable, handle,
}
use agentic_attribution.Facilitator.Handler.Nonces.{
  Call, handle_call, run, nonce_single_use, run-size,
}
use agentic_attribution.Facilitator.Handler.Respelling.{
  Respells, ReadsBytes, respelled_nonce_accepted,
}
use agentic_attribution.Facilitator.Verify.Totality.{verify_payment-returns}
use agentic_attribution.Facilitator.Handler.Laws.{Settles, SettlesBody, Rests, handle-cases}
use agentic_attribution.Facilitator.Handler.Liveness.{handle-Settles}
use agentic_attribution.Tests.Fixtures.{
  chain, authorization_with, payload_with, requirements, request_with, settle_body, fresh,
}

unfoldable pub running : Unit {0}
unfolding handle validate_request verify_payment simulated_transaction_hash property read
    strict_equal value_text join big_int is_decimal is_blank to_typed_message eip712_domain
    network_parameters has claim size is_object_value
running = tt

settles_once_test :
    (handle chain fresh "POST" "/settle" (settle_body "0xab") 5000).state.nonces.consumed
    ≡ some (str "0xab") ∷ []
unfolding running
settles_once_test = refl

validated : (n : String) → validate_request (settle_body n) ≡ accepted (request_with n)
unfolding running
validated n = refl

payable_now :
    verify_payment chain
      (payload_with (authorization_with "0xab"))
      (authorization_with "0xab")
      requirements
      (now_seconds 5000)
    ≡ ok (valid (some (str "0xf")))
unfolding running
payable_now = refl

verify_payment-valid_iff_example :
    IsPayable chain
      (payload_with (authorization_with "0xab"))
      (authorization_with "0xab")
      requirements
      (now_seconds 5000)
      (some (str "0xf"))
verify_payment-valid_iff_example =
    (verify_payment-valid_iff chain (payload_with (authorization_with "0xab"))
        (authorization_with "0xab") requirements (now_seconds 5000) (some (str "0xf"))).0
      payable_now

handle-Settles_example :
    Settles chain fresh
      (request_with "0xab")
      (now_seconds 5000)
      (handle chain fresh "POST" settle_route (settle_body "0xab") 5000)
unfolding running injected
handle-Settles_example =
    handle-Settles chain fresh (request_with "0xab") (settle_body "0xab") 5000 (some (str "0xf"))
      refl (validated "0xab") verify_payment-valid_iff_example refl

abbrev pub first : Call
first = record { method = "POST"; path = "/settle"; body = settle_body "0xab"; clock = 5000 }

abbrev health_check : Call
health_check = record { method = "GET"; path = "/healthz"; body = null; clock = 5500 }

pub first-Settles :
    Settles chain fresh (request_with "0xab") (now_seconds 5000) (handle_call chain fresh first)
unfolding running injected
first-Settles =
    handle-Settles chain fresh (request_with "0xab") (settle_body "0xab") 5000 (some (str "0xf"))
      refl (validated "0xab") verify_payment-valid_iff_example refl

nonce_single_use_example :
    let s = (run chain (handle_call chain fresh first).state (health_check ∷ [])).0 in
    Rests s (handle_call chain s first)
unfolding running
nonce_single_use_example =
    nonce_single_use chain fresh first (health_check ∷ []) first (request_with "0xab")
      (request_with "0xab") "0xab" first-Settles refl (validated "0xab") refl

run-size_example :
    size (run chain fresh (first ∷ first ∷ [])).0.nonces
    ≡ size fresh.nonces + length (run chain fresh (first ∷ first ∷ [])).1
run-size_example = run-size chain fresh (first ∷ first ∷ [])

handle-cases_example :
    SettlesBody chain fresh "POST" "/settle"
      (settle_body "0xab")
      (now_seconds 5000)
      (handle chain fresh "POST" "/settle" (settle_body "0xab") 5000)
    ⊎ Rests fresh (handle chain fresh "POST" "/settle" (settle_body "0xab") 5000)
handle-cases_example = handle-cases chain fresh "POST" "/settle" (settle_body "0xab") 5000

verify_payment-returns_example :
    returns (
      verify_payment chain
        (payload_with (authorization_with "0xab"))
        (authorization_with "0xab")
        requirements
        (pos 5))
    ≡ true
unfolding running
verify_payment-returns_example =
    verify_payment-returns chain (request_with "0xab")
      (validate_request-IsValidated (settle_body "0xab") (request_with "0xab") (validated "0xab"))
      (pos 5) "0xm" refl refl

abbrev hidden : FacilitatorState
hidden = record { nonces = empty; fault = none }

abbrev broken : FacilitatorState
broken = record { nonces = empty; fault = some unavailable }

respelling : Respells chain (request_with "0xab") (request_with "0xAB") "0xab" "0xAB"
unfolding running
respelling = record {
  requirements = refl;
  scheme = refl;
  network = refl;
  signature = refl;
  from = refl;
  to = refl;
  value = refl;
  valid_after = refl;
  valid_before = refl;
  nonce_r = refl;
  nonce_q = refl;
  prefix_n = refl;
  prefix_k = refl;
  same_bytes = refl;
}

reads_bytes : ReadsBytes chain
reads_bytes = record { any_case = λ address domain m signature n k p q same held. refl }

respelled_nonce_accepted_example :
    let once = handle chain fresh "POST" settle_route (settle_body "0xab") 5000 in
    Settles chain fresh (request_with "0xab") (now_seconds 5000) once
    × Settles chain once.state
        (request_with "0xAB")
        (now_seconds 5000)
        (handle chain once.state "POST" settle_route (settle_body "0xAB") 5000)
unfolding running injected
respelled_nonce_accepted_example =
    respelled_nonce_accepted chain fresh (request_with "0xab") (request_with "0xAB")
      (settle_body "0xab") (settle_body "0xAB") "0xab" "0xAB" 5000 (some (str "0xf"))
      (ground (arith, eq_iff "0xab" "0xAB")) reads_bytes respelling refl (validated "0xab")
      (validated "0xAB") verify_payment-valid_iff_example refl refl

-- The small payment without a payee.
abbrev payeeless : Json
payeeless = obj (
    member "from" (str "0xf") (
      member "value" (str "20000")
        (member "validAfter" (str "0") (member "validBefore" (str "9") end))))

abbrev payeeless_message : Eip3009Message
payeeless_message = record {
  from = some (str "0xf");
  to = none;
  value = 20000;
  valid_after = 0;
  valid_before = 9;
  nonce = none;
}

-- The small payment on the network `toString`.
abbrev inherited_payload : Json
inherited_payload = obj (member "scheme" (str "exact") (member "network" (str "toString") end))

abbrev inherited_requirements : Json
inherited_requirements = obj (
    member "scheme" (str "exact") (
      member "network" (str "toString")
        (member "asset" (str "0xa") (member "payTo" (str "0xm") end))))

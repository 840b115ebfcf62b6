-- ===== src/System/Attack.antt =====
-- The simulator's attacks on the running services: the agent's paid request with a changed assertion.
pub mod Run
use agentic_attribution.Prelude.{
  ℕ, String, false, List, Throws, ok, throw, VerificationFailure, assertion_verification_error, ◌≡◌,
  inl, inr, refl, arith, lookup,
}
use agentic_attribution.Js.Json.{Json, str, obj, end, member, property}
use agentic_attribution.Types.Assertion.{
  UnsignedAssertion, verify_assertion, import_verification_key,
}
use agentic_attribution.Types.Assertion.Tampering.{IsUnforgeable}
use agentic_attribution.Types.Assertion.Verdict.{verify_assertion-Judges}
use agentic_attribution.Gateway.KeyCache.Laws.{IsCoherent}
use agentic_attribution.Gateway.Handler.{
  Forwarded, OriginResponse, Request, failure_text, handle, Handled,
}
use agentic_attribution.Gateway.Handler.Laws.{forwards, IsPaidPurchase}
use agentic_attribution.Gateway.Handler.Refusal.{IsJudged, IsRefused, judged-IsRefused}
use agentic_attribution.Gateway.Server.{answered, response_status, response_bytes}
use agentic_attribution.Merchant.X402.{encode_header_json}
use agentic_attribution.Simulator.Agent.{AttributionAssertion}
use agentic_attribution.Simulator.Fraud.{FraudMode, apply_fraud, wire}
use agentic_attribution.Simulator.Fraud.Laws.{IsSound, apply_fraud-refused}
use agentic_attribution.Simulator.Requests.{
  Outgoing, agent_error, product_body, completion_request, accept, complete_purchase,
}
use agentic_attribution.System.Network.{Setting, origins, at_gateway, fetch}
use agentic_attribution.System.Network.Laws.{IsCarried, IsHeader, IsHeader-gateway}
use agentic_attribution.System.Exchange.{IsSent, arrived, arrives_whole, at_gateway-arrived}
use agentic_attribution.System.Completion.{given_at_gateway-filled}

-- The JSON of the gateway's refusal.
abbrev pub refusal_json : (reason : VerificationFailure) (detail : String) → Json
refusal_json reason detail =
    obj (member "error" (str detail) (member "reason" (str (failure_text reason)) end))

module _ {Key : Type 0} (setting : Setting Key) where
  open setting use {deps, env, pathname, port, first, second, edge_now, shop_now, elsewhere, cache}
  open deps use {platform}

  abbrev pub forged : (product_id : String) (assertion payment : Json) → Outgoing
  forged product_id assertion payment = completion_request platform product_id assertion payment

  -- The request is small and travels whole, headers survive base64, JSON and UTF-8, the gateway's key
  -- imports, and the gateway's refusal of the assertion survives the way back.
  pub record IsAttack (product_id : String) (assertion payment : Json) : Type 0 where
    pub sent : IsSent setting (forged product_id assertion payment) (product_body product_id)
    pub assertion_carried : IsHeader platform assertion
    pub payment_carried : IsHeader platform payment
    pub coherent : IsCoherent platform cache
    pub edge_key : Key
    pub imports : import_verification_key platform env.attribution_public_key ≡ ok edge_key
    pub answers_carried :
        (reason : VerificationFailure) (detail : String)
        → verify_assertion platform assertion edge_key edge_now
          ≡ throw (assertion_verification_error reason detail)
        → IsCarried platform (refusal_json reason detail)

  module _ (product_id : String) (assertion payment : Json)
      (attack : IsAttack product_id assertion payment) where
    network : Forwarded → Throws OriginResponse
    network = origins setting

    arriving : Request
    arriving = arrived setting (forged product_id assertion payment)

    is_paid : IsPaidPurchase platform network arriving
    unfolding lookup completion_request arriving
    is_paid = record {
      posted = refl;
      on_route = refl;
      bytes = platform.utf8 (forged product_id assertion payment).body;
      within =
          (arrives_whole setting (forged product_id assertion payment) (product_body product_id)
            attack.sent).0;
      payment = encode_header_json platform payment;
      paid = given_at_gateway-filled _ attack.payment_carried.filled;
    }

    is_judged :
        (reason : VerificationFailure) (detail : String)
        → verify_assertion platform assertion attack.edge_key edge_now
          ≡ throw (assertion_verification_error reason detail)
        → IsJudged platform network env arriving edge_now assertion reason detail
    unfolding lookup completion_request arriving
    is_judged reason detail fails = record {
      encoded = encode_header_json platform assertion;
      presented = given_at_gateway-filled _ attack.assertion_carried.filled;
      decodes = IsHeader-gateway platform assertion attack.assertion_carried;
      key = attack.edge_key;
      imports = attack.imports;
      fails = fails;
    }

    refused_at_gateway :
        (reason : VerificationFailure) (detail : String) (h : Handled Key)
        → at_gateway setting (forged product_id assertion payment) ≡ answered h h.reply
        → IsCarried platform (refusal_json reason detail)
        → IsRefused platform network env arriving edge_now reason detail h
        → (forwards (at_gateway setting (forged product_id assertion payment)).effects ≡ false)
          × (complete_purchase platform (fetch setting) product_id assertion payment
              ≡ agent_error "purchase rejected" 401 (refusal_json reason detail))
    unfolding complete_purchase fetch accept answered response_status response_bytes
    refused_at_gateway reason detail h here c r =
        rw (here, r.answer, c.decodes) (r.stopped, ground (arith, c.parses))

    pub judged-stopped :
        (reason : VerificationFailure) (detail : String)
        → verify_assertion platform assertion attack.edge_key edge_now
          ≡ throw (assertion_verification_error reason detail)
        → (forwards (at_gateway setting (forged product_id assertion payment)).effects ≡ false)
          × (complete_purchase platform (fetch setting) product_id assertion payment
              ≡ agent_error "purchase rejected" 401 (refusal_json reason detail))
    unfolding arriving network
    judged-stopped reason detail fails =
        let out = forged product_id assertion payment in
        refused_at_gateway reason detail (handle platform network cache env arriving edge_now)
          (at_gateway-arrived setting out attack.sent.first_lossless attack.sent.at_purchase
            attack.sent.small)
          (attack.answers_carried reason detail fails)
          (judged-IsRefused platform network env arriving edge_now cache assertion reason detail
            is_paid attack.coherent (is_judged reason detail fails))

  -- Any of the simulator's five attacks, tried on the services with a payment of whatever content,
  -- where the gateway's key accepts only what was issued, nothing was issued to the attacker or at the
  -- inflated rate, and the deadline of the stale assertion has passed: no origin gets a request, so
  -- nothing is settled, and the agent's purchase ends in an error with status 401 and the reason for
  -- which the assertion was refused.
  pub attack-stopped :
      (product_id : String) (payment : Json) (issued : List UnsignedAssertion)
      (hours_ago : ℕ → String) (a : AttributionAssertion) (mode : FraudMode)
      (attack : IsAttack product_id (wire (apply_fraud hours_ago a mode)) payment)
      → IsSound platform attack.edge_key issued hours_ago edge_now
      → IsUnforgeable platform attack.edge_key issued (wire (apply_fraud hours_ago a mode))
      → let assertion = wire (apply_fraud hours_ago a mode) in
        (forwards (at_gateway setting (forged product_id assertion payment)).effects ≡ false)
        × ((reason : VerificationFailure) × (detail : String) × (complete_purchase platform
                (fetch setting)
                product_id
                assertion
                payment
              ≡ agent_error "purchase rejected" 401 (refusal_json reason detail)))
  unfolding wire property
  attack-stopped product_id payment issued hours_ago a mode attack sound unforgeable =
      let assertion = wire (apply_fraud hours_ago a mode) in
      elim (verify_assertion-Judges platform assertion attack.edge_key edge_now
        (apply_fraud hours_ago a mode).signature refl) [
          | inl (u, good) ↦ absurd (
              apply_fraud-refused platform attack.edge_key issued hours_ago edge_now a mode sound
                unforgeable good)
          | inr (reason, detail, bad) ↦
              let (stopped, answer) =
                judged-stopped product_id assertion payment attack reason detail bad in
              (stopped, (reason, detail, answer))
        ]

-- ===== src/System/Attack/Run.antt =====
-- The runner's fraud against the services: what it counts.
use agentic_attribution.Prelude.{
  Throws, ℕ, String, Option, some, List, ok, VerificationFailure, malformed_signature,
  invalid_signature, expired, ◌≡◌, refl, ◌∙◌,
}
use agentic_attribution.Js.Json.{Json, property}
use agentic_attribution.Js.Text.{trim}
use agentic_attribution.Types.Assertion.{UnsignedAssertion}
use agentic_attribution.Types.Assertion.Tampering.{IsUnforgeable}
use agentic_attribution.Gateway.Handler.{failure_text}
use agentic_attribution.Simulator.Agent.{AttributionAssertion, Selection}
use agentic_attribution.Simulator.Fraud.{FraudMode, apply_fraud, wire}
use agentic_attribution.Simulator.Fraud.Laws.{IsSound}
use agentic_attribution.Simulator.Requests.{complete_purchase}
use agentic_attribution.Simulator.Runner.Attempt.{
  AgentCalls, RunnerStats, Draws, reason_of, run_once,
}
use agentic_attribution.Simulator.Runner.Attempt.Refused.{Reaches, IsBlocked, refused-IsBlocked}
use agentic_attribution.System.Network.{Setting, fetch}
use agentic_attribution.System.Attack.{IsAttack, refusal_json, attack-stopped}

reason_of-refusal_json :
    (reason : VerificationFailure) (detail : String)
    → reason_of 401 (refusal_json reason detail) ≡ ok (failure_text reason)
unfolding reason_of property trim
reason_of-refusal_json malformed_signature detail = refl
reason_of-refusal_json invalid_signature detail = refl
reason_of-refusal_json expired detail = refl

-- The purchases of these agents are sent to the services.
abbrev pub BuysFrom : {Key : Type 0} → Setting Key → AgentCalls → Type 0
BuysFrom setting calls =
    (product_id : String) (assertion : AttributionAssertion) (payment : Json)
    → calls.complete_purchase product_id assertion payment
      ≡ complete_purchase setting.deps.platform (fetch setting) product_id (wire assertion) payment

-- A run of the simulator that draws a fraud and gets as far as a payment, where the purchase goes to
-- the services and the attack is one that the gateway's key does not accept: it counts exactly one
-- blocked attempt, nothing settled and nothing failed.
pub fraud_run-IsBlocked :
    {Key : Type 0} (setting : Setting Key) (two_places : Option Json → Throws String)
    (hours_ago : ℕ → String) (calls : AgentCalls) (publisher_ids queries : List String)
    (draws : Draws) (mode : FraudMode) (selection : Selection) (payment : Json)
    (stats : RunnerStats) (issued : List UnsignedAssertion)
    (attack : IsAttack setting selection.product.product_id
      (wire (apply_fraud hours_ago selection.assertion mode))
      payment)
    → BuysFrom setting calls
    → Reaches two_places hours_ago calls publisher_ids queries draws (some mode) selection payment
    → IsSound setting.deps.platform attack.edge_key issued hours_ago setting.edge_now
    → IsUnforgeable setting.deps.platform attack.edge_key issued
        (wire (apply_fraud hours_ago selection.assertion mode))
    → IsBlocked two_places hours_ago calls publisher_ids queries draws stats
        (run_once two_places hours_ago calls publisher_ids queries draws stats)
fraud_run-IsBlocked setting two_places hours_ago calls publisher_ids queries draws mode selection
      payment stats issued attack buys reaches sound unforgeable =
    let (stopped, (reason, detail, answer)) =
      attack-stopped setting selection.product.product_id payment issued hours_ago
        selection.assertion mode attack sound unforgeable in
    refused-IsBlocked two_places hours_ago calls publisher_ids queries draws mode selection payment
      stats "purchase rejected" 401 (refusal_json reason detail) (failure_text reason) reaches
      (buys selection.product.product_id (apply_fraud hours_ago selection.assertion mode) payment
        ∙ answer)
      (reason_of-refusal_json reason detail)

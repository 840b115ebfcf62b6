-- ===== src/Simulator/Runner/Attempt/Refused.antt =====
-- A run whose purchase is refused.
use agentic_attribution.Prelude.{Throws, ℕ, suc, String, Option, none, some, List, ok, ◌≡◌, refl}
use agentic_attribution.Js.Json.{Json}
use agentic_attribution.Simulator.Agent.{SearchResponse, Selection, select_cheapest_in_stock}
use agentic_attribution.Simulator.Fraud.{FraudMode, apply_fraud, element}
use agentic_attribution.Simulator.Requests.{done, agent_error}
use agentic_attribution.Simulator.Runner.Attempt.{
  AgentCalls, RunnerStats, record_reason, reason_of, Attempt, handle_failure, Draws, usable,
  drawn_mode, presented, concluded, paid, signed, journey, chosen, searched, configured, run_once,
}

module _ (two_places : Option Json → Throws String) (hours_ago : ℕ → String) (calls : AgentCalls)
    (publisher_ids queries : List String) (draws : Draws) where
  -- The run gets as far as a payment: a publisher and a query are drawn, the search has an offer in
  -- stock, its challenge comes back and is signed.
  pub record Reaches (mode : Option FraudMode) (selection : Selection) (payment : Json)
      : Type 0 where
    pub drawn : drawn_mode draws ≡ mode
    pub publisher_id : String
    pub query : String
    pub has_publisher : usable (element publisher_ids draws.publisher) ≡ some publisher_id
    pub has_query : usable (element queries draws.query) ≡ some query
    pub results : SearchResponse
    pub finds : calls.search query publisher_id ≡ done results
    pub selects : select_cheapest_in_stock results ≡ some selection
    pub requirements : Json
    pub challenged : calls.request_challenge selection.product.product_id ≡ done requirements
    pub signs : calls.sign_authorization requirements ≡ done payment

  -- One more blocked attempt, and nothing else counted.
  pub record IsBlocked (before : RunnerStats) (a : Attempt) : Type 0 where
    pub returned : a.escaped ≡ none
    pub started : a.stats.started ≡ suc before.started
    pub blocked : a.stats.blocked ≡ suc before.blocked
    pub settled : a.stats.settled ≡ before.settled
    pub failed : a.stats.failed ≡ before.failed

  pub refused-IsBlocked :
      (mode : FraudMode) (selection : Selection) (payment : Json) (stats : RunnerStats) (m : String)
      (status : ℕ) (body : Json) (reason : String)
      → Reaches (some mode) selection payment
      → calls.complete_purchase selection.product.product_id
          (apply_fraud hours_ago selection.assertion mode)
          payment
        ≡ agent_error m status body
      → reason_of status body ≡ ok reason
      → IsBlocked stats (run_once two_places hours_ago calls publisher_ids queries draws stats)
  unfolding run_once configured searched chosen concluded journey signed paid presented
      handle_failure record_reason
  refused-IsBlocked mode selection payment stats m status body reason r refused e =
      rw
        (
          r.has_publisher, r.has_query, r.drawn, r.finds, r.selects, r.challenged, r.signs, refused,
          e,
        )
        (record { returned = refl; started = refl; blocked = refl; settled = refl; failed = refl })

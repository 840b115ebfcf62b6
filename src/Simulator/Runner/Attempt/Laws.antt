-- ===== src/Simulator/Runner/Attempt/Laws.antt =====
-- What an attempt adds to the counters.
use agentic_attribution.Prelude.{
  ℕ, suc, ◌+◌, String, Option, none, some, Throws, ok, Exception, ◌≡◌, ◌≢◌,
}
use agentic_attribution.Js.Json.{Json, null, property}
use agentic_attribution.Simulator.Agent.{AttributionAssertion}
use agentic_attribution.Simulator.Fraud.{FraudMode}
use agentic_attribution.Simulator.Requests.{AgentResult, done, agent_error, thrown}
use agentic_attribution.Simulator.Runner.Attempt.{AgentCalls, RunnerStats, Attempt}

abbrev pub outcomes : RunnerStats → ℕ
outcomes stats = stats.settled + stats.blocked + stats.failed

abbrev pub escapes : Option Exception → ℕ
escapes none = 0
escapes (some e) = 1

-- One outcome is counted, or the attempt throws out of `runOnce`.
abbrev pub Accounts : RunnerStats → Attempt → Type 0
Accounts before a = outcomes a.stats + escapes a.escaped ≡ suc (outcomes before)

-- No sale is counted for a fraud, and no block without one.
abbrev pub Separates : Option FraudMode → RunnerStats → Attempt → Type 0
Separates none before a = a.stats.blocked ≡ before.blocked
Separates (some mode) before a = a.stats.settled ≡ before.settled

abbrev Fair : Option FraudMode → RunnerStats → Attempt → Type 0
Fair mode before a = Accounts before a × Separates mode before a

module _ (two_places : Option Json → Throws String) (hours_ago : ℕ → String) where
  -- A fulfillment that is not null, with amounts that have a text.
  pub record IsShown (fulfillment : Json) : Type 0 where
    pub not_null : fulfillment ≢ null
    pub earned : String
    pub earned_text : two_places (property fulfillment "publisher_commission_cents") ≡ ok earned
    pub amount : String
    pub amount_text : two_places (property fulfillment "amount_cents") ≡ ok amount

  abbrev pub Shows : AgentResult Json → Type 0
  Shows (done fulfillment) = IsShown fulfillment
  Shows (agent_error message status body) = Unit {0}
  Shows (thrown e) = Unit {0}

  -- The merchant answers a purchase with such a fulfillment, or refuses it.
  abbrev pub ShowsAll : AgentCalls → Type 0
  ShowsAll calls =
      (product_id : String) (assertion : AttributionAssertion) (payment : Json)
      → Shows (calls.complete_purchase product_id assertion payment)

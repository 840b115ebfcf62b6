-- ===== src/Simulator/Runner/Attempt.antt =====
-- simulator/src/runner.ts: one agent's journey, and what the runner counts of it.
pub mod Laws
pub mod Refused
use Prim.Native.String.{◌++◌}
use agentic_attribution.Prelude.{
  ℕ, suc, String, Bool, true, false, Option, none, some, List, [], ◌∷◌, Throws, ok, throw,
  Exception, type_error, str_eq, lookup, includes, if◌then◌else◌, ◌>>=◌,
}
use agentic_attribution.Js.Json.{Json, null, bool, num, str, arr, obj, property, read, value_text}
use agentic_attribution.Js.Decimal.{to_string}
use agentic_attribution.Js.Text.{trim}
use agentic_attribution.Types.Eip3009.{object_prototype_keys}
use agentic_attribution.Simulator.Agent.{
  AttributionAssertion, SearchResponse, Selection, select_cheapest_in_stock,
}
use agentic_attribution.Simulator.Fraud.{
  FraudMode, tampered_publisher, tampered_commission, expired, forged_signature, unknown_publisher,
  expected_rejection, apply_fraud, pick_fraud_mode, element,
}
use agentic_attribution.Simulator.Requests.{AgentResult, done, agent_error, thrown}
pub use agentic_attribution.Simulator.Runner.Stats.{
  Tally, counted, garbled, RunnerStats, empty_stats,
}
unfoldable pub use agentic_attribution.Simulator.Runner.Stats.{tallied, record_reason, reason_of}

-- The calls of an `Agent`, whichever network is behind them.
pub record AgentCalls : Type 0 where
  pub search : (query publisher_id : String) → AgentResult SearchResponse
  pub request_challenge : (product_id : String) → AgentResult Json
  pub sign_authorization : Json → AgentResult Json
  pub complete_purchase :
      (product_id : String) → AttributionAssertion → (payment : Json) → AgentResult Json

abbrev pub mode_text : FraudMode → String
mode_text tampered_publisher = "tampered_publisher"
mode_text tampered_commission = "tampered_commission"
mode_text expired = "expired"
mode_text forged_signature = "forged_signature"
mode_text unknown_publisher = "unknown_publisher"

-- The statistics after an attempt, and what the attempt threw, where it threw out of `runOnce`.
pub record Attempt : Type 0 where
  pub stats : RunnerStats
  pub escaped : Option Exception

abbrev ended : RunnerStats → Attempt
ended stats = record { stats = stats; escaped = none }

blocked_event : FraudMode → (publisher_id reason : String) → String
blocked_event mode publisher_id reason =
    if str_eq reason (expected_rejection mode)
    then "blocked " ++ mode_text mode ++ " on " ++ publisher_id ++ " (" ++ reason ++ ")"
    else "blocked "
      ++ mode_text mode
      ++ " on "
      ++ publisher_id
      ++ ", expected "
      ++ expected_rejection mode
      ++ " got "
      ++ reason

-- `#handleFailure`; the reason is read before anything is counted.
handle_failure : Throws String → Option FraudMode → (publisher_id : String) → RunnerStats → Attempt
unfolding blocked_event record_reason
handle_failure (throw e) mode publisher_id stats = record { stats = stats; escaped = some e }
handle_failure (ok reason) (some mode) publisher_id stats =
    ended (record (record_reason reason (record stats { blocked = suc stats.blocked })) {
      last_event = blocked_event mode publisher_id reason;
    })
handle_failure (ok reason) none publisher_id stats =
    ended (record (record_reason reason (record stats { failed = suc stats.failed })) {
      last_event = "failed " ++ publisher_id ++ ": " ++ reason;
    })

-- What one run draws: two indices, whether `Math.random()` is below the fraud rate, and the mode.
pub record Draws : Type 0 where
  pub publisher : ℕ
  pub query : ℕ
  pub fraudulent : Bool
  pub mode : ℕ → ℕ

abbrev pub usable : Option String → Option String
usable none = none
usable (some s) = if str_eq s "" then none else some s

unconfigured : RunnerStats → RunnerStats
unconfigured stats = record stats {
  failed = suc stats.failed;
  last_event = "no publishers or queries configured";
}

unfoldable pub drawn_mode : Draws → Option FraudMode
drawn_mode draws = if draws.fraudulent then pick_fraud_mode draws.mode else none

-- `two_places` is the language's `(value / 100).toFixed(2)`, which throws on an object without a
-- primitive value; `hours_ago` is as `apply_fraud` has it.
module _ (two_places : Option Json → Throws String) (hours_ago : ℕ → String)
    (calls : AgentCalls) where
  presented : Option FraudMode → AttributionAssertion → AttributionAssertion
  unfolding apply_fraud
  presented none assertion = assertion
  presented (some mode) assertion = apply_fraud hours_ago assertion mode

  cents : Option Json → Throws String
  cents value = do amount ← two_places value; ok ("$" ++ amount)

  earned_event : (publisher_id : String) (fulfillment : Json) → Throws String
  unfolding cents
  earned_event publisher_id fulfillment = do
    earned ← read (some fulfillment) "publisher_commission_cents"
    earned_text ← cents earned
    amount ← read (some fulfillment) "amount_cents"
    amount_text ← cents amount
    ok (publisher_id ++ " earned " ++ earned_text ++ " on " ++ amount_text)

  -- The event is made out after the counting, and what it throws is thrown into the `catch`.
  settled_event : (publisher_id : String) → Throws String → RunnerStats → Attempt
  unfolding handle_failure
  settled_event publisher_id (throw e) stats =
      handle_failure (ok "transport_error") none publisher_id stats
  settled_event publisher_id (ok event) stats = ended (record stats { last_event = event })

  accepted_event :
      FraudMode → (publisher_id : String) → Throws (Option Json) → RunnerStats → Attempt
  unfolding handle_failure
  accepted_event mode publisher_id (throw e) stats =
      handle_failure (ok "transport_error") (some mode) publisher_id stats
  accepted_event mode publisher_id (ok settlement_id) stats = ended (record stats {
    last_event = "SECURITY: " ++ mode_text mode ++ " settled as " ++ value_text settlement_id;
  })

  -- Behind `completePurchase`: a fraud that went through is a failure of the platform.
  bought : Option FraudMode → (publisher_id : String) → Json → RunnerStats → Attempt
  unfolding settled_event earned_event accepted_event record_reason
  bought none publisher_id fulfillment stats =
      settled_event publisher_id (earned_event publisher_id fulfillment)
        (record stats { settled = suc stats.settled })
  bought (some mode) publisher_id fulfillment stats =
      accepted_event mode publisher_id (read (some fulfillment) "settlement_id") (
        record_reason ("accepted_fraud_" ++ mode_text mode)
          (record stats { failed = suc stats.failed }))

  concluded : Option FraudMode → (publisher_id : String) → AgentResult Json → RunnerStats → Attempt
  unfolding bought handle_failure reason_of
  concluded mode publisher_id (done fulfillment) stats = bought mode publisher_id fulfillment stats
  concluded mode publisher_id (agent_error message status body) stats =
      handle_failure (reason_of status body) mode publisher_id stats
  concluded mode publisher_id (thrown e) stats =
      handle_failure (ok "transport_error") mode publisher_id stats

  paid : Option FraudMode → Selection → AgentResult Json → AgentResult Json
  unfolding presented
  paid mode selection (done payment) =
      calls.complete_purchase selection.product.product_id (presented mode selection.assertion)
        payment
  paid mode selection (agent_error message status body) = agent_error message status body
  paid mode selection (thrown e) = thrown e

  signed : Option FraudMode → Selection → AgentResult Json → AgentResult Json
  unfolding paid
  signed mode selection (done requirements) =
      paid mode selection (calls.sign_authorization requirements)
  signed mode selection (agent_error message status body) = agent_error message status body
  signed mode selection (thrown e) = thrown e

  -- From the choice of an offer to the fulfillment.
  unfoldable pub journey : Option FraudMode → Selection → AgentResult Json
  unfolding signed
  journey mode selection =
      signed mode selection (calls.request_challenge selection.product.product_id)

  chosen :
      Option FraudMode → (publisher_id query : String) → Option Selection → RunnerStats → Attempt
  unfolding concluded journey
  chosen mode publisher_id query none stats = ended (record stats {
    failed = suc stats.failed;
    last_event = "no purchasable offer for \"" ++ query ++ "\"";
  })
  chosen mode publisher_id query (some selection) stats =
      concluded mode publisher_id (journey mode selection) stats

  searched :
      Option FraudMode
      → (publisher_id query : String) → AgentResult SearchResponse
      → RunnerStats
      → Attempt
  unfolding chosen handle_failure reason_of select_cheapest_in_stock
  searched mode publisher_id query (done results) stats =
      chosen mode publisher_id query (select_cheapest_in_stock results) stats
  searched mode publisher_id query (agent_error message status body) stats =
      handle_failure (reason_of status body) mode publisher_id stats
  searched mode publisher_id query (thrown e) stats =
      handle_failure (ok "transport_error") mode publisher_id stats

  configured : Draws → Option String → Option String → RunnerStats → Attempt
  unfolding searched drawn_mode unconfigured
  configured draws (some publisher_id) (some query) stats =
      searched (drawn_mode draws) publisher_id query (calls.search query publisher_id)
        (record stats { started = suc stats.started })
  configured draws none query stats = ended (unconfigured stats)
  configured draws (some publisher_id) none stats = ended (unconfigured stats)

  -- `runOnce`
  unfoldable pub run_once : (publisher_ids queries : List String) → Draws → RunnerStats → Attempt
  unfolding configured element
  run_once publisher_ids queries draws stats =
      configured draws (usable (element publisher_ids draws.publisher))
        (usable (element queries draws.query)) stats

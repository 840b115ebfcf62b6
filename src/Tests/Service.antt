-- ===== src/Tests/Service.antt =====
-- The facilitator as a process: what it keeps between requests.
use agentic_attribution.Prelude.{true, some, none, lookup, [], ◌∷◌, ◌≡◌, refl, inr}
use agentic_attribution.Js.Json.{str}
use agentic_attribution.Facilitator.Ledger.{has}
use agentic_attribution.Facilitator.Handler.{not_found}
use agentic_attribution.Facilitator.Handler.Nonces.{run}
use agentic_attribution.Facilitator.Handler.History.{here, run-has_iff}
use agentic_attribution.Facilitator.Server
use agentic_attribution.Facilitator.Server.{
  Arrival, handled, fault_injection_enabled, initial_state, read_json, serve,
}
use agentic_attribution.Facilitator.Server.Laws.{injection_stays_off}
use agentic_attribution.Tests.Fixtures.{chain, request_with, fresh}
use agentic_attribution.Tests.Edge.{platform}
use agentic_attribution.Tests.Facilitator.{first, first-Settles, running}

abbrev settling : Arrival
settling = record { method = "POST"; url = "/settle"; stream = (b'S' ∷ []) ∷ []; clock = 5000 }

abbrev arming : Arrival
arming = record { method = "POST"; url = "/fault"; stream = []; clock = 5000 }

settled_test :
    (Server.run platform chain
      (initial_state platform [])
      (settling ∷ settling ∷ [])).0.nonces.consumed
    ≡ some (str "0xab") ∷ []
unfolding Server.run initial_state running lookup
settled_test = refl

injection_stays_off_example :
    let s = (Server.run platform chain (initial_state platform []) (settling ∷ [])).0 in
    let served = serve platform chain s arming in
    (s.fault ≡ none)
    × (served.status ≡ 404)
    × (served.body ≡ handled not_found)
    × (served.state ≡ s)
unfolding fault_injection_enabled lookup
injection_stays_off_example = injection_stays_off platform chain [] (settling ∷ []) arming refl refl

run-has_iff_example : has (run chain fresh (first ∷ [])).0.nonces (some (str "0xab")) ≡ true
unfolding running
run-has_iff_example =
    (run-has_iff chain "0xab" fresh (first ∷ [])).1
      (inr (here fresh first [] (request_with "0xab") first-Settles refl))

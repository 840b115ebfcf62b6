-- ===== src/Facilitator/Handler/Faults.antt =====
-- Injected faults: the control that is hidden, and what an armed fault answers.
use agentic_attribution.Prelude.{ℕ, String, false, none, some, ok, ◌≡◌, refl, arith, str_eq, []}
use agentic_attribution.Js.Json.{Json}
use agentic_attribution.Facilitator.Verify.{Chain}
use agentic_attribution.Facilitator.Handler.{
  verify_rejects, settle_fails, unavailable, FacilitatorState, respond, FacilitatorResponse,
  facilitator_unavailable, injected_invalid, injected_failure, fault_route, health_route,
  verify_route, settle_route, injected, handle,
}

-- A path that no route has.
pub record IsUnknown (path : String) : Type 0 where
  pub not_health : str_eq path health_route ≡ false
  pub not_fault : str_eq path fault_route ≡ false
  pub not_verify : str_eq path verify_route ≡ false
  pub not_settle : str_eq path settle_route ≡ false

-- Where fault injection is off, `/fault` answers every method and every body exactly as a path that
-- no route has: with the same answer, the same state and no settlement.
pub fault_route_hidden :
    (chain : Chain) (s : FacilitatorState) (method path : String) (body other : Json) (clock : ℕ)
    → s.fault ≡ none
    → IsUnknown path
    → handle chain s method fault_route body clock ≡ handle chain s method path other clock
unfolding handle
fault_route_hidden chain s method path body other clock off u =
    rw (off, u.not_health, u.not_fault, u.not_verify, u.not_settle) (ground arith)

-- An armed fault that answers a path answers it before anything is checked: every method and body
-- gets the injected answer, nothing is settled and the state stays. (Only `GET /healthz` and the
-- fault control itself come first.)
pub armed_fault_answers :
    (chain : Chain) (s : FacilitatorState) (method path : String) (body : Json) (clock : ℕ)
    (response : FacilitatorResponse)
    → str_eq path health_route ≡ false
    → str_eq path fault_route ≡ false
    → injected s.fault path ≡ some response
    → handle chain s method path body clock
      ≡ record { reply = ok response; state = s; settlements = [] }
unfolding handle
armed_fault_answers chain s method path body clock response h f armed =
    rw (armed, h, f) (ground arith)

-- The two routes that move money or vouch for it, under each armed fault.
pub injected-cases :
    (injected (some unavailable) verify_route ≡ some (respond 503 facilitator_unavailable))
    × (injected (some unavailable) settle_route ≡ some (respond 503 facilitator_unavailable))
    × (injected (some verify_rejects) verify_route ≡ some (respond 200 injected_invalid))
    × (injected (some verify_rejects) settle_route ≡ none)
    × (injected (some settle_fails) verify_route ≡ none)
    × (injected (some settle_fails) settle_route ≡ some (respond 200 injected_failure))
unfolding injected
injected-cases = (refl, refl, refl, refl, refl, refl)

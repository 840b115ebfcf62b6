-- ===== src/Facilitator/Server/Laws.antt =====
-- What holds of a facilitator's state for as long as its process runs.
use agentic_attribution.Prelude.{
  String, false, none, List, [], ◌∷◌, Throws, ok, throw, ◌≡◌, refl, str_eq, if◌then◌else◌,
}
use agentic_attribution.Js.Json.{Json, null}
use agentic_attribution.Platform.{Platform}
use agentic_attribution.Facilitator.Verify.{Chain}
use agentic_attribution.Facilitator.Handler.{
  FacilitatorState, FacilitatorResponse, Handled, respond, not_found, fault_route, handle,
}
use agentic_attribution.Facilitator.Handler.State.{handle-fault_off, handle-hidden}
use agentic_attribution.Facilitator.Server.{
  Arrival, handled, answered, fault_injection_enabled, initial_state, read_json, serve, run,
}

module _ {Key : Type 0} (platform : Platform Key) (chain : Chain) where
  abbrev body_of : Arrival → Json
  body_of a = if str_eq a.method "POST" then read_json platform a.stream else null

  answered-state : (h : Handled) (r : Throws FacilitatorResponse) → (answered h r).state ≡ h.state
  unfolding answered
  answered-state h (ok response) = refl
  answered-state h (throw e) = refl

  serve-state :
      (s : FacilitatorState) (a : Arrival)
      → (serve platform chain s a).state ≡ (handle chain s a.method a.url (body_of a) a.clock).state
  unfolding serve
  serve-state s a =
      let h = handle chain s a.method a.url (body_of a) a.clock in answered-state h h.reply

  run-fault_off :
      (s : FacilitatorState) (arrivals : List Arrival)
      → s.fault ≡ none
      → (run platform chain s arrivals).0.fault ≡ none
  unfolding run
  run-fault_off s [] off = off
  run-fault_off s (a ∷ arrivals) off =
      run-fault_off (serve platform chain s a).state arrivals
        (rw (serve-state s a) (handle-fault_off chain s a.method a.url (body_of a) a.clock off))

  serve-hidden :
      (s : FacilitatorState) (a : Arrival)
      → handle chain s a.method a.url (body_of a) a.clock
        ≡ record { reply = ok (respond 404 not_found); state = s; settlements = [] }
      → let served = serve platform chain s a in
        (served.status ≡ 404) × (served.body ≡ handled not_found) × (served.state ≡ s)
  unfolding serve answered
  serve-hidden s a e = rw e (refl, refl, refl)

  -- A process that was started without fault injection cannot be brought to inject a fault: after
  -- any requests none is armed, and `/fault` answers 404 to every method and body.
  pub injection_stays_off :
      (env : List (String × String)) (arrivals : List Arrival) (a : Arrival)
      → fault_injection_enabled platform env ≡ false
      → a.url ≡ fault_route
      → let s = (run platform chain (initial_state platform env) arrivals).0 in
        let served = serve platform chain s a in
        (s.fault ≡ none)
        × (served.status ≡ 404)
        × (served.body ≡ handled not_found)
        × (served.state ≡ s)
  unfolding initial_state
  injection_stays_off env arrivals a off at_fault =
      let s = (run platform chain (initial_state platform env) arrivals).0 in
      let o : s.fault ≡ none = run-fault_off (initial_state platform env) arrivals (rw off refl) in
      let e : handle chain s a.method a.url (body_of a) a.clock
          ≡ record { reply = ok (respond 404 not_found); state = s; settlements = [] } =
        rw at_fault (handle-hidden chain s a.method (body_of a) a.clock o) in
      let (status, body, kept) = serve-hidden s a e in (o, status, body, kept)

-- ===== src/Facilitator/Handler/State.antt =====
-- What a request leaves true of the state: injection that is off.
use agentic_attribution.Prelude.{
  ℕ, String, ◌&&◌, Option, none, some, [], Throws, ok, throw, ◌≡◌, inl, inr, refl, ◌∙◌, arith,
  str_eq, Bool-cases,
}
use agentic_attribution.Js.Json.{Json}
use agentic_attribution.Js.Integer.{ℤ}
use agentic_attribution.Facilitator.Verify.{Chain, VerifyOutcome, valid, invalid}
use agentic_attribution.Facilitator.Ledger.{claim}
use agentic_attribution.Facilitator.Request.{accepted, refused, Validation, FacilitatorRequest}
use agentic_attribution.Facilitator.Handler.{
  FacilitatorState, FacilitatorResponse, respond, not_found, health_route, fault_route, now_seconds,
  settle_claimed, settle, verify_or_settle, process, route, handle_fault, handle,
}

module _ (chain : Chain) where
  settle-fault :
      (s : FacilitatorState) (r : FacilitatorRequest) (outcome : VerifyOutcome)
      → (settle chain s r outcome).state.fault ≡ s.fault
  unfolding settle settle_claimed claim
  settle-fault s r (invalid reason) = refl
  settle-fault s r (valid payer) = ground arith

  verify_or_settle-fault :
      (s : FacilitatorState) (path : String) (r : FacilitatorRequest) (v : Throws VerifyOutcome)
      → (verify_or_settle chain s path r v).state.fault ≡ s.fault
  unfolding verify_or_settle
  verify_or_settle-fault s path r (throw e) = refl
  verify_or_settle-fault s path r (ok outcome) = ground (arith, settle-fault s r outcome)

  process-fault :
      (s : FacilitatorState) (path : String) (v : Validation FacilitatorRequest) (now : ℤ)
      → (process chain s path v now).state.fault ≡ s.fault
  unfolding process
  process-fault s path (refused problem) now = refl
  process-fault s path (accepted r) now = verify_or_settle-fault s path r _

  route-fault :
      (s : FacilitatorState) (method path : String) (body : Json) (now : ℤ)
      (fault : Option FacilitatorResponse)
      → (route chain s method path body now fault).state.fault ≡ s.fault
  unfolding route
  route-fault s method path body now (some response) = refl
  route-fault s method path body now none = ground (arith, process-fault s path _ now)

  -- Nothing arms a fault where injection is off.
  pub handle-fault_off :
      (s : FacilitatorState) (method path : String) (body : Json) (clock : ℕ)
      → s.fault ≡ none
      → (handle chain s method path body clock).state.fault ≡ none
  unfolding handle handle_fault
  handle-fault_off s method path body clock off =
      elim (Bool-cases (str_eq method "GET" && str_eq path health_route)) [
        | inl healthy ↦ rw healthy off
        | inr other ↦ elim (Bool-cases (str_eq path fault_route)) [
          | inl f ↦ rw (other, f, off) refl
          | inr n ↦ rw (other, n) (route-fault s method path body (now_seconds clock) _ ∙ off)
        ]
      ]

  pub handle-hidden :
      (s : FacilitatorState) (method : String) (body : Json) (clock : ℕ)
      → s.fault ≡ none
      → handle chain s method fault_route body clock
        ≡ record { reply = ok (respond 404 not_found); state = s; settlements = [] }
  unfolding handle handle_fault
  handle-hidden s method body clock off = rw off (ground arith)

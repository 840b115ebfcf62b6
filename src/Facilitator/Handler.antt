-- ===== src/Facilitator/Handler.antt =====
-- facilitator/src/handler.ts: routing, injected faults, settlement and replay.
pub mod Laws
pub mod Nonces
pub mod Liveness
pub mod Faults
pub mod Respelling
pub mod State
pub mod History
use agentic_attribution.Prelude.{
  ℕ, ◌+◌, ◌*◌, ◌/◌, String, Bool, true, false, not, ◌&&◌, ◌||◌, Option, none, some, List, [], ◌∷◌,
  ◌++◌, Throws, ok, throw, str_eq, ltb, length, if◌then◌else◌,
}
use mathlib.Core.Option
use agentic_attribution.Js.Json.{Json, str, as_string, property, else_text}
use agentic_attribution.Js.Integer.{ℤ, pos}
use agentic_attribution.Facilitator.Verify.{
  VerifyOutcome, valid, invalid, reason_text, Chain, verify_payment, simulated_transaction_hash,
}
use agentic_attribution.Facilitator.Ledger.{NonceLedger, claim}
use agentic_attribution.Facilitator.Request.{
  accepted, refused, Validation, FacilitatorRequest, validate_request,
}

abbrev pub max_body_bytes : ℕ
max_body_bytes = 64 * 1024

abbrev pub verify_route : String
verify_route = "/verify"

abbrev pub settle_route : String
settle_route = "/settle"

abbrev pub health_route : String
health_route = "/healthz"

abbrev pub fault_route : String
fault_route = "/fault"

pub data FaultMode : Type 0 where
  no_fault verify_rejects settle_fails unavailable : FaultMode

-- `Object.values(FAULT).includes(requested)`, with the mode that it names.
abbrev pub fault_mode : Option String → Option FaultMode
fault_mode none = none
fault_mode (some s) =
    if str_eq s "none"
    then some no_fault
    else if str_eq s "verify_rejects"
    then some verify_rejects
    else if str_eq s "settle_fails"
    then some settle_fails
    else if str_eq s "unavailable"
    then some unavailable
    else none

-- What `handle` keeps between calls: `options.nonces` and `options.fault`, absent where fault
-- injection is off.
pub record FacilitatorState : Type 0 where
  pub nonces : NonceLedger
  pub fault : Option FaultMode

pub record SettlementRecord : Type 0 where
  pub payer : Json
  pub to : Option Json
  pub value : Option Json
  pub transaction : String

pub data Body : Type 0 where
  health : Option FaultMode → Body
  not_found : Body
  mode : FaultMode → Body
  unknown_fault_mode : Body
  facilitator_unavailable : Body
  injected_invalid : Body
  injected_failure : Body
  malformed_request : String → Body
  verification : VerifyOutcome → Body
  settlement_failed : (error_reason : String) → Body
  settled : (transaction : String) (network payer : Option Json) → Body

pub record FacilitatorResponse : Type 0 where
  pub status : ℕ
  pub body : Body

-- A call of `handle`: what it answers or throws, the state after it, and the calls of `onSettled`.
pub record Handled : Type 0 where
  pub reply : Throws FacilitatorResponse
  pub state : FacilitatorState
  pub settlements : List SettlementRecord

abbrev pub respond : ℕ → Body → FacilitatorResponse
respond status body = record { status = status; body = body }

abbrev answer : ℕ → Body → FacilitatorState → Handled
answer status body s = record { reply = ok (respond status body); state = s; settlements = [] }

-- `nowSeconds`, of a clock in milliseconds.
abbrev pub now_seconds : ℕ → ℤ
now_seconds clock = pos (clock / 1000)

set_fault : FacilitatorState → Option FaultMode → Handled
set_fault s none = answer 400 unknown_fault_mode s
set_fault s (some requested) = answer 200 (mode requested) (record s { fault = some requested })

handle_fault : String → Json → FacilitatorState → Option FaultMode → Handled
unfolding set_fault
handle_fault method body s none = answer 404 not_found s
handle_fault method body s (some armed) =
    if str_eq method "GET"
    then answer 200 (mode armed) s
    else if str_eq method "POST"
    then set_fault s (fault_mode (as_string (property body "mode")))
    else answer 404 not_found s

-- What an armed fault answers.
unfoldable pub injected : Option FaultMode → String → Option FacilitatorResponse
injected none path = none
injected (some no_fault) path = none
injected (some unavailable) path = some (respond 503 facilitator_unavailable)
injected (some verify_rejects) path =
    if str_eq path verify_route then some (respond 200 injected_invalid) else none
injected (some settle_fails) path =
    if str_eq path settle_route then some (respond 200 injected_failure) else none

module _ (chain : Chain) where
  -- The nonce is claimed behind every check.
  settle_claimed :
      FacilitatorState → FacilitatorRequest → (payer : Option Json) → NonceLedger × Bool → Handled
  settle_claimed s request payer (ledger, false) =
      answer 200 (settlement_failed "nonce_already_used") (record s { nonces = ledger })
  settle_claimed s request payer (ledger, true) =
      let transaction = simulated_transaction_hash chain request.authorization in
      record {
        reply =
            ok (
              respond 200 (settled transaction (property request.payment_payload "network") payer));
        state = record s { nonces = ledger };
        settlements =
            record {
              payer = else_text payer "";
              to = property request.authorization "to";
              value = property request.authorization "value";
              transaction = transaction;
            }
            ∷ [];
      }

  settle : FacilitatorState → FacilitatorRequest → VerifyOutcome → Handled
  unfolding settle_claimed
  settle s request (invalid reason) = answer 200 (settlement_failed (reason_text reason)) s
  settle s request (valid payer) =
      settle_claimed s request payer (claim s.nonces (property request.authorization "nonce"))

  verify_or_settle :
      FacilitatorState → (path : String) → FacilitatorRequest → Throws VerifyOutcome → Handled
  unfolding settle
  verify_or_settle s path request (throw e) = record {
    reply = throw e;
    state = s;
    settlements = [];
  }
  verify_or_settle s path request (ok outcome) =
      if str_eq path verify_route
      then answer 200 (verification outcome) s
      else settle s request outcome

  process : FacilitatorState → (path : String) → Validation FacilitatorRequest → (now : ℤ) → Handled
  unfolding verify_or_settle
  process s path (refused problem) now = answer 400 (malformed_request problem) s
  process s path (accepted request) now = verify_or_settle s path request (
      verify_payment chain request.payment_payload request.authorization
        request.payment_requirements now)

  route :
      FacilitatorState
      → (method path : String) → Json
      → (now : ℤ) → Option FacilitatorResponse
      → Handled
  unfolding process
  route s method path body now (some response) = record {
    reply = ok response;
    state = s;
    settlements = [];
  }
  route s method path body now none =
      if not (str_eq method "POST")
        || (not (str_eq path verify_route) && not (str_eq path settle_route))
      then answer 404 not_found s
      else process s path (validate_request body) now

  unfoldable pub handle :
      FacilitatorState → (method path : String) → (body : Json) → (clock : ℕ) → Handled
  unfolding route handle_fault injected
  handle s method path body clock =
      if str_eq method "GET" && str_eq path health_route
      then answer 200 (health s.fault) s
      else if str_eq path fault_route
      then handle_fault method body s s.fault
      else route s method path body (now_seconds clock) (injected s.fault path)

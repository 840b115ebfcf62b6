-- ===== src/Facilitator/Server.antt =====
-- facilitator/src/index.ts: the server round the handler, its body reader and its state at startup.
pub mod Laws
use agentic_attribution.Prelude.{
  ℕ, String, Bool, true, false, Option, none, some, List, [], ◌∷◌, ◌++◌, Throws, ok, throw, str_eq,
  lookup, if◌then◌else◌,
}
use agentic_attribution.Js.Json.{Json, null}
use agentic_attribution.Js.Text.{trim}
use agentic_attribution.Js.Stream.{collect}
use agentic_attribution.Platform.{Platform}
use agentic_attribution.Facilitator.Verify.{Chain}
use agentic_attribution.Facilitator.Ledger.{empty}
use agentic_attribution.Facilitator.Handler.{
  no_fault, Body, FacilitatorState, FacilitatorResponse, SettlementRecord, Handled, max_body_bytes,
  handle,
}

pub data ServerBody : Type 0 where
  handled : Body → ServerBody
  facilitator_error : ServerBody

-- A request as it reaches the server: `req.method`, `req.url`, the chunks of its body, and the clock.
pub record Arrival : Type 0 where
  pub method : String
  pub url : String
  pub stream : List (List ℕ)
  pub clock : ℕ

-- One request as the server answers it: the answer, the state after it and the calls of `onSettled`.
pub record Served : Type 0 where
  pub status : ℕ
  pub body : ServerBody
  pub state : FacilitatorState
  pub settlements : List SettlementRecord

-- The server's `catch`: the answer names nothing of what was thrown.
answered : Handled → Throws FacilitatorResponse → Served
answered h (ok response) = record {
  status = response.status;
  body = handled response.body;
  state = h.state;
  settlements = h.settlements;
}
answered h (throw e) = record {
  status = 500;
  body = facilitator_error;
  state = h.state;
  settlements = h.settlements;
}

module _ {Key : Type 0} (platform : Platform Key) where
  open platform use {parse_json, buffer_text, to_lower_case}

  -- `faultInjectionEnabled`, of the environment.
  unfoldable pub fault_injection_enabled : List (String × String) → Bool
  fault_injection_enabled env = elim (lookup "FACILITATOR_FAULT_INJECTION" env) [
    | none ↦ false
    | some value ↦ str_eq (to_lower_case (trim value)) "true"
  ]

  -- `nonces` and `fault` when the process starts.
  unfoldable pub initial_state : List (String × String) → FacilitatorState
  unfolding fault_injection_enabled
  initial_state env = record {
    nonces = empty;
    fault = if fault_injection_enabled env then some no_fault else none;
  }

  -- `readJson`: null where the body is too large or no JSON.
  unfoldable pub read_json : List (List ℕ) → Json
  unfolding collect
  read_json stream = elim (collect max_body_bytes 0 [] stream) [
    | none ↦ null
    | some bytes ↦ elim (parse_json (buffer_text bytes)) [ none ↦ null | some body ↦ body ]
  ]

  module _ (chain : Chain) where
    unfoldable pub serve : FacilitatorState → Arrival → Served
    unfolding answered read_json handle
    serve s a =
        let body = if str_eq a.method "POST" then read_json a.stream else null in
        let h = handle chain s a.method a.url body a.clock in answered h h.reply

    -- The requests of a process, one after another.
    unfoldable pub run : FacilitatorState → List Arrival → FacilitatorState × List SettlementRecord
    unfolding serve
    run s [] = (s, [])
    run s (a ∷ arrivals) =
        let served = serve s a in
        let (s', later) = run served.state arrivals in (s', served.settlements ++ later)

-- ===== src/Facilitator/Handler/Liveness.antt =====
-- A payment that should settle does.
use agentic_attribution.Prelude.{ℕ, false, Option, none, ◌≡◌, arith}
use agentic_attribution.Js.Json.{Json, property}
use agentic_attribution.Js.Integer.{ℤ}
use agentic_attribution.Facilitator.Verify.{valid, Chain}
use agentic_attribution.Facilitator.Verify.Laws.{IsPayable, verify_payment-valid_iff}
use agentic_attribution.Facilitator.Ledger.{has, claim}
use agentic_attribution.Facilitator.Request.{accepted, FacilitatorRequest, validate_request}
use agentic_attribution.Facilitator.Handler.{
  FacilitatorState, settle_route, now_seconds, injected, settle, handle,
}
use agentic_attribution.Facilitator.Handler.Laws.{Settles}

module _ (chain : Chain) (s : FacilitatorState) (r : FacilitatorRequest) where
  settle-Settles :
      (now : ℤ) (payer : Option Json)
      → IsPayable chain r.payment_payload r.authorization r.payment_requirements now payer
      → has s.nonces (property r.authorization "nonce") ≡ false
      → Settles chain s r now (settle chain s r (valid payer))
  unfolding settle claim
  settle-Settles now payer p new = record {
    payer = payer;
    payable = p;
    fresh = new;
    claimed = ground (arith, new);
    recorded = ground (arith, new);
    answered = ground (arith, new);
    fault_kept = ground (arith, new);
  }

  -- A POST to `/settle` whose body validates, whose payment is valid at the clock's second and whose
  -- nonce is fresh settles, unless a fault is armed that answers this route.
  pub handle-Settles :
      (body : Json) (clock : ℕ) (payer : Option Json)
      → injected s.fault settle_route ≡ none
      → validate_request body ≡ accepted r
      → IsPayable chain r.payment_payload r.authorization r.payment_requirements
          (now_seconds clock)
          payer
      → has s.nonces (property r.authorization "nonce") ≡ false
      → Settles chain s r (now_seconds clock) (handle chain s "POST" settle_route body clock)
  unfolding handle
  handle-Settles body clock payer calm v p new =
      rw
        (
          calm,
          v,
          (verify_payment-valid_iff chain r.payment_payload r.authorization r.payment_requirements
                (now_seconds clock) payer).1
              p,
        )
        (settle-Settles (now_seconds clock) payer p new)

-- ===== src/Facilitator/Handler/Laws.antt =====
-- What one request does to the facilitator: which requests settle, what the others leave alone.
use agentic_attribution.Prelude.{
  ℕ, String, Bool, false, not, Option, none, some, [], ◌∷◌, Throws, ok, throw, ◌≡◌, ◌⊎◌, inl, inr,
  refl, arith, str_eq, eq_iff, Bool-cases, sym, ◌&&◌, ◌||◌,
}
use agentic_attribution.Js.Json.{else_text, Json, property}
use agentic_attribution.Js.Integer.{ℤ}
use agentic_attribution.Facilitator.Verify.{
  VerifyOutcome, valid, invalid, Chain, verify_payment, simulated_transaction_hash,
}
use agentic_attribution.Facilitator.Verify.Laws.{IsPayable, verify_payment-valid_iff}
use agentic_attribution.Facilitator.Ledger.{has, claim}
use agentic_attribution.Facilitator.Request.{
  Validation, accepted, refused, FacilitatorRequest, validate_request,
}
use agentic_attribution.Facilitator.Handler.{
  FaultMode, FacilitatorState, FacilitatorResponse, Handled, respond, settled, verify_route,
  settle_route, health_route, fault_route, now_seconds, handle_fault, injected, settle,
  verify_or_settle, process, route, handle,
}

-- Nothing was settled, and no nonce was claimed.
pub record Rests (s : FacilitatorState) (h : Handled) : Type 0 where
  pub no_settlement : h.settlements ≡ []
  pub nonces_kept : h.state.nonces ≡ s.nonces

-- The guard of `handle` that refuses a method or a route.
abbrev routed : String → String → Bool
routed method path =
    not (str_eq method "POST") || (not (str_eq path verify_route) && not (str_eq path settle_route))

module _ (chain : Chain) where
  -- The request was settled: its payment is valid, its nonce was fresh and is now claimed, one
  -- settlement is recorded and answered with its transaction.
  pub record Settles (s : FacilitatorState) (r : FacilitatorRequest) (now : ℤ) (h : Handled)
      : Type 0 where
    pub payer : Option Json
    pub payable : IsPayable chain r.payment_payload r.authorization r.payment_requirements now payer
    pub fresh : has s.nonces (property r.authorization "nonce") ≡ false
    pub claimed : h.state.nonces.consumed ≡ property r.authorization "nonce" ∷ s.nonces.consumed
    pub fault_kept : h.state.fault ≡ s.fault
    pub recorded :
        h.settlements
        ≡ record {
          payer = else_text payer "";
          to = property r.authorization "to";
          value = property r.authorization "value";
          transaction = simulated_transaction_hash chain r.authorization;
        }
          ∷ []
    pub answered :
        h.reply
        ≡ ok (
            respond 200 (
              settled
                (simulated_transaction_hash chain r.authorization)
                (property r.payment_payload "network")
                payer))

  module _ (s : FacilitatorState) (r : FacilitatorRequest) (now : ℤ) where
    settle-cases :
        (payer : Option Json)
        → IsPayable chain r.payment_payload r.authorization r.payment_requirements now payer
        → Settles s r now (settle chain s r (valid payer))
          ⊎ Rests s (settle chain s r (valid payer))
    unfolding settle claim
    settle-cases payer p = elim (Bool-cases (has s.nonces (property r.authorization "nonce"))) [
      | inl used ↦ inr (ground (arith, used))
      | inr new ↦ inl (record {
        payer = payer;
        payable = p;
        fresh = new;
        claimed = ground (arith, new);
        recorded = ground (arith, new);
        answered = ground (arith, new);
        fault_kept = ground (arith, new);
      })
    ]

    verify_or_settle-cases :
        (path : String) (o : Throws VerifyOutcome)
        → o ≡ verify_payment chain r.payment_payload r.authorization r.payment_requirements now
        → ((str_eq path verify_route ≡ false) × Settles s r now (verify_or_settle chain s path r o))
          ⊎ Rests s (verify_or_settle chain s path r o)
    unfolding verify_or_settle
    verify_or_settle-cases path (throw e) h = inr (ground arith)
    verify_or_settle-cases path (ok (invalid reason)) h = inr (ground arith)
    verify_or_settle-cases path (ok (valid payer)) h =
        elim (Bool-cases (str_eq path verify_route)) [
          | inl only_verify ↦ inr (ground (arith, only_verify))
          | inr settling ↦
              elim (settle-cases payer (
                (verify_payment-valid_iff chain r.payment_payload r.authorization
                    r.payment_requirements now payer).0
                  (sym h))) [
                    | inl done ↦ inl (settling, rw settling done)
                    | inr rests ↦ inr (rw settling rests)
                  ]
        ]

  -- The request that settles is a POST to `/settle` with this body.
  pub record SettlesBody (s : FacilitatorState) (method path : String) (body : Json) (now : ℤ)
      (h : Handled) : Type 0 where
    pub request : FacilitatorRequest
    pub validated : validate_request body ≡ accepted request
    pub posted : method ≡ "POST"
    pub on_route : path ≡ settle_route
    pub settles : Settles s request now h

  process-cases :
      (s : FacilitatorState) (path : String) (body : Json) (now : ℤ)
      (v : Validation FacilitatorRequest)
      → v ≡ validate_request body
      → ((r : FacilitatorRequest) × (validate_request body ≡ accepted r)
          × (str_eq path verify_route ≡ false)
          × Settles s r now (process chain s path v now))
        ⊎ Rests s (process chain s path v now)
  unfolding process
  process-cases s path body now (refused problem) e = inr (ground arith)
  process-cases s path body now (accepted r) e =
      elim (verify_or_settle-cases s r now path
        (verify_payment chain r.payment_payload r.authorization r.payment_requirements now) refl) [
          | inl (settling, done) ↦ inl (r, sym e, settling, done)
          | inr rests ↦ inr rests
        ]

  route-cases :
      (s : FacilitatorState) (method path : String) (body : Json) (now : ℤ)
      (fault : Option FacilitatorResponse)
      → SettlesBody s method path body now (route chain s method path body now fault)
        ⊎ Rests s (route chain s method path body now fault)
  unfolding route
  route-cases s method path body now (some response) = inr (ground arith)
  route-cases s method path body now none = elim (Bool-cases (routed method path)) [
    | inl off ↦ inr (rw off (record { no_settlement = refl; nonces_kept = refl }))
    | inr on ↦ elim (process-cases s path body now (validate_request body) refl) [
      | inl (r, v, settling, done) ↦ inl (record {
        request = r;
        validated = v;
        posted = ground (arith, eq_iff method "POST");
        on_route = ground (arith, eq_iff path settle_route);
        settles = rw on done;
      })
      | inr rests ↦ inr (rw on rests)
    ]
  ]

  handle_fault-Rests :
      (method : String) (body : Json) (s : FacilitatorState) (fault : Option FaultMode)
      → Rests s (handle_fault method body s fault)
  unfolding handle_fault
  handle_fault-Rests method body s none = ground arith
  handle_fault-Rests method body s (some armed) = ground arith

  -- A request either settles, as a POST to `/settle` whose body validates, whose payment is valid and
  -- whose nonce is fresh, or it settles nothing and claims no nonce.
  pub handle-cases :
      (s : FacilitatorState) (method path : String) (body : Json) (clock : ℕ)
      → SettlesBody s method path body (now_seconds clock) (handle chain s method path body clock)
        ⊎ Rests s (handle chain s method path body clock)
  unfolding handle
  handle-cases s method path body clock =
      elim (Bool-cases (str_eq method "GET" && str_eq path health_route)) [
        | inl healthy ↦ inr (rw healthy (record { no_settlement = refl; nonces_kept = refl }))
        | inr other ↦ elim (Bool-cases (str_eq path fault_route)) [
          | inl f ↦ inr (rw (other, f) (handle_fault-Rests method body s s.fault))
          | inr n ↦
              rw (other, n)
                (route-cases s method path body (now_seconds clock) (injected s.fault path))
        ]
      ]

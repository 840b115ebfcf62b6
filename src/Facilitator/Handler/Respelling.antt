-- ===== src/Facilitator/Handler/Respelling.antt =====
-- A nonce is 32 bytes, and its text spells them in hexadecimal, in letters of either case. The
-- ledger compares texts.
use text.Mathlib.Text.{starts_with}
use agentic_attribution.Prelude.{
  ℕ, String, true, false, Option, none, some, ◌≡◌, ◌≢◌, sym, ◌∙◌, arith, eq_iff,
}
use agentic_attribution.Js.Json.{Json, str, property, strict_equal}
use agentic_attribution.Js.Integer.{ℤ}
use agentic_attribution.Types.Eip3009.{Eip712Domain, Eip3009Message}
use agentic_attribution.Facilitator.Verify.{Chain}
use agentic_attribution.Facilitator.Verify.Laws.{IsPayable}
use agentic_attribution.Facilitator.Ledger.{has}
use agentic_attribution.Facilitator.Request.{accepted, FacilitatorRequest, validate_request}
use agentic_attribution.Facilitator.Handler.{
  FacilitatorState, settle_route, now_seconds, injected, handle,
}
use agentic_attribution.Facilitator.Handler.Laws.{Settles}
use agentic_attribution.Facilitator.Handler.Liveness.{handle-Settles}

module _ (chain : Chain) where
  -- Two requests that are alike in all that verification reads, but spell the nonce as `n` and `k`.
  pub record Respells (r q : FacilitatorRequest) (n k : String) : Type 0 where
    pub requirements : q.payment_requirements ≡ r.payment_requirements
    pub scheme : property q.payment_payload "scheme" ≡ property r.payment_payload "scheme"
    pub network : property q.payment_payload "network" ≡ property r.payment_payload "network"
    pub signature : property q.payment_payload "signature" ≡ property r.payment_payload "signature"
    pub from : property q.authorization "from" ≡ property r.authorization "from"
    pub to : property q.authorization "to" ≡ property r.authorization "to"
    pub value : property q.authorization "value" ≡ property r.authorization "value"
    pub valid_after : property q.authorization "validAfter" ≡ property r.authorization "validAfter"
    pub valid_before :
        property q.authorization "validBefore" ≡ property r.authorization "validBefore"
    pub nonce_r : property r.authorization "nonce" ≡ some (str n)
    pub nonce_q : property q.authorization "nonce" ≡ some (str k)
    pub prefix_n : starts_with n "0x" ≡ true
    pub prefix_k : starts_with k "0x" ≡ true
    pub same_bytes : chain.to_lower_case n ≡ chain.to_lower_case k

  -- viem encodes a nonce behind `0x` as bytes, so the case of its letters does not change the check.
  pub record ReadsBytes : Type 0 where
    pub any_case :
        (address : Option Json) (domain : Eip712Domain) (m : Eip3009Message)
        (signature : Option Json) (n k : String)
        → starts_with n "0x" ≡ true
        → starts_with k "0x" ≡ true
        → chain.to_lower_case n ≡ chain.to_lower_case k
        → m.nonce ≡ some (str n)
        → chain.verify_typed_data address domain (record m { nonce = some (str k) }) signature
          ≡ chain.verify_typed_data address domain m signature

  respelled-IsPayable :
      (r q : FacilitatorRequest) (n k : String) (now : ℤ) (payer : Option Json)
      → ReadsBytes
      → Respells r q n k
      → IsPayable chain r.payment_payload r.authorization r.payment_requirements now payer
      → IsPayable chain q.payment_payload q.authorization q.payment_requirements now payer
  respelled-IsPayable r q n k now payer b e p = record {
    payload_scheme = e.scheme ∙ p.payload_scheme;
    required_scheme = rw e.requirements p.required_scheme;
    network = rw (e.network, e.requirements) p.network;
    message = record p.message { nonce = some (str k) };
    reads = record {
      value = rw e.value p.reads.value;
      valid_after = rw e.valid_after p.reads.valid_after;
      valid_before = rw e.valid_before p.reads.valid_before;
      from = rw e.from p.reads.from;
      to = rw e.to p.reads.to;
      nonce = sym e.nonce_q;
    };
    domain = p.domain;
    has_domain = rw e.network p.has_domain;
    asset = rw e.requirements p.asset;
    payee = rw (e.to, e.requirements) p.payee;
    amount = rw e.requirements p.amount;
    started = p.started;
    unexpired = p.unexpired;
    signed = rw e.signature (
        b.any_case p.message.from p.domain p.message (property r.payment_payload "signature") n k
          e.prefix_n e.prefix_k e.same_bytes (p.reads.nonce ∙ e.nonce_r)
        ∙ p.signed);
    payer_is = p.payer_is;
  }

module _ (chain : Chain) (s : FacilitatorState) where
  has-other :
      (r : FacilitatorRequest) (body : Json) (clock : ℕ) (n k : String)
      → n ≢ k
      → property r.authorization "nonce" ≡ some (str n)
      → has s.nonces (some (str k)) ≡ false
      → Settles chain s r (now_seconds clock) (handle chain s "POST" settle_route body clock)
      → has (handle chain s "POST" settle_route body clock).state.nonces (some (str k)) ≡ false
  unfolding has strict_equal
  has-other r body clock n k other e new done = ground (arith, done.claimed, eq_iff n k)

  -- One signed authorization settles twice when it is sent again with its nonce in letters of the
  -- other case: after the first settlement the second request, still within the window, settles too.
  pub respelled_nonce_accepted :
      (r q : FacilitatorRequest) (first second : Json) (n k : String) (clock : ℕ)
      (payer : Option Json)
      → n ≢ k
      → ReadsBytes chain
      → Respells chain r q n k
      → injected s.fault settle_route ≡ none
      → validate_request first ≡ accepted r
      → validate_request second ≡ accepted q
      → IsPayable chain r.payment_payload r.authorization r.payment_requirements
          (now_seconds clock)
          payer
      → has s.nonces (some (str n)) ≡ false
      → has s.nonces (some (str k)) ≡ false
      → let once = handle chain s "POST" settle_route first clock in
        Settles chain s r (now_seconds clock) once
        × Settles chain once.state q
            (now_seconds clock)
            (handle chain once.state "POST" settle_route second clock)
  respelled_nonce_accepted r q first second n k clock payer other b e calm v w p new_n new_k =
      let done = handle-Settles chain s r first clock payer calm v p (rw e.nonce_r new_n) in
      (
        done,
        handle-Settles chain (handle chain s "POST" settle_route first clock).state q second clock
            payer (rw done.fault_kept calm) w
            (respelled-IsPayable chain r q n k (now_seconds clock) payer b e p)
            (rw e.nonce_q (has-other r first clock n k other e.nonce_r new_k done)),
      )

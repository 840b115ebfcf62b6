-- ===== src/Simulator/Payment/Laws.antt =====
-- The agent's payment, from the merchant's challenge to the facilitator.
use agentic_attribution.Prelude.{
  ℕ, ◌+◌, ◌-◌, ◌*◌, ◌/◌, ◌≤◌, ◌<◌, String, true, some, ok, ◌≡◌, refl, arith, ap, ◌∙◌, >>=-eq-ok,
}
use agentic_attribution.Js.Json.{Json, str, property, value_text}
use agentic_attribution.Js.Json.Laws.{str-strict_equal}
use agentic_attribution.Js.Decimal.{to_string, integer_text}
use agentic_attribution.Js.Decimal.RoundTrip.{big_int-to_string}
use agentic_attribution.Js.Integer.{pos}
use agentic_attribution.Types.Eip3009.{
  Eip712Domain, Eip3009Message, base_sepolia, max_uint256, network_parameters, eip712_domain,
  to_uint256,
}
use agentic_attribution.Types.Eip3009.Laws.{
  to_uint256-to_string, to_uint256-eq-ok_iff, Reads, to_typed_message-eq-ok_iff,
}
use agentic_attribution.Facilitator.Verify.{Chain, valid, verify_payment}
use agentic_attribution.Facilitator.Verify.Laws.{IsPayable, verify_payment-valid_iff}
use agentic_attribution.Merchant.X402.{PaymentRequirements}
use agentic_attribution.Merchant.Config.{MerchantConfig, cents_to_atomic_units}
use agentic_attribution.Merchant.Handler.{Listing, requirements_for, requirements_json}
use agentic_attribution.Simulator.Payment.{
  Account, authorization_for, backdated, payment_with, sign_authorization,
}

-- The message that the agent signs, and its domain.
abbrev pub signed_message :
    Account → PaymentRequirements → (amount clock : ℕ) (nonce : String) → Eip3009Message
signed_message account r amount clock nonce = record {
  from = some (str account.address);
  to = some (str r.pay_to);
  value = amount;
  valid_after = clock / 1000 - 60;
  valid_before = clock / 1000 + r.max_timeout_seconds;
  nonce = some (str nonce);
}

abbrev pub usdc_domain : Eip712Domain
usdc_domain = record {
  name = some "USDC";
  version = some "2";
  chain_id = some 84532;
  verifying_contract = some base_sepolia.usdc_address;
}

module _ (chain : Chain) (account : Account) (r : PaymentRequirements) (amount clock : ℕ)
    (nonce : String) where
  open chain use {to_lower_case, verify_typed_data}

  abbrev now : ℕ
  now = clock / 1000

  abbrev message : Eip3009Message
  message = signed_message account r amount clock nonce

  -- A challenge for USDC on Base Sepolia, its amount in decimal, and times that fit a uint256.
  pub record IsChallenge : Type 0 where
    pub scheme : r.scheme ≡ "exact"
    pub network : r.network ≡ "base-sepolia"
    pub asset : to_lower_case r.asset ≡ to_lower_case base_sepolia.usdc_address
    pub priced : r.max_amount_required ≡ to_string amount
    pub affordable : amount ≤ max_uint256
    pub dated : 60 ≤ now
    pub timely : now + r.max_timeout_seconds ≤ max_uint256

  module _ (c : IsChallenge) where
    reads_after : to_uint256 (some (str (integer_text (backdated now)))) ≡ ok (now - 60)
    unfolding backdated integer_text
    reads_after =
        let e : backdated now ≡ pos (now - 60) = ground (arith, c.dated) in
        rw e (to_uint256-to_string (now - 60) (omega (arith, c.timely)))

    authorization-Reads : Reads (authorization_for account r clock nonce) message
    unfolding authorization_for property
    authorization-Reads = record {
      value =
          rw c.priced
            ((to_uint256-eq-ok_iff _ amount).0 (to_uint256-to_string amount c.affordable));
      valid_after = (to_uint256-eq-ok_iff _ (now - 60)).0 reads_after;
      valid_before =
          (to_uint256-eq-ok_iff _ _).0
            (to_uint256-to_string (now + r.max_timeout_seconds) c.timely);
      from = refl;
      to = refl;
      nonce = refl;
    }

    has_domain : eip712_domain r.network ≡ ok usdc_domain
    unfolding eip712_domain network_parameters
    has_domain = rw c.network refl

    abbrev pub payment : Json
    payment =
        payment_with r (authorization_for account r clock nonce)
          (account.sign_typed_data usdc_domain message)

    signs : sign_authorization account r clock nonce ≡ ok payment
    unfolding sign_authorization
    signs = rw (has_domain, (to_typed_message-eq-ok_iff _ message).1 authorization-Reads) refl

    payable :
        (t : ℕ)
        → verify_typed_data
            (some (str account.address))
            usdc_domain
            message
            (some (str (account.sign_typed_data usdc_domain message)))
          ≡ ok true
        → now ≤ t + 60
        → t < now + r.max_timeout_seconds
        → IsPayable chain payment
            (authorization_for account r clock nonce)
            (requirements_json r)
            (pos t)
            (some (str account.address))
    unfolding payment_with authorization_for requirements_json property value_text
    payable t s a b = record {
      payload_scheme = ap (λ x. some (str x)) c.scheme;
      required_scheme = ap (λ x. some (str x)) c.scheme;
      network = str-strict_equal r.network;
      message = message;
      reads = authorization-Reads;
      domain = usdc_domain;
      has_domain = has_domain;
      asset = record {
        l = r.asset;
        r = base_sepolia.usdc_address;
        left_text = refl;
        right_text = refl;
        same = c.asset;
      };
      payee = record {
        l = r.pay_to;
        r = r.pay_to;
        left_text = refl;
        right_text = refl;
        same = refl;
      };
      amount = rw c.priced (big_int-to_string amount);
      started = ground arith;
      unexpired = ground arith;
      signed = s;
      payer_is = refl;
    }

-- A merchant that sells in USDC on Base Sepolia, a listing of `cents`, and times that fit.
pub record Sells (chain : Chain) (config : MerchantConfig) (listing : Listing) (cents clock : ℕ)
    : Type 0 where
  pub network : config.network ≡ "base-sepolia"
  pub asset :
      chain.to_lower_case config.asset_address ≡ chain.to_lower_case base_sepolia.usdc_address
  pub price : listing.price_cents ≡ pos cents
  pub affordable : cents * 10000 ≤ max_uint256
  pub dated : 60 ≤ clock / 1000
  pub timely : clock / 1000 + 120 ≤ max_uint256

Sells-IsChallenge :
    (chain : Chain) (account : Account) (config : MerchantConfig) (listing : Listing)
    (cents clock : ℕ) (nonce : String) (r : PaymentRequirements)
    → Sells chain config listing cents clock
    → requirements_for config listing ≡ ok r
    → IsChallenge chain account r (cents * 10000) clock nonce × (r.max_timeout_seconds ≡ 120)
unfolding requirements_for cents_to_atomic_units
Sells-IsChallenge chain account config listing cents clock nonce r s h =
    let (text, p, e) = >>=-eq-ok (cents_to_atomic_units listing.price_cents) _ h in
    let q : text ≡ to_string (cents * 10000) = ground (arith, s.price, p) in
    (
      record {
        scheme = ground arith;
        network = ground (arith, s.network);
        asset = ap chain.to_lower_case (ground arith) ∙ s.asset;
        priced = ground (arith, q);
        affordable = s.affordable;
        dated = s.dated;
        timely = ground (arith, s.timely);
      },
      ground arith,
    )

-- Of a merchant that sells in USDC on Base Sepolia, the payment that the agent signs for the
-- challenge, at least a minute after the epoch, is valid at the facilitator from one minute before
-- the signing until 120 seconds after it, and its payer is the agent, wherever the chain recognises
-- the agent's signature.
pub sign_authorization-valid :
    (chain : Chain) (account : Account) (config : MerchantConfig) (listing : Listing)
    (cents clock : ℕ) (nonce : String) (r : PaymentRequirements) (t : ℕ)
    → Sells chain config listing cents clock
    → requirements_for config listing ≡ ok r
    → let m = signed_message account r (cents * 10000) clock nonce in
      let signature = account.sign_typed_data usdc_domain m in
      chain.verify_typed_data (some (str account.address)) usdc_domain m (some (str signature))
        ≡ ok true
      → clock / 1000 ≤ t + 60
      → t < clock / 1000 + 120
      → let authorization = authorization_for account r clock nonce in
        let payment = payment_with r authorization signature in
        (sign_authorization account r clock nonce ≡ ok payment)
        × (verify_payment chain payment authorization (requirements_json r) (pos t)
            ≡ ok (valid (some (str account.address))))
sign_authorization-valid chain account config listing cents clock nonce r t s h v a b =
    let (c, timeout) = Sells-IsChallenge chain account config listing cents clock nonce r s h in
    (
      signs chain account r (cents * 10000) clock nonce c,
      (verify_payment-valid_iff chain _ _ (requirements_json r) (pos t) _).1
          (payable chain account r (cents * 10000) clock nonce c t v a (rw timeout b)),
    )

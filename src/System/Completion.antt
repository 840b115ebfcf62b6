-- ===== src/System/Completion.antt =====
-- The second half of the exchange: the agent's paid request, and what the merchant gets of it.
pub mod Outcome
use agentic_attribution.Prelude.{
  ℕ, ◌+◌, ◌/◌, ◌≤◌, String, true, false, some, List, [], ◌∷◌, ◌++◌, Throws, ok, throw, ◌≡◌, ◌≢◌,
  refl, arith, lookup, ◌∙◌, ap, eq_iff, str_eq,
}
use agentic_attribution.Js.Integer.{ℤ}
use agentic_attribution.Js.Json.{Json, str, property, is_object_value}
use agentic_attribution.Platform.{Platform}
use agentic_attribution.Types.Assertion.{verify_assertion, import_verification_key}
use agentic_attribution.Gateway.KeyCache.{KeyCache, verification_key}
use agentic_attribution.Gateway.KeyCache.Laws.{IsCoherent}
use agentic_attribution.Gateway.Handler.{
  GatewayEnv, Request, Forwarded, forwarded, OriginResponse, payment_header, assertion_header,
  forwardable_headers, given as given_at_gateway,
}
use agentic_attribution.Gateway.Handler.Laws.{IsPaidPurchase, IsAuthentic, authentic-passes_on}
use agentic_attribution.Merchant.X402.{
  PaymentPayload, PaymentRequirements, encode_header_json, decode_payment_header,
  decode_header_json as decode_at_merchant, checked_payment,
}
use agentic_attribution.Merchant.X402.Laws.{checked_payment-eq-ok_iff}
use agentic_attribution.Merchant.Settlement.{SettlementRequest, accepted, rejected, settle}
use agentic_attribution.Merchant.Handler.{
  Listing, Handled, HandlerResponse, Dependencies, Fulfillment, given as given_at_merchant,
  requirements_for, settle_purchase, fulfillment_of, fulfilled, rejection,
}
use agentic_attribution.Merchant.Handler.Laws.{
  Offers, Offers-handle, PaysFor, PaysFor-offered, settlement_request,
}
use agentic_attribution.Merchant.Handler.Offers.{requirements_for-parts}
use agentic_attribution.Merchant.Server.{
  Served as MerchantServed, handled, body_json, answered, fulfillment_json,
}
use agentic_attribution.Merchant.Server.Laws.{serve-purchase}
use agentic_attribution.Js.Decimal.{to_string, integer_text}
use agentic_attribution.Simulator.Payment.{Account, backdated, authorization_for, payment_with}
use agentic_attribution.Simulator.Requests.{
  Outgoing, done, agent_error, product_body, completion_request, accept, complete_purchase,
}
use agentic_attribution.System.Network.{Setting, origins, at_merchant, at_gateway, fetch}
use agentic_attribution.System.Network.Laws.{
  IsCarried, IsHeader, IsHeader-merchant, IsHeader-gateway, lookup-forwardable_headers,
  lookup-append-some,
}
use agentic_attribution.System.Exchange.{
  IsSent, arrived, sent_on, served_by_merchant, arrives_whole, passes_through, merchant_reads,
}

pub given_at_gateway-filled : (s : String) → s ≢ "" → given_at_gateway (some s) ≡ some s
unfolding given_at_gateway
given_at_gateway-filled s h = ground (arith, h, eq_iff s "")

given_at_merchant-filled : (s : String) → s ≢ "" → given_at_merchant (some s) ≡ some s
unfolding given_at_merchant
given_at_merchant-filled s h = ground (arith, h, eq_iff s "")

-- What the merchant makes of the agent's payment.
abbrev pub payload_of :
    Account → PaymentRequirements → (clock : ℕ) (nonce signature : String) → PaymentPayload
payload_of account r clock nonce signature = record {
  raw = payment_with r (authorization_for account r clock nonce) signature;
  authorization = record {
    from = account.address;
    to = r.pay_to;
    value = r.max_amount_required;
    valid_after = integer_text (backdated (clock / 1000));
    valid_before = to_string (clock / 1000 + r.max_timeout_seconds);
    nonce = nonce;
  };
  signature = signature;
}

payload_of-checked :
    (account : Account) (r : PaymentRequirements) (clock : ℕ) (nonce signature : String)
    → signature ≢ ""
    → checked_payment (payment_with r (authorization_for account r clock nonce) signature)
      ≡ ok (payload_of account r clock nonce signature)
unfolding payment_with authorization_for property is_object_value
payload_of-checked account r clock nonce signature given =
    (checked_payment-eq-ok_iff _ (payload_of account r clock nonce signature)).1 (record {
      authorization = authorization_for account r clock nonce;
      itself = refl;
      is_object = refl;
      carries = refl;
      carries_object = refl;
      from = refl;
      to = refl;
      value = refl;
      valid_after = refl;
      valid_before = refl;
      nonce = refl;
      signed = refl;
      signature_given = given;
    })

-- A purchase of the agent: who pays, for which requirements, when, with which nonce and signature, and
-- the product, the assertion and the listing that it is about.
pub record Order : Type 0 where
  pub account : Account
  pub r : PaymentRequirements
  pub clock : ℕ
  pub nonce : String
  pub signature : String
  pub product_id : String
  pub assertion : Json
  pub listing : Listing

module _ {Key : Type 0} (setting : Setting Key) (order : Order) where
  open setting use {deps, env, pathname, port, first, second, edge_now, shop_now, elsewhere, cache}
  open order use {account, r, clock, nonce, signature, product_id, assertion, listing}
  open deps use {platform, config}

  abbrev pub payment : Json
  payment = payment_with r (authorization_for account r clock nonce) signature

  -- The agent's paid request.
  abbrev pub pays : Outgoing
  pays = completion_request platform product_id assertion payment

  abbrev pub asked : SettlementRequest
  asked = settlement_request deps listing assertion (payload_of account r clock nonce signature) r

  -- The request is small and travels whole, headers survive base64, JSON and UTF-8, the product is
  -- listed, in stock and has the requirements `r`, the assertion is for that product and verifies at
  -- the gateway and at the merchant, and the signature is not empty.
  pub record Buys : Type 0 where
    pub sent : IsSent setting pays (product_body product_id)
    pub offers : Offers deps (product_body product_id) listing r
    pub assertion_carried : IsHeader platform assertion
    pub payment_carried : IsHeader platform payment
    pub signed : signature ≢ ""
    pub coherent : IsCoherent platform cache
    pub edge_key : Key
    pub imports : import_verification_key platform env.attribution_public_key ≡ ok edge_key
    pub verifies_at_edge : verify_assertion platform assertion edge_key edge_now ≡ ok tt
    pub verifies_at_shop :
        verify_assertion platform assertion deps.verification_key shop_now ≡ ok tt
    pub covers : property assertion "product_id" ≡ some (str listing.product_id)

  abbrev pub sent_to_merchant : Forwarded
  sent_to_merchant = sent_on setting pays

  abbrev pub served : MerchantServed
  served = served_by_merchant setting pays

  abbrev pub arriving_headers : List (String × String)
  arriving_headers = sent_to_merchant.headers ++ second.connection

  module _ (b : Buys) where
    has_payment :
        given_at_merchant (lookup payment_header arriving_headers)
        ≡ some (encode_header_json platform payment)
    unfolding lookup completion_request
    has_payment =
        ap given_at_merchant (
          lookup-append-some payment_header (encode_header_json platform payment)
            (forwardable_headers (pays.headers ++ first.connection)) second.connection
            (lookup-forwardable_headers payment_header (pays.headers ++ first.connection) refl))
        ∙ given_at_merchant-filled _ b.payment_carried.filled

    has_assertion :
        given_at_merchant (lookup assertion_header arriving_headers)
        ≡ some (encode_header_json platform assertion)
    unfolding lookup completion_request
    has_assertion =
        ap given_at_merchant (
          lookup-append-some assertion_header (encode_header_json platform assertion)
            (forwardable_headers (pays.headers ++ first.connection)) second.connection
            (lookup-forwardable_headers assertion_header (pays.headers ++ first.connection) refl))
        ∙ given_at_merchant-filled _ b.assertion_carried.filled

    pays_for :
        PaysFor deps arriving_headers shop_now listing assertion
          (payload_of account r clock nonce signature)
    unfolding decode_payment_header
    pays_for =
        let (price_is, pay_to) = requirements_for-parts deps listing r b.offers.priced in
        record {
          payment_header = encode_header_json platform payment;
          assertion_header = encode_header_json platform assertion;
          has_payment = has_payment;
          has_assertion = has_assertion;
          assertion_decodes = IsHeader-merchant platform assertion b.assertion_carried;
          payment_decodes =
              rw (IsHeader-merchant platform payment b.payment_carried)
                (payload_of-checked account r clock nonce signature b.signed);
          verifies = b.verifies_at_shop;
          covers = b.covers;
          price = r.max_amount_required;
          price_is = price_is;
          pays_price = refl;
          pays_merchant = ap platform.to_lower_case pay_to;
        }

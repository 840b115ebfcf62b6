-- ===== src/Merchant/Handler/Laws.antt =====
-- When the merchant asks for a settlement, and what it answers before that.
use agentic_attribution.Prelude.{
  String, Bool, true, false, Option, none, some, List, [], ◌∷◌, Throws, ok, throw, Exception,
  type_error, syntax_error, error, malformed_payment_error, assertion_verification_error, ◌≡◌, inl,
  inr, refl, sym, ap, ◌∙◌, arith, eq_iff, lookup, Option-cases, >>=-eq-ok,
}
use agentic_attribution.Js.Json.{Json, str, property, truthy}
use agentic_attribution.Js.Json.Laws.{strict_equal-str, str-strict_equal}
use agentic_attribution.Js.Integer.{ℤ}
use agentic_attribution.Types.Assertion.{verify_assertion}
use agentic_attribution.Merchant.Config.{cents_to_atomic_units}
use agentic_attribution.Merchant.X402.{
  PaymentPayload, PaymentRequirements, attribution_assertion_header, payment_signature_header,
  decode_header_json, decode_payment_header,
}
use agentic_attribution.Merchant.Settlement.{SettlementRequest}
use agentic_attribution.Merchant.Handler.{
  Listing, Handled, Dependencies, given, requirements_for, decode_failure, verification_failure,
  settle_purchase, check_payment, check_terms, verify_purchase, decoded_purchase, decode_headers,
  offered, handle,
}

-- Whether a list of requests is not empty.
abbrev pub sends {ℓ} : {A : Type ℓ} → List A → Bool
sends [] = false
sends (_ ∷ _) = true

module _ {Key : Type 0} (deps : Dependencies Key) where
  open deps use {platform, config, find_listing, fetch, verification_key}

  -- A request that offers to buy a listed product that is in stock.
  pub record Offers (body : Json) (listing : Listing) (requirements : PaymentRequirements)
      : Type 0 where
    pub product_id : Json
    pub asked : property body "product_id" ≡ some product_id
    pub named : truthy (some product_id) ≡ true
    pub found : find_listing product_id ≡ ok (some listing)
    pub stocked : listing.in_stock ≡ true
    pub priced : requirements_for config listing ≡ ok requirements

  -- The headers carry an assertion and a payment, both decode, the assertion verifies and covers the
  -- listing's product, and the payment pays its price to the merchant's address.
  pub record PaysFor (headers : List (String × String)) (now : ℤ) (listing : Listing)
      (assertion : Json) (payment : PaymentPayload) : Type 0 where
    pub payment_header : String
    pub assertion_header : String
    pub has_payment : given (lookup payment_signature_header headers) ≡ some payment_header
    pub has_assertion : given (lookup attribution_assertion_header headers) ≡ some assertion_header
    pub assertion_decodes : decode_header_json platform assertion_header ≡ ok assertion
    pub payment_decodes : decode_payment_header platform payment_header ≡ ok payment
    pub verifies : verify_assertion platform assertion verification_key now ≡ ok tt
    pub covers : property assertion "product_id" ≡ some (str listing.product_id)
    pub price : String
    pub price_is : cents_to_atomic_units listing.price_cents ≡ ok price
    pub pays_price : payment.authorization.value ≡ price
    pub pays_merchant :
        platform.to_lower_case payment.authorization.to
        ≡ platform.to_lower_case config.pay_to_address

  abbrev pub settlement_request :
      Listing → Json → PaymentPayload → PaymentRequirements → SettlementRequest
  settlement_request listing assertion payment requirements = record {
    assertion = assertion;
    merchant_id = listing.merchant_id;
    gross_amount_cents = listing.price_cents;
    currency = listing.currency;
    payment_payload = payment;
    payment_requirements = requirements;
  }

  -- Soundness, from the inside out.
  module _ (listing : Listing) (requirements : PaymentRequirements) where
    record PaymentFits (payment : PaymentPayload) : Type 0 where
      price : String
      price_is : cents_to_atomic_units listing.price_cents ≡ ok price
      pays_price : payment.authorization.value ≡ price
      pays_merchant :
          platform.to_lower_case payment.authorization.to
          ≡ platform.to_lower_case config.pay_to_address

    check_payment-settles :
        (assertion : Json) (payment : PaymentPayload) (expected : Throws String)
        → expected ≡ cents_to_atomic_units listing.price_cents
        → sends (check_payment deps listing assertion payment requirements expected).settlements
          ≡ true
        → PaymentFits payment
    unfolding check_payment
    check_payment-settles assertion payment (throw e) p h = ground arith
    check_payment-settles assertion payment (ok price) p h = record {
      price = price;
      price_is = sym p;
      pays_price = ground (arith, eq_iff payment.authorization.value price);
      pays_merchant = ground (
        arith,
        eq_iff (platform.to_lower_case payment.authorization.to)
            (platform.to_lower_case config.pay_to_address),
      );
    }

    check_terms-settles :
        (assertion : Json) (payment : PaymentPayload)
        → sends (check_terms deps listing assertion payment requirements).settlements ≡ true
        → (property assertion "product_id" ≡ some (str listing.product_id)) × PaymentFits payment
    unfolding check_terms
    check_terms-settles assertion payment h = (
      strict_equal-str (property assertion "product_id") listing.product_id (ground arith),
      check_payment-settles assertion payment (cents_to_atomic_units listing.price_cents) refl
          (ground arith),
    )

    verification_failure-silent :
        (e : Exception) → sends (verification_failure e).settlements ≡ false
    unfolding verification_failure
    verification_failure-silent (assertion_verification_error r m) = refl
    verification_failure-silent (malformed_payment_error m) = refl
    verification_failure-silent (type_error m) = refl
    verification_failure-silent (syntax_error m) = refl
    verification_failure-silent (error m) = refl

    decode_failure-silent : (e : Exception) → sends (decode_failure e).settlements ≡ false
    unfolding decode_failure
    decode_failure-silent (assertion_verification_error r m) = refl
    decode_failure-silent (malformed_payment_error m) = refl
    decode_failure-silent (type_error m) = refl
    decode_failure-silent (syntax_error m) = refl
    decode_failure-silent (error m) = refl

    verify_purchase-settles :
        (assertion : Json) (payment : PaymentPayload) (v : Throws (Unit {0}))
        → sends (verify_purchase deps listing assertion payment requirements v).settlements ≡ true
        → (v ≡ ok tt)
          × (property assertion "product_id" ≡ some (str listing.product_id))
          × PaymentFits payment
    unfolding verify_purchase
    verify_purchase-settles assertion payment (throw e) h =
        absurd (ground (arith, verification_failure-silent e))
    verify_purchase-settles assertion payment (ok u) h =
        let (a, b) = check_terms-settles assertion payment h in (refl, a, b)

    decoded_purchase-settles :
        (now : ℤ) (d : Throws (Json × PaymentPayload))
        → sends (decoded_purchase deps listing now requirements d).settlements ≡ true
        → (assertion : Json) × (payment : PaymentPayload) × (d ≡ ok (assertion, payment))
          × (verify_assertion platform assertion verification_key now ≡ ok tt)
          × (property assertion "product_id" ≡ some (str listing.product_id))
          × PaymentFits payment
    unfolding decoded_purchase
    decoded_purchase-settles now (throw e) h = absurd (ground (arith, decode_failure-silent e))
    decoded_purchase-settles now (ok (assertion, payment)) h =
        let (v, a, b) =
          verify_purchase-settles assertion payment
            (verify_assertion platform assertion verification_key now) h in
        (assertion, payment, refl, v, a, b)

    decode_headers-eq-ok :
        (assertion_header payment_header : String) (assertion : Json) (payment : PaymentPayload)
        → decode_headers deps assertion_header payment_header ≡ ok (assertion, payment)
        → (decode_header_json platform assertion_header ≡ ok assertion)
          × (decode_payment_header platform payment_header ≡ ok payment)
    unfolding decode_headers
    decode_headers-eq-ok ah ph assertion payment h =
        let (a, p, h₁) = >>=-eq-ok (decode_header_json platform ah) _ h in
        let (b, q, h₂) = >>=-eq-ok (decode_payment_header platform ph) _ h₁ in
        (ground arith, ground arith)

    offered-settles :
        (now : ℤ) (headers : List (String × String)) (payment_header : Option String)
        → payment_header ≡ given (lookup payment_signature_header headers)
        → sends (offered deps listing now headers payment_header (ok requirements)).settlements
          ≡ true
        → (assertion : Json) × (payment : PaymentPayload) × PaysFor headers now listing assertion
            payment
    unfolding offered
    offered-settles now headers none e h = ground arith
    offered-settles now headers (some ph) e h =
        elim (Option-cases (given (lookup attribution_assertion_header headers))) [
          | inl missing ↦ absurd (ground (arith, missing))
          | inr (ah, has) ↦
              let (assertion, payment, d, v, c, f) =
                decoded_purchase-settles now (decode_headers deps ah ph) (rw has at h) in
              let (p, q) = decode_headers-eq-ok ah ph assertion payment d in
              (
                assertion,
                payment,
                record {
                  payment_header = ph;
                  assertion_header = ah;
                  has_payment = sym e;
                  has_assertion = has;
                  assertion_decodes = p;
                  payment_decodes = q;
                  verifies = v;
                  covers = c;
                  price = f.price;
                  price_is = f.price_is;
                  pays_price = f.pays_price;
                  pays_merchant = f.pays_merchant;
                },
              )
        ]

  -- Completeness.
  pub Offers-handle :
      (body : Json) (headers : List (String × String)) (now : ℤ) (listing : Listing)
      (requirements : PaymentRequirements)
      → Offers body listing requirements
      → handle deps body headers now
        ≡ offered deps listing now headers
            (given (lookup payment_signature_header headers))
            (ok requirements)
  unfolding handle
  Offers-handle body headers now listing requirements o =
      rw (o.asked, o.named, o.found, o.priced, o.stocked)

  PaysFor-check_payment :
      (headers : List (String × String)) (now : ℤ) (listing : Listing)
      (requirements : PaymentRequirements) (assertion : Json) (payment : PaymentPayload)
      → PaysFor headers now listing assertion payment
      → check_terms deps listing assertion payment requirements
        ≡ settle_purchase deps listing assertion payment requirements
  unfolding check_terms
  PaysFor-check_payment headers now listing requirements assertion payment p = ground (
    arith,
    p.covers,
    p.price_is,
    p.pays_price,
    p.pays_merchant,
    str-strict_equal listing.product_id,
    eq_iff payment.authorization.value p.price,
    eq_iff (platform.to_lower_case payment.authorization.to)
        (platform.to_lower_case config.pay_to_address),
  )

  pub PaysFor-offered :
      (headers : List (String × String)) (now : ℤ) (listing : Listing)
      (requirements : PaymentRequirements) (assertion : Json) (payment : PaymentPayload)
      → PaysFor headers now listing assertion payment
      → offered deps listing now headers
          (given (lookup payment_signature_header headers))
          (ok requirements)
        ≡ settle_purchase deps listing assertion payment requirements
  unfolding offered
  PaysFor-offered headers now listing requirements assertion payment p =
      rw (p.has_payment, p.has_assertion, p.assertion_decodes, p.payment_decodes, p.verifies)
        (PaysFor-check_payment headers now listing requirements assertion payment p)

  -- Of an offer for a listing in stock, the merchant asks for a settlement exactly when headers,
  -- assertion and payment fit the listing; and then once, for the listing's price and merchant, with
  -- that assertion and that payment.
  pub handle-settles_iff :
      (body : Json) (headers : List (String × String)) (now : ℤ) (listing : Listing)
      (requirements : PaymentRequirements)
      → Offers body listing requirements
      → let asked = (handle deps body headers now).settlements in
        (sends asked ≡ true
          → (assertion : Json) × (payment : PaymentPayload) × PaysFor headers now listing assertion
              payment)
        × ((assertion : Json) (payment : PaymentPayload)
            → PaysFor headers now listing assertion payment
            → asked ≡ settlement_request listing assertion payment requirements ∷ [])
  unfolding settle_purchase
  handle-settles_iff body headers now listing requirements o =
      let reach = Offers-handle body headers now listing requirements o in
      (
        λ h.
            offered-settles listing requirements now headers
              (given (lookup payment_signature_header headers)) refl (rw reach at h),
        λ assertion payment p.
            ap (λ (h : Handled). h.settlements)
              (reach ∙ PaysFor-offered headers now listing requirements assertion payment p),
      )

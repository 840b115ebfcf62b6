-- ===== src/Merchant/Handler/Offers.antt =====
-- Before the merchant asks for a settlement: the offer, the challenge, and a header without a
-- signature.
use agentic_attribution.Prelude.{
  ℕ, ◌*◌, String, true, false, Option, none, some, List, [], ◌∷◌, Throws, ok, throw, ◌≡◌, inl, inr,
  refl, arith, lookup, Option-cases, Throws-cases, returns, >>=-eq-ok,
}
use agentic_attribution.Js.Json.{Json, as_string, property}
use agentic_attribution.Js.Integer.{ℤ, pos}
use agentic_attribution.Js.Decimal.{codes, big_int}
use agentic_attribution.Types.Assertion.Laws.{verify_assertion-unsigned}
use agentic_attribution.Merchant.Config.{cents_to_atomic_units}
use agentic_attribution.Merchant.Config.Laws.{cents_to_atomic_units_lem}
use agentic_attribution.Merchant.X402.{
  PaymentPayload, PaymentRequirements, attribution_assertion_header, payment_signature_header,
  decode_header_json, decode_payment_header,
}
use agentic_attribution.Merchant.Handler.{
  Listing, HandlerResponse, challenge, Dependencies, given, requirements_for, offered, listed,
  handle,
}
use agentic_attribution.Merchant.Handler.Laws.{sends, Offers, Offers-handle}

module _ {Key : Type 0} (deps : Dependencies Key) where
  open deps use {platform, config, find_listing, fetch, verification_key}

  listed-settles :
      (product_id : Json) (headers : List (String × String)) (now : ℤ) (f : Throws (Option Listing))
      → sends (listed deps product_id now headers f).settlements ≡ true
      → (listing : Listing) × (requirements : PaymentRequirements) × (f ≡ ok (some listing))
        × (listing.in_stock ≡ true)
        × (requirements_for config listing ≡ ok requirements)
  unfolding listed
  listed-settles product_id headers now (throw e) h = ground arith
  listed-settles product_id headers now (ok none) h = ground arith
  listed-settles product_id headers now (ok (some listing)) h =
      elim (Throws-cases (requirements_for config listing)) [
        | inl (requirements, p) ↦ (listing, requirements, refl, ground arith, p)
        | inr (e, p) ↦ absurd (ground (arith, p))
      ]

  -- The merchant asks for no settlement unless the request names a product, the catalog lists it, it
  -- is in stock and its price converts.
  pub handle-settles_offer :
      (body : Json) (headers : List (String × String)) (now : ℤ)
      → sends (handle deps body headers now).settlements ≡ true
      → (listing : Listing) × (requirements : PaymentRequirements) × Offers deps body listing
          requirements
  unfolding handle
  handle-settles_offer body headers now h = elim (Option-cases (property body "product_id")) [
    | inl missing ↦ absurd (ground (arith, missing))
    | inr (product_id, p) ↦
        let (listing, requirements, f, stocked, priced) =
          listed-settles product_id headers now (find_listing product_id) (ground (arith, p)) in
        (
          listing,
          requirements,
          record {
            product_id = product_id;
            asked = p;
            named = ground (arith, p);
            found = f;
            stocked = stocked;
            priced = priced;
          },
        )
  ]

  pub requirements_for-parts :
      (listing : Listing) (requirements : PaymentRequirements)
      → requirements_for config listing ≡ ok requirements
      → (cents_to_atomic_units listing.price_cents ≡ ok requirements.max_amount_required)
        × (requirements.pay_to ≡ config.pay_to_address)
  unfolding requirements_for
  requirements_for-parts listing requirements h =
      let (text, p, e) = >>=-eq-ok (cents_to_atomic_units listing.price_cents) _ h in
      (ground arith, ground arith)

  -- A listing in stock and a request without a payment: the answer is 402, nothing is settled, and
  -- the one accepted payment is, in decimal, 10000 atomic units for each cent of the price, to the
  -- merchant's address.
  pub handle-challenge :
      (body : Json) (headers : List (String × String)) (now : ℤ) (listing : Listing)
      (requirements : PaymentRequirements) (cents : ℕ)
      → Offers deps body listing requirements
      → given (lookup payment_signature_header headers) ≡ none
      → listing.price_cents ≡ pos cents
      → let h = handle deps body headers now in
        (h.settlements ≡ [])
        × ((r : HandlerResponse) × (h.reply ≡ ok r)
            × (r.status ≡ 402)
            × (r.body ≡ challenge (record { x402_version = 1; accepts = requirements ∷ [] })))
        × (big_int (codes requirements.max_amount_required) ≡ some (pos (cents * 10000)))
        × (requirements.pay_to ≡ config.pay_to_address)
  unfolding offered
  handle-challenge body headers now listing requirements cents o unpaid price =
      rw (Offers-handle deps body headers now listing requirements o, unpaid)
        (
          refl,
          (_, refl, refl, refl),
          amount,
          (requirements_for-parts listing requirements o.priced).1,
        )
    where
      amount : big_int (codes requirements.max_amount_required) ≡ some (pos (cents * 10000))
      amount =
          (cents_to_atomic_units_lem cents requirements.max_amount_required
            (rw price at (requirements_for-parts listing requirements o.priced).0)).1

  -- The merchant's answer to a payment whose assertion decodes to a value without a textual
  -- signature, such as `{}`: none. The handler throws, and nothing is settled.
  pub unsigned_assertion-throws :
      (body : Json) (headers : List (String × String)) (now : ℤ) (listing : Listing)
      (requirements : PaymentRequirements) (payment_header assertion_header : String)
      (assertion : Json) (payment : PaymentPayload)
      → Offers deps body listing requirements
      → given (lookup payment_signature_header headers) ≡ some payment_header
      → given (lookup attribution_assertion_header headers) ≡ some assertion_header
      → decode_header_json platform assertion_header ≡ ok assertion
      → decode_payment_header platform payment_header ≡ ok payment
      → as_string (property assertion "signature") ≡ none
      → let h = handle deps body headers now in (returns h.reply ≡ false) × (h.settlements ≡ [])
  unfolding offered
  unsigned_assertion-throws body headers now listing requirements ph ah assertion payment o hp ha d
        q u =
      let (m, e) = verify_assertion-unsigned platform assertion verification_key now u in
      rw (Offers-handle deps body headers now listing requirements o, hp, ha, d, q, e) (refl, refl)

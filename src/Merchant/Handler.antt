-- ===== src/Merchant/Handler.antt =====
-- merchant/src/handler.ts: one purchase, from the request's body and headers to the answer.
pub mod Laws
pub mod Offers
use Prim.Native.String.{◌++◌}
use agentic_attribution.Prelude.{
  ℕ, String, Bool, true, false, not, Option, none, some, List, [], ◌∷◌, Throws, ok, throw,
  Exception, type_error, syntax_error, error, malformed_payment_error, assertion_verification_error,
  VerificationFailure, malformed_signature, invalid_signature, expired, str_eq, lookup,
  if◌then◌else◌, ◌>>=◌,
}
use agentic_attribution.Js.Json.{
  Json, null, num, bool, str, arr, obj, Items, Members, end, member, nil, cons, property, read,
  strict_equal, text_of, truthy, value_text,
}
use agentic_attribution.Js.Decimal.{to_string}
use agentic_attribution.Js.Integer.{ℤ}
use agentic_attribution.Platform.{Platform}
use agentic_attribution.Types.Assertion.{verify_assertion}
use agentic_attribution.Merchant.Config.{
  MerchantConfig, cents_to_atomic_units, scheme_exact, payment_timeout_seconds, x402_version,
}
use agentic_attribution.Merchant.X402.{
  PaymentPayload, PaymentRequirements, PaymentRequiredBody, payment_signature_header,
  payment_required_header, payment_response_header, attribution_assertion_header,
  decode_header_json, decode_payment_header, encode_header_json,
}
use agentic_attribution.Merchant.Settlement.{
  SettlementRequest, ServiceResponse, SettlementOutcome, accepted, rejected, settle,
}
pub use agentic_attribution.Merchant.Answer.{
  Listing, Fulfillment, ResponseBody, failure, challenge, rejection, fulfilled, HandlerResponse,
  Handled, answer, thrown, failure_text,
}
unfoldable pub use agentic_attribution.Merchant.Answer.{
  given, requirements_json, challenge_json, decode_failure, verification_failure, requirements_for,
}

-- What the handler holds and depends on: its configuration, the key, the catalog (a query that may
-- fail) and the network to the settlement service.
pub record Dependencies (Key : Type 0) : Type 0 where
  pub platform : Platform Key
  pub config : MerchantConfig
  pub find_listing : Json → Throws (Option Listing)
  pub fetch : SettlementRequest → Throws ServiceResponse
  pub verification_key : Key

module _ {Key : Type 0} (deps : Dependencies Key) where
  open deps use {platform, config, find_listing, fetch, verification_key}

  unfoldable pub fulfillment_of : Listing → (assertion result : Json) → Throws Fulfillment
  fulfillment_of listing assertion result = do
    settlement_id ← read (some result) "settlement_id"
    tx_hash ← read (some result) "tx_hash"
    network ← read (some result) "network"
    publisher_amount ← read (some result) "publisher_amount_cents"
    ok (record {
      order_id = settlement_id;
      product_id = listing.product_id;
      listing_title = listing.listing_title;
      amount_cents = listing.price_cents;
      currency = listing.currency;
      settlement_id = settlement_id;
      tx_hash = tx_hash;
      network = network;
      attributed_publisher_id = property assertion "publisher_id";
      publisher_commission_cents = publisher_amount;
    })

  -- The answer to what the settlement service said; a rejection passes through.
  respond : Listing → (assertion : Json) → SettlementOutcome → Throws HandlerResponse
  unfolding fulfillment_of
  respond listing assertion (rejected status body) =
      ok (record { status = status; body = rejection body; headers = [] })
  respond listing assertion (accepted result) = do
    fulfillment ← fulfillment_of listing assertion result
    ok (record {
      status = 200;
      body = fulfilled fulfillment;
      headers = (payment_response_header, encode_header_json platform result) ∷ [];
    })

  -- The one place where the settlement service is called.
  unfoldable pub settle_purchase :
      Listing → (assertion : Json) → PaymentPayload → PaymentRequirements → Handled
  unfolding respond
  settle_purchase listing assertion payment requirements =
      let request : SettlementRequest = record {
        assertion = assertion;
        merchant_id = listing.merchant_id;
        gross_amount_cents = listing.price_cents;
        currency = listing.currency;
        payment_payload = payment;
        payment_requirements = requirements;
      } in
      record {
        reply = settle fetch request >>= respond listing assertion;
        settlements = request ∷ [];
      }

  -- The payment against the listing's price and the merchant's address.
  check_payment :
      Listing → (assertion : Json) → PaymentPayload → PaymentRequirements → Throws String → Handled
  unfolding settle_purchase
  check_payment listing assertion payment requirements (throw e) = thrown e
  check_payment listing assertion payment requirements (ok expected) =
      if not (str_eq payment.authorization.value expected)
      then answer 422 (
          failure
            ("authorization pays " ++ payment.authorization.value ++ ", listing requires "
              ++ expected)
            (some "amount_mismatch"))
      else if not (
          str_eq (platform.to_lower_case payment.authorization.to)
            (platform.to_lower_case config.pay_to_address))
      then answer 422 (failure "authorization pays a different address" (some "payee_mismatch"))
      else settle_purchase listing assertion payment requirements

  -- A verified assertion against the listing, then the payment.
  check_terms : Listing → (assertion : Json) → PaymentPayload → PaymentRequirements → Handled
  unfolding check_payment
  check_terms listing assertion payment requirements =
      if not (strict_equal (property assertion "product_id") (some (str listing.product_id)))
      then answer 422 (
          failure
            ("assertion covers "
              ++ value_text (property assertion "product_id")
              ++ ", purchase covers "
              ++ listing.product_id)
            (some "assertion_product_mismatch"))
      else check_payment listing assertion payment requirements
          (cents_to_atomic_units listing.price_cents)

  verify_purchase :
      Listing
      → (assertion : Json) → PaymentPayload
      → PaymentRequirements
      → Throws (Unit {0})
      → Handled
  unfolding check_terms verification_failure
  verify_purchase listing assertion payment requirements (throw e) = verification_failure e
  verify_purchase listing assertion payment requirements (ok _) =
      check_terms listing assertion payment requirements

  decoded_purchase :
      Listing → (now : ℤ) → PaymentRequirements → Throws (Json × PaymentPayload) → Handled
  unfolding verify_purchase decode_failure
  decoded_purchase listing now requirements (throw e) = decode_failure e
  decoded_purchase listing now requirements (ok (assertion, payment)) =
      verify_purchase listing assertion payment requirements
        (verify_assertion platform assertion verification_key now)

  -- The `try` round the two headers.
  decode_headers : (assertion_header payment_header : String) → Throws (Json × PaymentPayload)
  decode_headers assertion_header payment_header = do
    assertion ← decode_header_json platform assertion_header
    payment ← decode_payment_header platform payment_header
    ok (assertion, payment)

  paid :
      Listing
      → (now : ℤ) → PaymentRequirements
      → (payment_header : String) → Option String
      → Handled
  unfolding decoded_purchase decode_headers
  paid listing now requirements payment_header none =
      answer 400
        (failure "payment supplied without x-attribution-assertion" (some "assertion_missing"))
  paid listing now requirements payment_header (some assertion_header) =
      decoded_purchase listing now requirements (decode_headers assertion_header payment_header)

  unfoldable pub offered :
      Listing
      → (now : ℤ) → List (String × String)
      → Option String
      → Throws PaymentRequirements
      → Handled
  unfolding paid given challenge_json
  offered listing now headers payment (throw e) = thrown e
  offered listing now headers none (ok requirements) =
      let terms : PaymentRequiredBody = record {
        x402_version = x402_version;
        accepts = requirements ∷ [];
      } in
      record {
        reply = ok (record {
          status = 402;
          body = challenge terms;
          headers =
              (payment_required_header, encode_header_json platform (challenge_json terms)) ∷ [];
        });
        settlements = [];
      }
  offered listing now headers (some payment_header) (ok requirements) =
      paid listing now requirements payment_header
        (given (lookup attribution_assertion_header headers))

  listed :
      (product_id : Json) → (now : ℤ) → List (String × String) → Throws (Option Listing) → Handled
  unfolding offered given
  listed product_id now headers (throw e) = thrown e
  listed product_id now headers (ok none) =
      answer 404 (failure ("no listing for " ++ text_of product_id) none)
  listed product_id now headers (ok (some listing)) =
      if not listing.in_stock
      then answer 422 (failure "listing out of stock" none)
      else offered listing now headers (given (lookup payment_signature_header headers))
          (requirements_for config listing)

  requested : (product_id : Option Json) → (now : ℤ) → List (String × String) → Handled
  unfolding listed
  requested none now headers = answer 400 (failure "product_id required" none)
  requested (some product_id) now headers =
      if truthy (some product_id)
      then listed product_id now headers (find_listing product_id)
      else answer 400 (failure "product_id required" none)

  -- `PurchaseHandler.handle`; of a body that is null, `body?.product_id` is undefined.
  unfoldable pub handle : (body : Json) → (headers : List (String × String)) → (now : ℤ) → Handled
  unfolding requested
  handle body headers now = requested (property body "product_id") now headers

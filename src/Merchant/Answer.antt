-- ===== src/Merchant/Answer.antt =====
-- merchant/src/handler.ts: what `handle` answers with: the listing's offer, the bodies, and the
-- answers to what the two `try` blocks catch.
use Prim.Native.String.{◌++◌}
use agentic_attribution.Prelude.{
  ℕ, String, Bool, Option, none, some, List, [], ◌∷◌, Throws, ok, throw, Exception, type_error,
  syntax_error, error, malformed_payment_error, assertion_verification_error, VerificationFailure,
  malformed_signature, invalid_signature, expired, str_eq, if◌then◌else◌, ◌>>=◌,
}
use agentic_attribution.Js.Json.{Json, num, str, arr, obj, Items, end, member, nil, cons}
use agentic_attribution.Js.Decimal.{to_string}
use agentic_attribution.Js.Integer.{ℤ}
use agentic_attribution.Merchant.Config.{
  MerchantConfig, cents_to_atomic_units, scheme_exact, payment_timeout_seconds,
}
use agentic_attribution.Merchant.X402.{PaymentRequirements, PaymentRequiredBody}
use agentic_attribution.Merchant.Settlement.{SettlementRequest}

-- `Listing` of merchant/src/catalog.ts; a price is a whole number of cents.
pub record Listing : Type 0 where
  pub listing_id : String
  pub product_id : String
  pub merchant_id : String
  pub listing_title : String
  pub price_cents : ℤ
  pub currency : String
  pub in_stock : Bool

pub record Fulfillment : Type 0 where
  pub order_id : Option Json
  pub product_id : String
  pub listing_title : String
  pub amount_cents : ℤ
  pub currency : String
  pub settlement_id : Option Json
  pub tx_hash : Option Json
  pub network : Option Json
  pub attributed_publisher_id : Option Json
  pub publisher_commission_cents : Option Json

-- The bodies that the handler answers with; a rejection is the settlement service's own.
pub data ResponseBody : Type 0 where
  failure : (error : String) (reason : Option String) → ResponseBody
  challenge : PaymentRequiredBody → ResponseBody
  rejection : Json → ResponseBody
  fulfilled : Fulfillment → ResponseBody

pub record HandlerResponse : Type 0 where
  pub status : ℕ
  pub body : ResponseBody
  pub headers : List (String × String)

-- A call of `handle`: what it answers or throws, and what it asked the settlement service for.
pub record Handled : Type 0 where
  pub reply : Throws HandlerResponse
  pub settlements : List SettlementRequest

abbrev pub answer : ℕ → ResponseBody → Handled
answer status body = record {
  reply = ok (record { status = status; body = body; headers = [] });
  settlements = [];
}

abbrev pub thrown : Exception → Handled
thrown e = record { reply = throw e; settlements = [] }

abbrev pub failure_text : VerificationFailure → String
failure_text malformed_signature = "malformed_signature"
failure_text invalid_signature = "invalid_signature"
failure_text expired = "expired"

-- A header that is there and not empty.
unfoldable pub given : Option String → Option String
given none = none
given (some value) = if str_eq value "" then none else some value

-- The JSON of a challenge, as its header carries it.
unfoldable pub requirements_json : PaymentRequirements → Json
requirements_json r = obj (
    member "scheme" (str r.scheme) (
      member "network" (str r.network) (
        member "asset" (str r.asset) (
          member "maxAmountRequired" (str r.max_amount_required) (
            member "payTo" (str r.pay_to) (
              member "maxTimeoutSeconds" (num (to_string r.max_timeout_seconds)) (
                member "resource" (str r.resource)
                  (member "description" (str r.description) end))))))))

offers_json : List PaymentRequirements → Items
unfolding requirements_json
offers_json [] = nil
offers_json (r ∷ rest) = cons (requirements_json r) (offers_json rest)

unfoldable pub challenge_json : PaymentRequiredBody → Json
unfolding offers_json
challenge_json body = obj (
    member "x402Version" (num (to_string body.x402_version))
      (member "accepts" (arr (offers_json body.accepts)) end))

-- The `catch` round decoding: a payload of the wrong shape has a reason of its own.
unfoldable pub decode_failure : Exception → Handled
decode_failure (malformed_payment_error m) = answer 400 (failure m (some "malformed_payment"))
decode_failure (type_error m) =
    answer 400 (failure "headers are not base64-encoded JSON" (some "malformed_headers"))
decode_failure (syntax_error m) =
    answer 400 (failure "headers are not base64-encoded JSON" (some "malformed_headers"))
decode_failure (error m) =
    answer 400 (failure "headers are not base64-encoded JSON" (some "malformed_headers"))
decode_failure (assertion_verification_error reason m) =
    answer 400 (failure "headers are not base64-encoded JSON" (some "malformed_headers"))

-- The `catch` round verification: only a verdict is answered, anything else is thrown on.
unfoldable pub verification_failure : Exception → Handled
verification_failure (assertion_verification_error reason m) =
    answer 401 (failure m (some (failure_text reason)))
verification_failure (malformed_payment_error m) = thrown (malformed_payment_error m)
verification_failure (type_error m) = thrown (type_error m)
verification_failure (syntax_error m) = thrown (syntax_error m)
verification_failure (error m) = thrown (error m)

-- `#requirementsFor`
unfoldable pub requirements_for : MerchantConfig → Listing → Throws PaymentRequirements
requirements_for config listing = do
  amount ← cents_to_atomic_units listing.price_cents
  ok (record {
    scheme = scheme_exact;
    network = config.network;
    asset = config.asset_address;
    max_amount_required = amount;
    pay_to = config.pay_to_address;
    max_timeout_seconds = payment_timeout_seconds;
    resource = "/purchase/" ++ listing.product_id;
    description = listing.listing_title;
  })

-- ===== src/Tests/Merchant.antt =====
-- The merchant at one purchase.
use agentic_attribution.Prelude.{
  ℕ, ◌*◌, String, true, some, ok, List, [], ◌∷◌, ◌≡◌, ◌≤◌, refl, arith, lookup,
}
use agentic_attribution.Js.Json.{
  Json, str, obj, end, member, property, read, value_text, truthy, strict_equal, is_object_value,
}
use agentic_attribution.Js.Decimal.{big_int, codes, is_decimal, to_string}
use agentic_attribution.Js.Integer.{pos}
use agentic_attribution.Types.Eip3009.{max_uint256, to_uint256}
use agentic_attribution.Types.Assertion.{unsigned, canonicalize_for_signing, verify_assertion}
use agentic_attribution.Merchant.Config.{MerchantConfig, cents_to_atomic_units}
use agentic_attribution.Merchant.Config.Laws.{cents_to_atomic_units_lem}
use agentic_attribution.Merchant.X402.{
  PaymentPayload, PaymentRequirements, checked_payment, decode_header_json, decode_payment_header,
}
use agentic_attribution.Merchant.X402.Laws.{IsPayment, checked_payment-eq-ok_iff}
use agentic_attribution.Merchant.Settlement.{settle}
use agentic_attribution.Merchant.Handler.{
  Listing, Dependencies, HandlerResponse, challenge, rejection, given, requirements_for, handle,
}
use agentic_attribution.Merchant.Handler.Laws.{
  Offers, PaysFor, settlement_request, handle-settles_iff,
}
use agentic_attribution.Merchant.Handler.Offers.{handle-challenge}
use agentic_attribution.Merchant.Server.{RejectionReport, handled, read_json_body, serve}
use agentic_attribution.Merchant.Server.Laws.{unsigned_assertion-502, settlement_refusal-reported}
use agentic_attribution.Tests.Fixtures.{authorization_with, payload_with}
use agentic_attribution.Tests.Edge.{platform, assertion}

at_the_merchant : Unit {0}
unfolding handle verify_assertion unsigned canonicalize_for_signing property read value_text
    requirements_for cents_to_atomic_units to_string decode_header_json decode_payment_header lookup
    given settle read_json_body is_object_value truthy strict_equal
at_the_merchant = tt

abbrev pub listing : Listing
listing = record {
  listing_id = "l1";
  product_id = "p1";
  merchant_id = "m1";
  listing_title = "One";
  price_cents = pos 2;
  currency = "USD";
  in_stock = true;
}

abbrev pub config : MerchantConfig
config = record {
  merchant_id = "m1";
  port = "8090";
  postgres_dsn = "dsn";
  settlement_url = "http://t";
  public_key = "k";
  pay_to_address = "0xm";
  asset_address = "0xa";
  network = "base-sepolia";
}

abbrev pub refusal : Json
refusal = obj (member "error" (str "taken") (member "reason" (str "nonce_reused") end))

-- A merchant of the one listing, whose settlement service refuses everything.
abbrev deps : Dependencies ℕ
deps = record {
  platform = platform;
  config = config;
  find_listing = λ v. ok (some listing);
  fetch = λ r. ok (record { status = 409; json = some refusal });
  verification_key = 7;
}

abbrev body : Json
body = obj (member "product_id" (str "p1") end)

abbrev stream : List (List ℕ)
stream = (b'B' ∷ []) ∷ []

abbrev headers_with : String → List (String × String)
headers_with a = ("payment-signature", "P") ∷ ("x-attribution-assertion", a) ∷ []

abbrev pub requirements : PaymentRequirements
requirements = record {
  scheme = "exact";
  network = "base-sepolia";
  asset = "0xa";
  max_amount_required = "20000";
  pay_to = "0xm";
  max_timeout_seconds = 120;
  resource = "/purchase/p1";
  description = "One";
}

abbrev payment : PaymentPayload
payment = record {
  raw = payload_with (authorization_with "0xab");
  authorization = record {
    from = "0xf";
    to = "0xm";
    value = "20000";
    valid_after = "0";
    valid_before = "9";
    nonce = "0xab";
  };
  signature = "0xs";
}

checked_payment-eq-ok_iff_example : IsPayment (payload_with (authorization_with "0xab")) payment
unfolding checked_payment property is_object_value
checked_payment-eq-ok_iff_example =
    (checked_payment-eq-ok_iff (payload_with (authorization_with "0xab")) payment).0 refl

offers : Offers deps body listing requirements
unfolding at_the_merchant
offers = record {
  product_id = str "p1";
  asked = refl;
  named = refl;
  found = refl;
  stocked = refl;
  priced = refl;
}

pays : PaysFor deps (headers_with "A") (pos 4999) listing assertion payment
unfolding at_the_merchant
pays = record {
  payment_header = "P";
  assertion_header = "A";
  has_payment = refl;
  has_assertion = refl;
  assertion_decodes = refl;
  payment_decodes = refl;
  verifies = refl;
  covers = refl;
  price = "20000";
  price_is = refl;
  pays_price = refl;
  pays_merchant = refl;
}

handle-settles_iff_example :
    (handle deps body (headers_with "A") (pos 4999)).settlements
    ≡ settlement_request deps listing assertion payment requirements ∷ []
handle-settles_iff_example =
    (handle-settles_iff deps body (headers_with "A") (pos 4999) listing requirements offers).1
      assertion payment pays

handle-challenge_example :
    let h = handle deps body [] (pos 4999) in
    (h.settlements ≡ [])
    × ((r : HandlerResponse) × (h.reply ≡ ok r)
        × (r.status ≡ 402)
        × (r.body ≡ challenge (record { x402_version = 1; accepts = requirements ∷ [] })))
    × (big_int (codes "20000") ≡ some (pos (2 * 10000)))
    × (requirements.pay_to ≡ config.pay_to_address)
unfolding lookup given
handle-challenge_example =
    handle-challenge deps body [] (pos 4999) listing requirements 2 offers refl refl

unsigned_assertion-502_example :
    let s = serve deps "POST" "/purchase" (headers_with "E") stream (pos 4999) in
    (s.status ≡ 502) × (s.settlements ≡ []) × (s.reports ≡ [])
unfolding at_the_merchant
unsigned_assertion-502_example =
    unsigned_assertion-502 deps (headers_with "E") stream (pos 4999) body listing requirements "P"
      "E" (obj end) payment refl offers refl refl refl refl refl

settlement_refusal-reported_example :
    let s = serve deps "POST" "/purchase" (headers_with "A") stream (pos 4999) in
    (s.status ≡ 409)
    × (s.body ≡ handled (rejection refusal))
    × (s.settlements ≡ settlement_request deps listing assertion payment requirements ∷ [])
    × ((report : RejectionReport) × (s.reports ≡ report ∷ [])
        × (report.reason ≡ str "nonce_reused"))
unfolding at_the_merchant
settlement_refusal-reported_example =
    settlement_refusal-reported deps (headers_with "A") stream (pos 4999) body listing requirements
      assertion payment 409 refusal (str "nonce_reused") refl offers pays refl (ground arith) refl
      refl

cents_to_atomic_units_lem_example :
    (is_decimal (codes "20000") ≡ true)
    × (big_int (codes "20000") ≡ some (pos (2 * 10000)))
    × (2 * 10000 ≤ max_uint256 → to_uint256 (some (str "20000")) ≡ ok (2 * 10000))
unfolding at_the_merchant
cents_to_atomic_units_lem_example = cents_to_atomic_units_lem 2 "20000" refl

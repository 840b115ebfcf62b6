-- ===== src/Tests/Payment.antt =====
-- The agent's payment for one listing, at the facilitator.
use agentic_attribution.Prelude.{true, ok, some, ◌≡◌, refl, arith}
use agentic_attribution.Js.Json.{str}
use agentic_attribution.Js.Decimal.{to_string}
use agentic_attribution.Js.Integer.{pos}
use agentic_attribution.Facilitator.Verify.{valid, verify_payment}
use agentic_attribution.Merchant.Config.{MerchantConfig, cents_to_atomic_units}
use agentic_attribution.Merchant.X402.{PaymentRequirements}
use agentic_attribution.Merchant.Handler.{Listing, requirements_for, requirements_json}
use agentic_attribution.Simulator.Payment.{
  Account, authorization_for, payment_with, sign_authorization,
}
use agentic_attribution.Simulator.Payment.Laws.{Sells, sign_authorization-valid}
use agentic_attribution.Tests.Fixtures.{chain}

abbrev account : Account
account = record { address = "0xf"; sign_typed_data = λ domain message. "0xs" }

abbrev config : MerchantConfig
config = record {
  merchant_id = "m1";
  port = "8090";
  postgres_dsn = "dsn";
  settlement_url = "http://t";
  public_key = "k";
  pay_to_address = "0xm";
  asset_address = "0x036CbD53842c5426634e7929541eC2318f3dCF7e";
  network = "base-sepolia";
}

abbrev listing : Listing
listing = record {
  listing_id = "l1";
  product_id = "p1";
  merchant_id = "m1";
  listing_title = "One";
  price_cents = pos 2;
  currency = "USD";
  in_stock = true;
}

abbrev requirements : PaymentRequirements
requirements = record {
  scheme = "exact";
  network = "base-sepolia";
  asset = "0x036CbD53842c5426634e7929541eC2318f3dCF7e";
  max_amount_required = "20000";
  pay_to = "0xm";
  max_timeout_seconds = 120;
  resource = "/purchase/p1";
  description = "One";
}

sells : Sells chain config listing 2 100000
sells = record {
  network = refl;
  asset = refl;
  price = refl;
  affordable = ground arith;
  dated = ground arith;
  timely = ground arith;
}

sign_authorization-valid_example :
    let authorization = authorization_for account requirements 100000 "0xab" in
    let payment = payment_with requirements authorization "0xs" in
    (sign_authorization account requirements 100000 "0xab" ≡ ok payment)
    × (verify_payment chain payment authorization (requirements_json requirements) (pos 150)
        ≡ ok (valid (some (str "0xf"))))
unfolding requirements_for cents_to_atomic_units to_string
sign_authorization-valid_example =
    sign_authorization-valid chain account config listing 2 100000 "0xab" requirements 150 sells
      refl refl (ground arith) (ground arith)

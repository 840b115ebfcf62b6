-- ===== src/Tests/Network.antt =====
-- The services that the end-to-end runs put together: a platform, the hops and the settings.
use agentic_attribution.Prelude.{
  ℕ, String, Bool, true, false, Option, none, some, ok, throw, error, List, [], ◌∷◌, ◌==◌, ◌&&◌,
  str_eq, if◌then◌else◌,
}
use mathlib.Core.List.{append-nil}
use agentic_attribution.Js.Json.{Json, str, obj, end, member, property}
use agentic_attribution.Js.Stream.{join_chunks}
use agentic_attribution.Js.Decimal.{codes}
use agentic_attribution.Js.Integer.{pos}
use agentic_attribution.Platform.{Platform}
use agentic_attribution.Gateway.KeyCache.{reset_key_cache}
use agentic_attribution.Merchant.Settlement.{ServiceResponse}
use agentic_attribution.Merchant.Handler.{Fulfillment, challenge_json}
use agentic_attribution.Merchant.Server.{fulfillment_json}
use agentic_attribution.Simulator.Payment.{Account, authorization_for, payment_with}
use agentic_attribution.Simulator.Requests.{product_body}
use agentic_attribution.System.Network.{Hop, Setting}
use agentic_attribution.System.Network.Laws.{IsLossless}
use agentic_attribution.System.Challenge.{terms_for}
use agentic_attribution.Tests.Edge.{public_key, assertion, same_bytes}
use agentic_attribution.Tests.Merchant.{listing, config, requirements, refusal}

abbrev pub account : Account
account = record { address = "0xf"; sign_typed_data = λ domain message. "0xs" }

abbrev pub result : Json
result = obj (member "settlement_id" (str "s1") end)

abbrev pub fulfillment : Fulfillment
fulfillment = record {
  order_id = some (str "s1");
  product_id = "p1";
  listing_title = "One";
  amount_cents = pos 2;
  currency = "USD";
  settlement_id = some (str "s1");
  tx_hash = none;
  network = none;
  attributed_publisher_id = some (str "pub_000001");
  publisher_commission_cents = none;
}

abbrev pub has : Json → String → Bool
has v key = elim (property v key) [ none ↦ false | some w ↦ true ]

-- Each value that is sent is told by a member, and has one letter for its text.
abbrev pub text : Json → String
text v =
    if has v "signature" && has v "expires_at"
    then "A"
    else if has v "authorization"
    then "P"
    else if has v "accepts"
    then "C"
    else if has v "order_id"
    then "F"
    else if has v "reason"
    then "R"
    else if has v "commission_bps"
    then "U"
    else "B"

abbrev pub value : String → Option Json
value s =
    if str_eq s "A"
    then some assertion
    else if str_eq s "P"
    then some
        (payment_with requirements (authorization_for account requirements 100000 "0xab") "0xs")
    else if str_eq s "C"
    then some (challenge_json (terms_for requirements))
    else if str_eq s "F"
    then some (fulfillment_json fulfillment)
    else if str_eq s "R"
    then some refusal
    else if str_eq s "B"
    then some (product_body "p1")
    else none

abbrev pub letter : List ℕ → String
letter [] = ""
letter (c ∷ rest) =
    if c == b'A'
    then "A"
    else if c == b'P'
    then "P"
    else if c == b'C'
    then "C"
    else if c == b'F'
    then "F"
    else if c == b'R'
    then "R"
    else if c == b'U'
    then "U"
    else "B"

abbrev pub platform : Platform ℕ
platform = record {
  atob = λ s. some (codes s);
  btoa = letter;
  buffer_from_base64 = codes;
  utf8 = codes;
  utf8_text = letter;
  buffer_text = letter;
  number_exceeds = λ s n. false;
  parse_json = value;
  stringify = text;
  date_parse = λ s. if str_eq s "later" then some (pos 5000) else none;
  to_lower_case = λ s. s;
  import_key = λ bytes. ok 7;
  verify_ed25519 = λ key signature payload. key == 7 && same_bytes payload (codes "U");
}

abbrev pub hop : Hop
hop = record { connection = ("host", "h") ∷ []; cut = λ bytes. bytes ∷ [] }

pub hop-IsLossless : IsLossless hop
unfolding join_chunks
hop-IsLossless bytes = append-nil bytes

-- The services, with a settlement service that answers `response`.
abbrev pub setting_with : ServiceResponse → Setting ℕ
setting_with response = record {
  deps = record {
    platform = platform;
    config = config;
    find_listing = λ v. ok (some listing);
    fetch = λ r. ok response;
    verification_key = 7;
  };
  env = record {
    search_url = "http://s";
    merchant_url = "http://m";
    settlement_url = none;
    attribution_public_key = public_key;
  };
  pathname = λ url base. ok url;
  port = "8080";
  first = hop;
  second = hop;
  edge_now = pos 4998;
  shop_now = pos 4999;
  elsewhere = λ f. throw (error "fetch failed");
  cache = reset_key_cache;
}

abbrev pub setting : Setting ℕ
setting = setting_with (record { status = 200; json = some result })

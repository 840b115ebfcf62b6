-- ===== src/Tests/Simulator.antt =====
-- The simulator's agent at a small search, and its attacks on one assertion.
use mathlib.Core.List.{Memᴰ}
use agentic_attribution.Prelude.{
  ℕ, String, Bool, true, false, some, List, [], ◌∷◌, ◌≡◌, ◌≢◌, ◌∙◌, refl, sym, ap, arith, eq_iff,
  ◌==◌, if◌then◌else◌,
}
use agentic_attribution.Js.Json.{Json, str, num, property, value_text}
use agentic_attribution.Js.Decimal.{codes, to_string}
use agentic_attribution.Js.Integer.{pos, ◌≤ℤ◌}
use agentic_attribution.Platform.{Platform}
use agentic_attribution.Types.Assertion.{UnsignedAssertion, unsigned}
use agentic_attribution.Simulator.Agent.{
  AttributionAssertion, MerchantOffer, ProductResult, SearchResponse, Selection, by_product,
  select_cheapest_in_stock,
}
use agentic_attribution.Simulator.Agent.Laws.{IsBuyable, select_cheapest_in_stock-le}
use agentic_attribution.Simulator.Fraud.{wire}
use agentic_attribution.Simulator.Fraud.Laws.{IsSound}
use agentic_attribution.Tests.Edge.{platform, same_bytes}

abbrev pub genuine : AttributionAssertion
genuine = record {
  assertion_id = "a1";
  publisher_id = "pub_000001";
  product_id = "p1";
  search_request_id = "s1";
  issued_at = "now";
  expires_at = "later";
  commission_bps = 500;
  signature = "ed25519:0123456789abcdef0123456789abcdef0123456789abcdef0123456789abcdef";
}

abbrev pub offer_at : ℕ → Bool → MerchantOffer
offer_at price in_stock = record {
  listing_id = "l";
  merchant_id = "m";
  price_cents = pos price;
  in_stock = in_stock;
  commission_bps = 500;
}

abbrev pub product : ProductResult
product = record {
  product_id = "p1";
  canonical_title = "One";
  offers = offer_at 10 false ∷ offer_at 30 true ∷ offer_at 20 true ∷ [];
}

abbrev pub response : SearchResponse
response = record { search_request_id = "s1"; products = product ∷ []; assertions = genuine ∷ [] }

abbrev pub at_price : ℕ → Selection
at_price price = record { product = product; offer = offer_at price true; assertion = genuine }

dearer : IsBuyable response (at_price 30)
unfolding by_product
dearer = record {
  listed = Memᴰ.head refl;
  offered = Memᴰ.tail (Memᴰ.head refl);
  stocked = refl;
  covered = refl;
}

select_cheapest_in_stock-le_example :
    (s : Selection) × (select_cheapest_in_stock response ≡ some s)
    × IsBuyable response s
    × (s.offer.price_cents ≤ℤ pos 30)
select_cheapest_in_stock-le_example = select_cheapest_in_stock-le response (at_price 30) dearer

-- A platform on which an assertion is signed by its publisher.
abbrev pub publisher_of : Json → String
publisher_of v = value_text (property v "publisher_id")

abbrev pub invented : List ℕ → Bool
invented [] = true
invented (c ∷ rest) = c == b'A'

abbrev pub signing : Platform ℕ
signing = record platform {
  stringify = publisher_of;
  verify_ed25519 = λ key signature payload.
      if invented signature then false else same_bytes payload (codes "pub_000001");
}

abbrev pub hours_ago : ℕ → String
hours_ago n = "later"

abbrev pub issued : List UnsignedAssertion
issued = unsigned (wire genuine) ∷ []

pub only : (u : UnsignedAssertion) → Memᴰ u issued → unsigned (wire genuine) ≡ u
only u (Memᴰ.head e) = sym e
only u (Memᴰ.tail m) = elim m [ ]

other_publisher : some (str "pub_000001") ≢ some (str "pub_999999")
other_publisher h = ground (arith, eq_iff "pub_000001" "pub_999999")

other_rate : some (num "500") ≢ some (num "9999")
other_rate h = ground (arith, eq_iff "500" "9999")

same_bytes_self : (bytes : List ℕ) → same_bytes bytes bytes ≡ true
same_bytes_self [] = refl
same_bytes_self (b ∷ bytes) = ground (arith, same_bytes_self bytes)

pub other_bytes : codes "pub_999999" ≢ codes "pub_000001"
other_bytes h = ground (arith, differ (codes "pub_999999") h)
  where
    differ :
        (bytes : List ℕ) → bytes ≡ codes "pub_000001" → same_bytes bytes (codes "pub_000001") ≡ true
    differ bytes e = rw e (same_bytes_self (codes "pub_000001"))

pub sound : IsSound signing 7 issued hours_ago (pos 5000)
unfolding unsigned wire property to_string
sound = record {
  no_attacker =
      λ u m e. other_publisher (ap (λ (x : UnsignedAssertion). x.publisher_id) (only u m) ∙ e);
  no_inflated =
      λ u m e. other_rate (ap (λ (x : UnsignedAssertion). x.commission_bps) (only u m) ∙ e);
  no_forgery = λ bytes payload d v. ground (arith, d);
  past = pos 5000;
  dated = refl;
  passed = ground arith;
}

-- ===== src/Simulator/Agent.antt =====
-- simulator/src/agent.ts: the choice of an offer out of a search. A response of the search is taken
-- at the type that the agent casts it to.
pub mod Search
pub mod Laws
use agentic_attribution.Prelude.{
  ℕ, String, Bool, Option, none, some, List, [], ◌∷◌, str_eq, if◌then◌else◌,
}
use agentic_attribution.Js.Integer.{ℤ, ltb_ℤ}

-- `AttributionAssertion` of packages/types/src/index.ts.
pub record AttributionAssertion : Type 0 where
  pub assertion_id : String
  pub publisher_id : String
  pub product_id : String
  pub search_request_id : String
  pub issued_at : String
  pub expires_at : String
  pub commission_bps : ℕ
  pub signature : String

pub record MerchantOffer : Type 0 where
  pub listing_id : String
  pub merchant_id : String
  pub price_cents : ℤ
  pub in_stock : Bool
  pub commission_bps : ℕ

pub record ProductResult : Type 0 where
  pub product_id : String
  pub canonical_title : String
  pub offers : List MerchantOffer

pub record SearchResponse : Type 0 where
  pub search_request_id : String
  pub products : List ProductResult
  pub assertions : List AttributionAssertion

pub record Selection : Type 0 where
  pub product : ProductResult
  pub offer : MerchantOffer
  pub assertion : AttributionAssertion

-- `new Map(assertions.map(…)).get(id)`: of two assertions for one product the later one counts.
unfoldable pub by_product : List AttributionAssertion → String → Option AttributionAssertion
by_product [] id = none
by_product (a ∷ assertions) id = elim (by_product assertions id) [
  | none ↦ if str_eq a.product_id id then some a else none
  | some later ↦ some later
]

-- The inner `if`: the first selection, and then every one that is strictly cheaper.
better : Option Selection → Selection → Option Selection
better none s = some s
better (some best) s =
    if ltb_ℤ s.offer.price_cents best.offer.price_cents then some s else some best

-- One turn of the loop over the offers of a product.
try_offer :
    ProductResult → AttributionAssertion → Option Selection → MerchantOffer → Option Selection
unfolding better
try_offer product assertion best offer =
    if offer.in_stock
    then better best (record { product = product; offer = offer; assertion = assertion })
    else best

try_offers :
    ProductResult → AttributionAssertion → Option Selection → List MerchantOffer → Option Selection
unfolding try_offer
try_offers product assertion best [] = best
try_offers product assertion best (offer ∷ offers) =
    try_offers product assertion (try_offer product assertion best offer) offers

-- One turn of the loop over the products; a product without an assertion is passed over.
try_product : List AttributionAssertion → Option Selection → ProductResult → Option Selection
unfolding try_offers by_product
try_product assertions best product = elim (by_product assertions product.product_id) [
  | none ↦ best
  | some assertion ↦ try_offers product assertion best product.offers
]

pub try_products :
    List AttributionAssertion → Option Selection → List ProductResult → Option Selection
unfolding try_product
try_products assertions best [] = best
try_products assertions best (product ∷ products) =
    try_products assertions (try_product assertions best product) products

unfoldable pub select_cheapest_in_stock : SearchResponse → Option Selection
unfolding try_products
select_cheapest_in_stock response = try_products response.assertions none response.products

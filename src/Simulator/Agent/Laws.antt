-- ===== src/Simulator/Agent/Laws.antt =====
-- What the agent chooses.
use mathlib.Core.List.{Memᴰ}
use agentic_attribution.Prelude.{true, Option, none, some, ◌≡◌, refl, sym, arith}
use agentic_attribution.Js.Integer.{◌≤ℤ◌}
use agentic_attribution.Simulator.Agent.{
  SearchResponse, Selection, by_product, select_cheapest_in_stock,
}
use agentic_attribution.Simulator.Agent.Search.{
  IsAtMost, Holds, try_products-covers, try_products-Holds,
}

-- A selection out of the response: an offer in stock of one of its products, with the assertion that
-- counts for the product.
pub record IsBuyable (response : SearchResponse) (s : Selection) : Type 0 where
  pub listed : Memᴰ s.product response.products
  pub offered : Memᴰ s.offer s.product.offers
  pub stocked : s.offer.in_stock ≡ true
  pub covered : by_product response.assertions s.product.product_id ≡ some s.assertion

Holds-some :
    (Q : Selection → Type 0) (best : Option Selection) (s : Selection)
    → best ≡ some s
    → Holds Q best
    → Q s
Holds-some Q none s e h = ground arith
Holds-some Q (some b) s e h = let p : b ≡ s = ground arith in rw (sym p) h

IsAtMost-some :
    (best : Option Selection) (t : Selection)
    → IsAtMost best t
    → (s : Selection) × (best ≡ some s) × (s.offer.price_cents ≤ℤ t.offer.price_cents)
IsAtMost-some none t h = elim h [ ]
IsAtMost-some (some s) t h = (s, refl, h)

-- What the agent selects can be bought: it is an offer in stock, of a product of the response that
-- an assertion covers, with that assertion.
pub select_cheapest_in_stock-IsBuyable :
    (response : SearchResponse) (s : Selection)
    → select_cheapest_in_stock response ≡ some s
    → IsBuyable response s
unfolding select_cheapest_in_stock
select_cheapest_in_stock-IsBuyable response s h =
    Holds-some (IsBuyable response) (select_cheapest_in_stock response) s h (
      try_products-Holds response.assertions (IsBuyable response) response.products none tt
        (λ s i m p c. record { listed = i; offered = m; stocked = p; covered = c }))

-- Where something can be bought, the agent selects something, and it costs no more than anything
-- that can be bought.
pub select_cheapest_in_stock-le :
    (response : SearchResponse) (t : Selection)
    → IsBuyable response t
    → (s : Selection) × (select_cheapest_in_stock response ≡ some s)
      × IsBuyable response s
      × (s.offer.price_cents ≤ℤ t.offer.price_cents)
unfolding select_cheapest_in_stock
select_cheapest_in_stock-le response t b =
    let (s, e, p) = IsAtMost-some (select_cheapest_in_stock response) t (
      try_products-covers response.assertions response.products none t b.listed b.offered b.stocked
        b.covered) in
    (s, e, select_cheapest_in_stock-IsBuyable response s e, p)

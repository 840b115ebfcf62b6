-- ===== src/Simulator/Agent/Search.antt =====
-- The loops of `selectCheapestInStock` over the products and their offers.
use mathlib.Core.List.{Memᴰ}
use agentic_attribution.Prelude.{
  true, Option, none, some, List, [], ◌∷◌, ◌≡◌, inl, inr, refl, sym, arith, Option-cases,
  Bool-cases, ◌⊎◌,
}
use agentic_attribution.Js.Integer.{ltb_ℤ, ◌≤ℤ◌}
use agentic_attribution.Simulator.Agent.{
  AttributionAssertion, MerchantOffer, ProductResult, Selection, by_product, better, try_offer,
  try_offers, try_product, try_products,
}

-- There is a best selection, and it costs at most what `s` costs.
abbrev pub IsAtMost : Option Selection → Selection → Type 0
IsAtMost none s = Memᴰ s []
IsAtMost (some best) s = best.offer.price_cents ≤ℤ s.offer.price_cents

better-keeps :
    (best : Option Selection) (s t : Selection) → IsAtMost best t → IsAtMost (better best s) t
unfolding better
better-keeps none s t h = elim h [ ]
better-keeps (some best) s t h = ground arith

better-covers : (best : Option Selection) (s : Selection) → IsAtMost (better best s) s
unfolding better
better-covers none s = omega arith
better-covers (some best) s = ground arith

-- What holds of the best selection so far, where there is one.
abbrev pub Holds : (Selection → Type 0) → Option Selection → Type 0
Holds Q none = Unit {0}
Holds Q (some s) = Q s

better-Holds :
    (Q : Selection → Type 0) (best : Option Selection) (s : Selection)
    → Holds Q best
    → Q s
    → Holds Q (better best s)
unfolding better
better-Holds Q none s b q = q
better-Holds Q (some best) s b q =
    elim (Bool-cases (ltb_ℤ s.offer.price_cents best.offer.price_cents)) [
      | inl p ↦ rw p q
      | inr p ↦ rw p b
    ]

module _ (product : ProductResult) (assertion : AttributionAssertion) where
  abbrev chosen : MerchantOffer → Selection
  chosen offer = record { product = product; offer = offer; assertion = assertion }

  try_offer-stocked :
      (best : Option Selection) (offer : MerchantOffer)
      → offer.in_stock ≡ true
      → try_offer product assertion best offer ≡ better best (chosen offer)
  unfolding try_offer
  try_offer-stocked best offer p = ground (arith, p)

  try_offer-cases :
      (best : Option Selection) (offer : MerchantOffer)
      → ((offer.in_stock ≡ true)
          × (try_offer product assertion best offer ≡ better best (chosen offer)))
        ⊎ (try_offer product assertion best offer ≡ best)
  unfolding try_offer
  try_offer-cases best offer = elim (Bool-cases offer.in_stock) [
    | inl p ↦ inl (p, try_offer-stocked best offer p)
    | inr p ↦ inr (ground (arith, p))
  ]

  try_offer-keeps :
      (best : Option Selection) (offer : MerchantOffer) (t : Selection)
      → IsAtMost best t
      → IsAtMost (try_offer product assertion best offer) t
  try_offer-keeps best offer t h = elim (try_offer-cases best offer) [
    | inl (p, e) ↦ rw e (better-keeps best (chosen offer) t h)
    | inr e ↦ rw e h
  ]

  try_offers-keeps :
      (offers : List MerchantOffer) (best : Option Selection) (t : Selection)
      → IsAtMost best t
      → IsAtMost (try_offers product assertion best offers) t
  unfolding try_offers
  try_offers-keeps [] best t h = h
  try_offers-keeps (offer ∷ offers) best t h =
      try_offers-keeps offers (try_offer product assertion best offer) t
        (try_offer-keeps best offer t h)

  try_offer-covers :
      (best : Option Selection) (offer : MerchantOffer)
      → offer.in_stock ≡ true
      → IsAtMost (try_offer product assertion best offer) (chosen offer)
  try_offer-covers best offer p =
      rw (try_offer-stocked best offer p) (better-covers best (chosen offer))

  try_offers-covers :
      (offers : List MerchantOffer) (best : Option Selection) (o : MerchantOffer)
      → Memᴰ o offers
      → o.in_stock ≡ true
      → IsAtMost (try_offers product assertion best offers) (chosen o)
  unfolding try_offers
  try_offers-covers [] best o m p = elim m [ ]
  try_offers-covers (offer ∷ offers) best o (Memᴰ.head e) p =
      try_offers-keeps offers (try_offer product assertion best offer) (chosen o)
        (rw e (try_offer-covers best offer (rw e at p)))
  try_offers-covers (offer ∷ offers) best o (Memᴰ.tail m) p =
      try_offers-covers offers (try_offer product assertion best offer) o m p

  -- What holds of the best selection so far and of each new one holds of the result.
  module _ (Q : Selection → Type 0) where
    try_offer-Holds :
        (best : Option Selection) (offer : MerchantOffer)
        → Holds Q best
        → (offer.in_stock ≡ true → Q (chosen offer))
        → Holds Q (try_offer product assertion best offer)
    try_offer-Holds best offer b f = elim (try_offer-cases best offer) [
      | inl (p, e) ↦ rw e (better-Holds Q best (chosen offer) b (f p))
      | inr e ↦ rw e b
    ]

    try_offers-Holds :
        (offers : List MerchantOffer) (best : Option Selection)
        → Holds Q best
        → ((o : MerchantOffer) → Memᴰ o offers → o.in_stock ≡ true → Q (chosen o))
        → Holds Q (try_offers product assertion best offers)
    unfolding try_offers
    try_offers-Holds [] best b f = b
    try_offers-Holds (offer ∷ offers) best b f =
        try_offers-Holds offers (try_offer product assertion best offer)
          (try_offer-Holds best offer b (f offer (Memᴰ.head refl))) (λ o m. f o (Memᴰ.tail m))

module _ (assertions : List AttributionAssertion) where
  -- A product is passed over, or all of its offers are tried.
  try_product-cases :
      (best : Option Selection) (product : ProductResult)
      → ((assertion : AttributionAssertion) × (by_product assertions product.product_id
            ≡ some assertion)
          × (try_product assertions best product
              ≡ try_offers product assertion best product.offers))
        ⊎ ((by_product assertions product.product_id ≡ none)
            × (try_product assertions best product ≡ best))
  unfolding try_product
  try_product-cases best product = elim (Option-cases (by_product assertions product.product_id)) [
    | inl p ↦ inr (p, ground (arith, p))
    | inr (a, p) ↦ inl (a, p, ground (arith, p))
  ]

  try_product-keeps :
      (best : Option Selection) (product : ProductResult) (t : Selection)
      → IsAtMost best t
      → IsAtMost (try_product assertions best product) t
  try_product-keeps best product t h = elim (try_product-cases best product) [
    | inl (a, p, e) ↦ rw e (try_offers-keeps product a product.offers best t h)
    | inr (p, e) ↦ rw e h
  ]

  try_product-covers :
      (best : Option Selection) (t : Selection)
      → Memᴰ t.offer t.product.offers
      → t.offer.in_stock ≡ true
      → by_product assertions t.product.product_id ≡ some t.assertion
      → IsAtMost (try_product assertions best t.product) t
  try_product-covers best t m p c = elim (try_product-cases best t.product) [
    | inl (a, q, e) ↦
        let same : a ≡ t.assertion = cc in
        rw (e, same) (try_offers-covers t.product t.assertion t.product.offers best t.offer m p)
    | inr (q, e) ↦ absurd (ground (arith, q, c))
  ]

  try_products-keeps :
      (products : List ProductResult) (best : Option Selection) (t : Selection)
      → IsAtMost best t
      → IsAtMost (try_products assertions best products) t
  unfolding try_products
  try_products-keeps [] best t h = h
  try_products-keeps (product ∷ products) best t h =
      try_products-keeps products (try_product assertions best product) t
        (try_product-keeps best product t h)

  pub try_products-covers :
      (products : List ProductResult) (best : Option Selection) (t : Selection)
      → Memᴰ t.product products
      → Memᴰ t.offer t.product.offers
      → t.offer.in_stock ≡ true
      → by_product assertions t.product.product_id ≡ some t.assertion
      → IsAtMost (try_products assertions best products) t
  unfolding try_products
  try_products-covers [] best t i m p c = elim i [ ]
  try_products-covers (product ∷ products) best t (Memᴰ.head e) m p c =
      try_products-keeps products (try_product assertions best product) t
        (rw (sym e) (try_product-covers best t m p c))
  try_products-covers (product ∷ products) best t (Memᴰ.tail i) m p c =
      try_products-covers products (try_product assertions best product) t i m p c

  module _ (Q : Selection → Type 0) where
    try_product-Holds :
        (best : Option Selection) (product : ProductResult)
        → Holds Q best
        → ((s : Selection)
            → s.product ≡ product
            → Memᴰ s.offer s.product.offers
            → s.offer.in_stock ≡ true
            → by_product assertions s.product.product_id ≡ some s.assertion
            → Q s)
        → Holds Q (try_product assertions best product)
    try_product-Holds best product b f = elim (try_product-cases best product) [
      | inl (a, p, e) ↦ rw e (
          try_offers-Holds product a Q product.offers best b
            (λ o m stocked. f (chosen product a o) refl m stocked p))
      | inr (p, e) ↦ rw e b
    ]

    pub try_products-Holds :
        (products : List ProductResult) (best : Option Selection)
        → Holds Q best
        → ((s : Selection)
            → Memᴰ s.product products
            → Memᴰ s.offer s.product.offers
            → s.offer.in_stock ≡ true
            → by_product assertions s.product.product_id ≡ some s.assertion
            → Q s)
        → Holds Q (try_products assertions best products)
    unfolding try_products
    try_products-Holds [] best b f = b
    try_products-Holds (product ∷ products) best b f =
        try_products-Holds products (try_product assertions best product)
          (try_product-Holds best product b (λ s e. f s (Memᴰ.head e))) (λ s i. f s (Memᴰ.tail i))

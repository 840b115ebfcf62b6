-- ===== src/Merchant/Catalog.antt =====
-- merchant/src/catalog.ts: the listing that the merchant sells for a product, and the statement by
-- which it is looked up.
pub mod Order
pub mod Laws
use agentic_attribution.Prelude.{
  String, Bool, true, false, not, ◌&&◌, Option, none, some, List, [], ◌∷◌, Throws, ok, str_eq,
  if◌then◌else◌, ◌>>=◌,
}
use agentic_attribution.Js.Json.{Json}
use agentic_attribution.Js.Decimal.{integer_text}
use agentic_attribution.Js.Integer.{ℤ, ltb_ℤ}
use agentic_attribution.Merchant.Handler.{Listing}

-- A row of the table of listings. A price is a BIGINT.
pub record Stored : Type 0 where
  pub listing_id : String
  pub product_id : String
  pub merchant_id : String
  pub listing_title : String
  pub price_cents : ℤ
  pub currency : String
  pub in_stock : Bool

-- A row of the result, in which node-postgres gives a BIGINT as its text.
pub record Row : Type 0 where
  pub listing_id : String
  pub product_id : String
  pub merchant_id : String
  pub listing_title : String
  pub price_cents : String
  pub currency : String
  pub in_stock : Bool

-- `WHERE product_id = $1`, and with the filter ` AND merchant_id = $2`.
unfoldable pub is_meant : (filtered : Bool) → (parameters : List String) → Stored → Bool
is_meant false (product_id ∷ []) row = str_eq row.product_id product_id
is_meant true (product_id ∷ merchant_id ∷ []) row =
    str_eq row.product_id product_id && str_eq row.merchant_id merchant_id
is_meant _ _ row = false

-- `ORDER BY in_stock DESC, price_cents ASC`
unfoldable pub comes_before : Stored → Stored → Bool
comes_before row other =
    if row.in_stock
    then (if other.in_stock then ltb_ℤ row.price_cents other.price_cents else true)
    else if other.in_stock
    then false
    else ltb_ℤ row.price_cents other.price_cents

earlier : Stored → Option Stored → Option Stored
unfolding comes_before
earlier row none = some row
earlier row (some other) = if comes_before other row then some other else some row

-- The row that the order puts first; among equals, the one that is scanned first.
unfoldable pub first_meant :
    (filtered : Bool) → (parameters : List String) → List Stored → Option Stored
unfolding is_meant earlier
first_meant filtered parameters [] = none
first_meant filtered parameters (row ∷ rows) =
    let rest = first_meant filtered parameters rows in
    if is_meant filtered parameters row then earlier row rest else rest

row_of : Stored → Row
row_of row = record {
  listing_id = row.listing_id;
  product_id = row.product_id;
  merchant_id = row.merchant_id;
  listing_title = row.listing_title;
  price_cents = integer_text row.price_cents;
  currency = row.currency;
  in_stock = row.in_stock;
}

-- `LIMIT 1`
limited : Option Stored → List Row
unfolding row_of
limited none = []
limited (some row) = row_of row ∷ []

-- The statement over a table, in the order in which it is scanned.
unfoldable pub selected : List Stored → (filtered : Bool) → (parameters : List String) → List Row
unfolding limited first_meant
selected table filtered parameters = limited (first_meant filtered parameters table)

abbrev pub is_filtered : (merchant_id : String) → Bool
is_filtered merchant_id = not (str_eq merchant_id "")

unfoldable pub parameters : (merchant_id product_id : String) → List String
parameters merchant_id product_id =
    if is_filtered merchant_id then product_id ∷ merchant_id ∷ [] else product_id ∷ []

-- `number` is the language's `Number` of a text.
module _ (number : String → ℤ) where
  -- The listing that `findListing` makes of a row.
  listing_of : Row → Listing
  listing_of row = record {
    listing_id = row.listing_id;
    product_id = row.product_id;
    merchant_id = row.merchant_id;
    listing_title = row.listing_title;
    price_cents = number row.price_cents;
    currency = row.currency;
    in_stock = row.in_stock;
  }

  first_row : List Row → Option Listing
  unfolding listing_of
  first_row [] = none
  first_row (row ∷ rows) = some (listing_of row)

  -- `query` is the pool's, of the statement with or without the filter; `sent` is the text as which
  -- node-postgres sends a parameter.
  unfoldable pub find_listing :
      (query : (filtered : Bool) → List String → Throws (List Row)) (sent : Json → String)
      (merchant_id : String) (product_id : Json)
      → Throws (Option Listing)
  unfolding first_row parameters
  find_listing query sent merchant_id product_id = do
    rows ← query (is_filtered merchant_id) (parameters merchant_id (sent product_id))
    ok (first_row rows)

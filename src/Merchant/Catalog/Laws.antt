-- ===== src/Merchant/Catalog/Laws.antt =====
-- Which listing is found.
use mathlib.Core.List.{Memᴰ}
use agentic_attribution.Prelude.{
  String, Bool, true, false, Option, none, some, List, Throws, ok, ◌≡◌, ◌≢◌, inl, inr, refl, arith,
  str_eq, eq_iff, Bool-cases, >>=-eq-ok,
}
use agentic_attribution.Js.Json.{Json}
use agentic_attribution.Js.Decimal.{integer_text}
use agentic_attribution.Js.Integer.{ℤ, ◌≤ℤ◌}
use agentic_attribution.Merchant.Handler.{Listing}
use agentic_attribution.Merchant.Catalog.{
  Stored, Row, is_meant, comes_before, first_meant, row_of, limited, selected, is_filtered,
  parameters, listing_of, first_row, find_listing,
}
use agentic_attribution.Merchant.Catalog.Order.{IsFirst, first_meant-IsFirst}

-- A row for the product, and of the merchant where one is configured.
pub record IsFor (merchant_id product_id : String) (row : Stored) : Type 0 where
  pub of_product : row.product_id ≡ product_id
  pub of_merchant : merchant_id ≢ "" → row.merchant_id ≡ merchant_id

-- What the merchant sells for a product: nothing, if the table has no row for it, else one of its
-- rows, in stock if any of them is, and no dearer than any of them that is in stock, or out of it, as
-- it is.
pub data Sells (table : List Stored) (merchant_id product_id : String)
    : Option Listing → Type 0 where
  unlisted :
      ((row : Stored) → Memᴰ row table → IsFor merchant_id product_id row → ⊥)
      → Sells table merchant_id product_id none
  cheapest :
      (row : Stored)
      → Memᴰ row table
      → IsFor merchant_id product_id row
      → ((other : Stored)
          → Memᴰ other table
          → IsFor merchant_id product_id other
          → (other.in_stock ≡ true → row.in_stock ≡ true)
            × (row.in_stock ≡ other.in_stock → row.price_cents ≤ℤ other.price_cents))
      → Sells table merchant_id product_id (
          some (record {
            listing_id = row.listing_id;
            product_id = row.product_id;
            merchant_id = row.merchant_id;
            listing_title = row.listing_title;
            price_cents = row.price_cents;
            currency = row.currency;
            in_stock = row.in_stock;
          }))

IsFor-is_meant :
    (merchant_id product_id : String) (row : Stored)
    → IsFor merchant_id product_id row
    → is_meant (is_filtered merchant_id) (parameters merchant_id product_id) row ≡ true
unfolding parameters is_meant
IsFor-is_meant merchant_id product_id row f =
    let p = (eq_iff row.product_id product_id).1 f.of_product in
    elim (Bool-cases (str_eq merchant_id "")) [
      | inl blank ↦ rw (blank, p) refl
      | inr named ↦
          let given : merchant_id ≢ "" = λ e. ground (arith, named, eq_iff merchant_id "", e) in
          rw (named, p, (eq_iff row.merchant_id merchant_id).1 (f.of_merchant given)) refl
    ]

is_meant-IsFor :
    (merchant_id product_id : String) (row : Stored)
    → is_meant (is_filtered merchant_id) (parameters merchant_id product_id) row ≡ true
    → IsFor merchant_id product_id row
unfolding parameters is_meant
is_meant-IsFor merchant_id product_id row h = elim (Bool-cases (str_eq merchant_id "")) [
  | inl blank ↦ record {
    of_product = (eq_iff row.product_id product_id).0 (rw blank at h);
    of_merchant = λ given. absurd (given ((eq_iff merchant_id "").0 blank));
  }
  | inr named ↦
      let v = rw named at h in
      record {
        of_product = (eq_iff row.product_id product_id).0 (ground (arith, v));
        of_merchant = λ given. (eq_iff row.merchant_id merchant_id).0 (ground (arith, v));
      }
]

not_before :
    (row other : Stored)
    → comes_before other row ≡ false
    → (other.in_stock ≡ true → row.in_stock ≡ true)
      × (row.in_stock ≡ other.in_stock → row.price_cents ≤ℤ other.price_cents)
unfolding comes_before
not_before row other h = (λ stocked. ground arith, λ alike. ground arith)

-- The database answers with what the statement selects of the table, which it may scan in any order,
-- and prices are read back from their texts.
pub record Answers (number : String → ℤ) (table : List Stored)
    (query : (filtered : Bool) → List String → Throws (List Row)) : Type 0 where
  pub scan : (filtered : Bool) → List String → List Stored
  pub complete :
      (filtered : Bool) (params : List String) (row : Stored)
      → Memᴰ row table
      → Memᴰ row (scan filtered params)
  pub sound :
      (filtered : Bool) (params : List String) (row : Stored)
      → Memᴰ row (scan filtered params)
      → Memᴰ row table
  pub answers :
      (filtered : Bool) (params : List String) (rows : List Row)
      → query filtered params ≡ ok rows
      → rows ≡ selected (scan filtered params) filtered params
  pub reads_back :
      (row : Stored) → Memᴰ row table → number (integer_text row.price_cents) ≡ row.price_cents

first-Sells :
    (number : String → ℤ) (table scanned : List Stored) (merchant_id product_id : String)
    (best : Option Stored)
    → ((row : Stored) → Memᴰ row table → Memᴰ row scanned)
    → ((row : Stored) → Memᴰ row scanned → Memᴰ row table)
    → ((row : Stored) → Memᴰ row table → number (integer_text row.price_cents) ≡ row.price_cents)
    → IsFirst (is_filtered merchant_id) (parameters merchant_id product_id) scanned best
    → Sells table merchant_id product_id (first_row number (limited best))
unfolding first_row limited listing_of row_of
first-Sells number table scanned merchant_id product_id none complete sound reads h =
    unlisted
      (λ row m f. elim (h row (complete row m) (IsFor-is_meant merchant_id product_id row f)) [ ])
first-Sells number table scanned merchant_id product_id (some row) complete sound reads (m, n, f) =
    rw (reads row (sound row m)) (
      cheapest row (sound row m) (is_meant-IsFor merchant_id product_id row n) (λ other i g.
        not_before row other
          (f other (complete other i) (IsFor-is_meant merchant_id product_id other g))))

-- Where the database answers with what the statement selects of the table, if it answers, and prices
-- are read back from their texts: the listing that is found for a product is none if no row of the
-- merchant, or of any merchant where none is configured, is for it; else it is such a row, in stock
-- if any is, and no dearer than any such row that is in stock, or out of it, as it is.
pub find_listing-Sells :
    (number : String → ℤ) (table : List Stored)
    (query : (filtered : Bool) → List String → Throws (List Row)) (sent : Json → String)
    (merchant_id : String) (product_id : Json) (found : Option Listing)
    → Answers number table query
    → find_listing number query sent merchant_id product_id ≡ ok found
    → Sells table merchant_id (sent product_id) found
unfolding find_listing selected
find_listing-Sells number table query sent merchant_id product_id found a h =
    let filtered = is_filtered merchant_id in
    let params = parameters merchant_id (sent product_id) in
    let (rows, p, e) = >>=-eq-ok (query filtered params) _ h in
    let q : first_row number rows ≡ found = ground (arith, e) in
    rw (← q, a.answers filtered params rows p)
      (first-Sells number table (a.scan filtered params) merchant_id (sent product_id)
        (first_meant filtered params (a.scan filtered params)) (a.complete filtered params)
        (a.sound filtered params) a.reads_back
        (first_meant-IsFirst filtered params (a.scan filtered params)))

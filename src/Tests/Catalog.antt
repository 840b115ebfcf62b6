-- ===== src/Tests/Catalog.antt =====
-- The catalog over a table of two rows.
use agentic_attribution.Prelude.{
  ℕ, String, Bool, true, false, some, List, [], ◌∷◌, Throws, ok, ◌≡◌, refl, arith, str_eq,
  if◌then◌else◌,
}
use mathlib.Core.List.{Memᴰ}
use agentic_attribution.Js.Json.{Json, str}
use agentic_attribution.Js.Decimal.{integer_text, to_string}
use agentic_attribution.Js.Integer.{ℤ, pos}
use agentic_attribution.Merchant.Handler.{Listing}
use agentic_attribution.Merchant.Catalog.{
  Stored, Row, is_meant, comes_before, first_meant, selected, parameters, find_listing,
}
use agentic_attribution.Merchant.Catalog.Laws.{Sells, Answers, find_listing-Sells}

abbrev row_at : (merchant_id : String) → ℕ → Bool → Stored
row_at merchant_id price in_stock = record {
  listing_id = "l1";
  product_id = "p1";
  merchant_id = merchant_id;
  listing_title = "One";
  price_cents = pos price;
  currency = "USD";
  in_stock = in_stock;
}

-- A cheaper row that is out of stock, and two that are in stock.
abbrev table : List Stored
table = row_at "m1" 2 false ∷ row_at "m2" 4 true ∷ row_at "m3" 3 true ∷ []

abbrev query : Bool → List String → Throws (List Row)
query filtered params = ok (selected table filtered params)

-- `Number`, of the texts that stand in the table.
abbrev number : String → ℤ
number s = if str_eq s "2" then pos 2 else if str_eq s "3" then pos 3 else pos 4

abbrev sent : Json → String
sent (str s) = s
sent _ = ""

abbrev cheapest_in_stock : Listing
cheapest_in_stock = record {
  listing_id = "l1";
  product_id = "p1";
  merchant_id = "m3";
  listing_title = "One";
  price_cents = pos 3;
  currency = "USD";
  in_stock = true;
}

looking_up : Unit {0}
unfolding find_listing selected first_meant is_meant comes_before parameters integer_text to_string
looking_up = tt

find_listing_test : find_listing number query sent "" (str "p1") ≡ ok (some cheapest_in_stock)
unfolding looking_up
find_listing_test = refl

reads_back :
    (row : Stored) → Memᴰ row table → number (integer_text row.price_cents) ≡ row.price_cents
unfolding looking_up
reads_back row (Memᴰ.head e) = rw e refl
reads_back row (Memᴰ.tail (Memᴰ.head e)) = rw e refl
reads_back row (Memᴰ.tail (Memᴰ.tail (Memᴰ.head e))) = rw e refl
reads_back row (Memᴰ.tail (Memᴰ.tail (Memᴰ.tail m))) = elim m [ ]

answers : Answers number table query
answers = record {
  scan = λ filtered params. table;
  complete = λ filtered params row m. m;
  sound = λ filtered params row m. m;
  answers = λ filtered params rows h. ground (arith, h);
  reads_back = reads_back;
}

find_listing-Sells_example : Sells table "" "p1" (some cheapest_in_stock)
find_listing-Sells_example =
    find_listing-Sells number table query sent "" (str "p1") (some cheapest_in_stock) answers
      find_listing_test

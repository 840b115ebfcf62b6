-- ===== src/Merchant/Config/Laws.antt =====
-- Prices in atomic units.
use agentic_attribution.Prelude.{ℕ, ◌*◌, ◌≤◌, String, true, some, ok, ◌≡◌, arith}
use agentic_attribution.Js.Json.{str}
use agentic_attribution.Js.Decimal.{codes, big_int, is_decimal, to_string}
use agentic_attribution.Js.Decimal.RoundTrip.{big_int-to_string, to_string-is_decimal}
use agentic_attribution.Js.Integer.{ℤ, pos, negsuc}
use agentic_attribution.Types.Eip3009.{max_uint256, to_uint256}
use agentic_attribution.Types.Eip3009.Laws.{to_uint256-to_string}
use agentic_attribution.Merchant.Config.{cents_to_atomic_units}

-- The text for a price of `cents` is decimal, is `BigInt`'s text for 10000 times the price, and
-- reads back as that amount wherever it fits a uint256.
pub cents_to_atomic_units_lem :
    (cents : ℕ) (text : String)
    → cents_to_atomic_units (pos cents) ≡ ok text
    → (is_decimal (codes text) ≡ true)
      × (big_int (codes text) ≡ some (pos (cents * 10000)))
      × (cents * 10000 ≤ max_uint256 → to_uint256 (some (str text)) ≡ ok (cents * 10000))
unfolding cents_to_atomic_units
cents_to_atomic_units_lem cents text h =
    let e : to_string (cents * 10000) ≡ text = ground arith in
    rw (← e) (
      to_string-is_decimal (cents * 10000),
      big_int-to_string (cents * 10000),
      to_uint256-to_string (cents * 10000),
    )

-- Different prices have different texts.
pub cents_to_atomic_units-injective :
    (a b : ℤ) (text : String)
    → cents_to_atomic_units a ≡ ok text
    → cents_to_atomic_units b ≡ ok text
    → a ≡ b
unfolding cents_to_atomic_units
cents_to_atomic_units-injective (pos a) (pos b) text p q =
    let x = (cents_to_atomic_units_lem a text p).1 in
    let y = (cents_to_atomic_units_lem b text q).1 in ground arith
cents_to_atomic_units-injective (negsuc a) b text p q = ground arith
cents_to_atomic_units-injective (pos a) (negsuc b) text p q = ground arith

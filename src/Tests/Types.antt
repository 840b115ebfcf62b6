-- ===== src/Tests/Types.antt =====
-- The shared types at concrete inputs.
use mathlib.Core.List.{Memᴰ}
use agentic_attribution.Prelude.{some, ok, [], ◌∷◌, ◌≡◌, refl, sym, ap, arith}
use agentic_attribution.Js.Json.{str, property, read, value_text}
use agentic_attribution.Js.Decimal.{big_int, is_blank, to_string, codes}
use agentic_attribution.Js.Integer.{pos}
use agentic_attribution.Types.Commission.{calculate_commission}
use agentic_attribution.Types.Commission.Laws.{IsFair, calculate_commission-IsFair}
use agentic_attribution.Types.Eip3009.{to_uint256, to_typed_message, Eip3009Message}
use agentic_attribution.Types.Eip3009.Laws.{ReadsAs, to_uint256-eq-ok_iff}
use agentic_attribution.Types.Assertion.{
  UnsignedAssertion, unsigned, ordered, canonicalize_for_signing, verify_assertion,
}
use agentic_attribution.Types.Assertion.Laws.{IsSigned, IsFresh, verify_assertion-eq-ok_iff}
use agentic_attribution.Types.Assertion.Tampering.{IsUnforgeable, verify_assertion-issued}
use agentic_attribution.Tests.Edge.{platform, assertion, same_bytes-eq}

verifying : Unit {0}
unfolding verify_assertion unsigned canonicalize_for_signing property read value_text to_uint256
    to_typed_message big_int is_blank to_string calculate_commission
verifying = tt

-- A sale of 99.99 at 5 percent.
split_test : calculate_commission 9999 500 ≡ record {
  commission_amount_cents = 499;
  platform_fee_cents = 149;
  publisher_amount_cents = 350;
}
unfolding verifying
split_test = refl

-- The product is above 2 ^ 53, and its ten thousandth part, 69545174718304.9962, is rounded up.
inexact_test : (calculate_commission 73874203014983 9414).commission_amount_cents ≡ 69545174718305
unfolding verifying
inexact_test = refl

calculate_commission-IsFair_example : IsFair 9999 500 (calculate_commission 9999 500)
calculate_commission-IsFair_example = calculate_commission-IsFair 9999 500 (ground arith)

to_uint256-eq-ok_iff_example : ReadsAs (some (str " 0x10 ")) 16
unfolding verifying
to_uint256-eq-ok_iff_example = (to_uint256-eq-ok_iff (some (str " 0x10 ")) 16).0 refl

abbrev small_message : Eip3009Message
small_message = record {
  from = some (str "0xf");
  to = some (str "0xm");
  value = 20000;
  valid_after = 0;
  valid_before = 9;
  nonce = some (str "0xab");
}

verifies : verify_assertion platform assertion 7 (pos 4999) ≡ ok tt
unfolding verifying
verifies = refl

verify_assertion-eq-ok_iff_example :
    IsSigned platform 7 assertion × IsFresh platform assertion (pos 4999)
verify_assertion-eq-ok_iff_example =
    (verify_assertion-eq-ok_iff platform assertion 7 (pos 4999)).0 verifies

one_issued :
    (a : UnsignedAssertion)
    → Memᴰ a (unsigned assertion ∷ [])
    → ordered (unsigned assertion) ≡ ordered a
one_issued a (Memᴰ.head e) = ap ordered (sym e)
one_issued a (Memᴰ.tail t) = elim t [ ]

unforgeable : IsUnforgeable platform 7 (unsigned assertion ∷ []) assertion
unfolding canonicalize_for_signing
unforgeable = record {
  signed_only = λ signature payload h.
      (unsigned assertion, Memᴰ.head refl, same_bytes-eq payload (codes "signed") h);
  distinct = λ a m p. one_issued a m;
}

verify_assertion-issued_example : Memᴰ (unsigned assertion) (unsigned assertion ∷ [])
verify_assertion-issued_example =
    verify_assertion-issued platform 7 (unsigned assertion ∷ []) assertion (pos 4999) unforgeable
      verifies

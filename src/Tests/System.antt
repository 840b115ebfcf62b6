-- ===== src/Tests/System.antt =====
-- The services together at one purchase.
use agentic_attribution.Prelude.{some, [], ◌∷◌, ◌≡◌, refl, arith, eq_iff, lookup}
use agentic_attribution.Js.Json.{
  str, find_member, property, read, value_text, truthy, strict_equal, is_object_value,
}
use agentic_attribution.Js.Decimal.{to_string, integer_text}
use agentic_attribution.Js.Text.{trim}
use agentic_attribution.Types.Assertion.{
  unsigned, ordered, canonicalize_for_signing, verify_assertion, import_verification_key,
}
use agentic_attribution.Gateway.KeyCache.Laws.{reset-IsCoherent}
use agentic_attribution.Gateway.Handler.{forwarded}
use agentic_attribution.Gateway.Server.{located}
use agentic_attribution.Merchant.Config.{cents_to_atomic_units}
use agentic_attribution.Merchant.X402.{encode_header_json}
use agentic_attribution.Merchant.Settlement.{ServiceResponse, settle}
use agentic_attribution.Merchant.Handler.{
  requirements_for, requirements_json, challenge_json, fulfillment_of,
}
use agentic_attribution.Merchant.Handler.Laws.{Offers}
use agentic_attribution.Merchant.Server.{fulfillment_json}
use agentic_attribution.Simulator.Payment.{authorization_for, backdated, payment_with}
use agentic_attribution.Simulator.Requests.{
  done, agent_error, product_body, challenge_request, completion_request, request_challenge,
  complete_purchase,
}
use agentic_attribution.System.Network.{as_single, message_of, at_merchant, at_gateway, fetch}
use agentic_attribution.System.Network.Laws.{IsCarried}
use agentic_attribution.System.Exchange.{IsSent, sent_on}
use agentic_attribution.System.Challenge.{asks, request_challenge-terms}
use agentic_attribution.System.Completion.{Order, payment, pays, asked, sent_to_merchant, Buys}
use agentic_attribution.System.Completion.Outcome.{
  completion-settles_once, completion-fulfilled, completion-rejected,
}
use agentic_attribution.Tests.Edge.{assertion}
use agentic_attribution.Tests.Merchant.{listing, requirements, refusal}
use agentic_attribution.Tests.Network.{
  account, result, fulfillment, platform, hop-IsLossless, setting_with, setting,
}

abbrev order : Order
order = record {
  account = account;
  r = requirements;
  clock = 100000;
  nonce = "0xab";
  signature = "0xs";
  product_id = "p1";
  assertion = assertion;
  listing = listing;
}

everywhere : Unit {0}
unfolding verify_assertion unsigned ordered canonicalize_for_signing property find_member read
    value_text requirements_for cents_to_atomic_units to_string lookup settle is_object_value truthy
    strict_equal located message_of as_single product_body challenge_request completion_request
    payment_with authorization_for backdated integer_text challenge_json fulfillment_json
    requirements_json encode_header_json import_verification_key fulfillment_of trim
everywhere = tt

product_body-IsCarried : IsCarried platform (product_body "p1")
unfolding everywhere
product_body-IsCarried = record { parses = refl; decodes = refl; buffers = refl }

asks-IsSent : IsSent setting (asks setting "p1") (product_body "p1")
unfolding everywhere
asks-IsSent = record {
  first_lossless = hop-IsLossless;
  second_lossless = hop-IsLossless;
  at_purchase = refl;
  small = ground arith;
  honest = refl;
  is_text = refl;
  carried = product_body-IsCarried;
}

offers : Offers (setting.deps) (product_body "p1") listing requirements
unfolding everywhere
offers = record {
  product_id = str "p1";
  asked = refl;
  named = refl;
  found = refl;
  stocked = refl;
  priced = refl;
}

request_challenge-terms_example :
    (request_challenge platform (fetch setting) "p1" ≡ done (requirements_json requirements))
    × ((at_gateway setting (asks setting "p1")).effects
        ≡ forwarded (sent_on setting (asks setting "p1")) ∷ [])
    × ((at_merchant setting (sent_on setting (asks setting "p1"))).settlements ≡ [])
unfolding everywhere
request_challenge-terms_example =
    request_challenge-terms setting "p1" listing requirements asks-IsSent offers refl refl
      (record { parses = refl; decodes = refl; buffers = refl })

-- The same purchase, whatever the settlement service answers.
buys_with : (response : ServiceResponse) → Buys (setting_with response) order
unfolding everywhere
buys_with response = record {
  sent = record {
    first_lossless = hop-IsLossless;
    second_lossless = hop-IsLossless;
    at_purchase = refl;
    small = ground arith;
    honest = refl;
    is_text = refl;
    carried = product_body-IsCarried;
  };
  offers = record {
    product_id = str "p1";
    asked = refl;
    named = refl;
    found = refl;
    stocked = refl;
    priced = refl;
  };
  assertion_carried = record {
    carried = record { parses = refl; decodes = refl; buffers = refl };
    armoured = refl;
    filled = ground (arith, eq_iff "A" "");
  };
  payment_carried = record {
    carried = record { parses = refl; decodes = refl; buffers = refl };
    armoured = refl;
    filled = ground (arith, eq_iff "P" "");
  };
  signed = ground (arith, eq_iff "0xs" "");
  coherent = reset-IsCoherent platform;
  edge_key = 7;
  imports = refl;
  verifies_at_edge = refl;
  verifies_at_shop = refl;
  covers = refl;
}

completion-settles_once_example :
    ((at_gateway setting (pays setting order)).effects
      ≡ forwarded (sent_to_merchant setting order) ∷ [])
    × ((at_merchant setting (sent_to_merchant setting order)).settlements
        ≡ asked setting order ∷ [])
completion-settles_once_example =
    completion-settles_once setting order (buys_with (record { status = 200; json = some result }))

completion-fulfilled_example :
    complete_purchase platform (fetch setting) "p1" assertion (payment setting order)
    ≡ done (fulfillment_json fulfillment)
unfolding everywhere
completion-fulfilled_example =
    completion-fulfilled setting order (buys_with (record { status = 200; json = some result }))
      result fulfillment refl refl (record { parses = refl; decodes = refl; buffers = refl })

abbrev refusing : ServiceResponse
refusing = record { status = 409; json = some refusal }

completion-rejected_example :
    complete_purchase platform
      (fetch (setting_with refusing))
      "p1"
      assertion
      (payment (setting_with refusing) order)
    ≡ agent_error "purchase rejected" 409 refusal
unfolding everywhere
completion-rejected_example =
    completion-rejected (setting_with refusing) order (buys_with refusing) 409 refusal refl
      (ground arith) (record { parses = refl; decodes = refl; buffers = refl })

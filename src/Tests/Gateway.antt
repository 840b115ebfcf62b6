-- ===== src/Tests/Gateway.antt =====
-- The gateway at one purchase.
use agentic_attribution.Prelude.{
  ℕ, String, false, some, ok, List, [], ◌∷◌, ◌≡◌, refl, arith, lookup, eq_iff,
}
use agentic_attribution.Js.Json.{property, read, value_text}
use agentic_attribution.Js.Text.{trim}
use agentic_attribution.Js.Integer.{pos}
use agentic_attribution.Types.Assertion.{
  unsigned, canonicalize_for_signing, verify_assertion, import_verification_key,
}
use agentic_attribution.Gateway.Body.{read_bounded}
use agentic_attribution.Js.Stream.{join_chunks, collect}
use agentic_attribution.Gateway.Body.Laws.{read_bounded_lem}
use agentic_attribution.Gateway.KeyCache.{reset_key_cache, verification_key}
use agentic_attribution.Gateway.KeyCache.Laws.{IsCoherent, reset-IsCoherent, verification_key_lem}
use agentic_attribution.Gateway.Handler.{
  GatewayEnv, Request, Forwarded, OriginResponse, forwarded, decode_header_json, given,
  forwardable_headers, handle,
}
use agentic_attribution.Gateway.Handler.Laws.{
  IsPaidPurchase, IsAuthentic, to_merchant, forwards-paid_purchase_iff,
}
use agentic_attribution.Gateway.Handler.Journal.{Outcome, paid_purchase-Outcome}
use agentic_attribution.Gateway.Handler.Rotation.{
  SameAnswer, Call, called, cache_after, history-SameAnswer,
}
use agentic_attribution.Gateway.Server.{
  IncomingMessage, single, several, to_headers, located, answered, serve, Arrival, run,
}
use agentic_attribution.Gateway.Server.Laws.{request_of, serve-body}
use agentic_attribution.Tests.Edge.{platform, assertion, public_key}

at_the_edge : Unit {0}
unfolding handle verify_assertion unsigned canonicalize_for_signing property read value_text
    read_bounded import_verification_key trim verification_key reset_key_cache decode_header_json
    lookup given forwardable_headers
at_the_edge = tt

abbrev env : GatewayEnv
env = record {
  search_url = "http://s";
  merchant_url = "http://m";
  settlement_url = some "http://t/";
  attribution_public_key = public_key;
}

abbrev purchase_with : String → Request
purchase_with assertion_header = record {
  method = "POST";
  pathname = "/purchase";
  headers =
      ("host", "edge")
      ∷ ("payment-signature", "P")
      ∷ ("x-attribution-assertion", assertion_header)
      ∷ [];
  stream = some ((b'B' ∷ []) ∷ []);
}

abbrev merchant : Forwarded → OriginResponse
merchant f = record { status = 200; headers = []; body = [] }

paid : (a : String) → IsPaidPurchase platform (λ f. ok (merchant f)) (purchase_with a)
unfolding at_the_edge
paid a = record {
  posted = refl;
  on_route = refl;
  bytes = b'B' ∷ [];
  within = refl;
  payment = "P";
  paid = refl;
}

authentic : IsAuthentic platform (λ f. ok (merchant f)) env (purchase_with "A") (pos 4999)
unfolding at_the_edge
authentic = record {
  encoded = "A";
  presented = refl;
  assertion = assertion;
  decodes = refl;
  key = 7;
  imports = refl;
  verifies = refl;
}

forwards-paid_purchase_iff_example :
    (handle platform
      (λ f. ok (merchant f))
      reset_key_cache
      env
      (purchase_with "A")
      (pos 4999)).effects
    ≡ forwarded (to_merchant platform (λ f. ok (merchant f)) env (purchase_with "A") "B" (pos 4999))
      ∷ []
unfolding paid
forwards-paid_purchase_iff_example =
    (forwards-paid_purchase_iff platform (λ f. ok (merchant f)) reset_key_cache env
        (purchase_with "A") (pos 4999) (paid "A") (reset-IsCoherent platform)).1
      authentic

paid_purchase-Outcome_example :
    Outcome "http://t/"
      (handle platform (λ f. ok (merchant f)) reset_key_cache env (purchase_with "A") (pos 5000))
paid_purchase-Outcome_example =
    paid_purchase-Outcome platform (λ f. ok (merchant f)) env "http://t/" refl
      (ground (arith, eq_iff "http://t/" "")) reset_key_cache (purchase_with "A") (pos 5000)
      (paid "A")

verification_key_lem_example :
    ((verification_key platform reset_key_cache public_key).0
      ≡ import_verification_key platform public_key)
    × IsCoherent platform (verification_key platform reset_key_cache public_key).1
verification_key_lem_example =
    verification_key_lem platform reset_key_cache public_key (reset-IsCoherent platform)

read_bounded_lem_example :
    read_bounded (λ t n. false) (some "1") (some ((1 ∷ 2 ∷ []) ∷ (3 ∷ []) ∷ []))
    ≡ some (1 ∷ 2 ∷ 3 ∷ [])
unfolding join_chunks
read_bounded_lem_example =
    read_bounded_lem (λ t n. false) (some "1") ((1 ∷ 2 ∷ []) ∷ (3 ∷ []) ∷ []) refl

abbrev one_chunk : List ℕ
one_chunk = 3 ∷ []

-- A purchase in two chunks, as node:http hands it over.
abbrev posted : IncomingMessage
posted = record {
  method = some "POST";
  url = some "/purchase";
  headers = ("content-length", single "2") ∷ ("cookie", several ("a=1" ∷ "b=2" ∷ [])) ∷ [];
  stream = (b'B' ∷ []) ∷ (b'B' ∷ []) ∷ [];
}

headers_test : to_headers posted.headers ≡ ("content-length", "2") ∷ ("cookie", "a=1, b=2") ∷ []
unfolding to_headers
headers_test = refl

serve-body_example :
    let request = request_of posted "/purchase" (b'B' ∷ b'B' ∷ []) in
    let h = handle platform (λ f. ok (merchant f)) reset_key_cache env request (pos 4999) in
    serve
      (λ url base. ok url)
      "8080"
      platform
      (λ f. ok (merchant f))
      reset_key_cache
      env
      posted
      (pos 4999)
    ≡ answered h h.reply
unfolding join_chunks located
serve-body_example =
    ((serve-body (λ url base. ok url) "8080" platform (λ f. ok (merchant f)) reset_key_cache env
        posted (pos 4999) "/purchase" refl refl).1
      (ground arith)).0

abbrev arrival : Arrival
arrival = record {
  message = record posted {
    headers = ("payment-signature", single "P") ∷ ("x-attribution-assertion", single "A") ∷ [];
  };
  now = pos 4999;
  fetch = λ f. ok (merchant f);
}

-- The first of the two purchases imports the key.
imported_test :
    (run
      (λ url base. ok url)
      "8080"
      platform
      env
      reset_key_cache
      (arrival ∷ arrival ∷ [])).cached_key
    ≡ some 7
unfolding run serve at_the_edge to_headers join_chunks collect
imported_test = refl

abbrev call_with : (attribution_public_key : String) → Call
call_with attribution_public_key = record {
  env = record env { attribution_public_key = attribution_public_key };
  request = purchase_with "A";
  now = pos 4999;
  fetch = λ f. ok (merchant f);
}

-- The key changes after the first call, and then changes back.
history-SameAnswer_example :
    SameAnswer
      (called platform
        (cache_after platform reset_key_cache (call_with public_key ∷ call_with "rotated" ∷ []))
        (call_with public_key))
      (called platform reset_key_cache (call_with public_key))
history-SameAnswer_example =
    history-SameAnswer platform (call_with public_key ∷ call_with "rotated" ∷ [])
      (call_with public_key)

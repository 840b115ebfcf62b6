-- ===== src/Tests/Attack.antt =====
-- A tampered assertion, tried on the services.
use mathlib.Core.List.{Memᴰ}
use agentic_attribution.Prelude.{
  ok, ℕ, String, true, false, Option, none, some, List, [], ◌∷◌, ◌==◌, ◌≡◌, refl, arith, sym,
  lookup, str_eq, eq_iff, if◌then◌else◌, VerificationFailure, invalid_signature, throw,
  assertion_verification_error,
}
use agentic_attribution.Js.Json.{Json, obj, end, member, property, find_member, read, value_text}
use agentic_attribution.Js.Decimal.{codes, to_string}
use agentic_attribution.Js.Integer.{pos}
use agentic_attribution.Js.Text.{trim}
use agentic_attribution.Platform.{Platform}
use agentic_attribution.Types.Assertion.{
  unsigned, ordered, canonicalize_for_signing, verify_assertion, import_verification_key,
}
use agentic_attribution.Types.Assertion.Tampering.{IsUnforgeable}
use agentic_attribution.Gateway.KeyCache.Laws.{reset-IsCoherent}
use agentic_attribution.Gateway.Handler.Laws.{forwards}
use agentic_attribution.Gateway.Server.{located}
use agentic_attribution.Merchant.X402.{encode_header_json}
use agentic_attribution.Simulator.Agent.{select_cheapest_in_stock}
use agentic_attribution.Simulator.Fraud.{
  pick_fraud_mode, element, tampered_publisher, apply_fraud, wire,
}
use agentic_attribution.Simulator.Fraud.Laws.{IsSound}
use agentic_attribution.Simulator.Runner.Attempt.{
  AgentCalls, Draws, drawn_mode, empty_stats, run_once,
}
use agentic_attribution.Simulator.Runner.Attempt.Refused.{Reaches, IsBlocked}
use agentic_attribution.System.Attack.Run.{fraud_run-IsBlocked}
use agentic_attribution.Simulator.Requests.{
  done, agent_error, product_body, completion_request, complete_purchase,
}
use agentic_attribution.System.Network.{Setting, as_single, message_of, at_gateway, fetch}
use agentic_attribution.System.Attack.{IsAttack, forged, refusal_json, attack-stopped}
use agentic_attribution.Tests.Edge.{same_bytes-eq}
use agentic_attribution.Tests.Simulator.{
  genuine, hours_ago, issued, signing, publisher_of, only, other_bytes, sound, response, at_price,
}
use agentic_attribution.Tests.Network.{has, setting, hop-IsLossless}

abbrev fraud : Json
fraud = wire (apply_fraud hours_ago genuine tampered_publisher)

abbrev payment : Json
payment = obj (member "authorization" (obj end) end)

abbrev unverified : String
unverified = "signature does not verify against the public key"

abbrev text : Json → String
text v =
    if has v "signature"
    then "A"
    else if has v "authorization"
    then "P"
    else if has v "error"
    then "R"
    else if has v "publisher_id"
    then publisher_of v
    else "B"

abbrev value : String → Option Json
value s =
    if str_eq s "A"
    then some fraud
    else if str_eq s "P"
    then some payment
    else if str_eq s "R"
    then some (refusal_json invalid_signature unverified)
    else if str_eq s "B"
    then some (product_body "p1")
    else none

abbrev letter : List ℕ → String
letter [] = ""
letter (c ∷ rest) =
    if c == b'A' then "A" else if c == b'P' then "P" else if c == b'R' then "R" else "B"

abbrev platform : Platform ℕ
platform = record signing {
  stringify = text;
  parse_json = value;
  btoa = letter;
  utf8_text = letter;
  buffer_text = letter;
}

abbrev attacked : Setting ℕ
attacked = record setting {
  deps = record (setting.deps) { platform = platform };
  edge_now = pos 5000;
}

everywhere : Unit {0}
unfolding verify_assertion unsigned ordered canonicalize_for_signing property find_member read
    value_text to_string lookup located message_of as_single product_body completion_request
    encode_header_json wire apply_fraud import_verification_key trim
everywhere = tt

soundness : IsSound platform 7 issued hours_ago (pos 5000)
soundness = record {
  no_attacker = sound.no_attacker;
  no_inflated = sound.no_inflated;
  no_forgery = sound.no_forgery;
  past = sound.past;
  dated = sound.dated;
  passed = sound.passed;
}

signed_payload :
    (signature payload : List ℕ)
    → platform.verify_ed25519 7 signature payload ≡ true
    → payload ≡ codes "pub_000001"
signed_payload signature payload h = same_bytes-eq payload (codes "pub_000001") (ground arith)

unforgeability : IsUnforgeable platform 7 issued fraud
unfolding everywhere
unforgeability = record {
  signed_only = λ signature payload h.
      (unsigned (wire genuine), Memᴰ.head refl, signed_payload signature payload h);
  distinct = λ a m p. absurd (other_bytes (rw (sym (only a m)) at p));
}

refusal_lem :
    (reason : VerificationFailure) (detail : String)
    → verify_assertion platform fraud 7 (pos 5000)
      ≡ throw (assertion_verification_error reason detail)
    → refusal_json reason detail ≡ refusal_json invalid_signature unverified
unfolding everywhere
refusal_lem reason detail h = ground arith

attack : IsAttack attacked "p1" fraud payment
unfolding everywhere
attack = record {
  sent = record {
    first_lossless = hop-IsLossless;
    second_lossless = hop-IsLossless;
    at_purchase = refl;
    small = ground arith;
    honest = refl;
    is_text = refl;
    carried = record { parses = refl; decodes = refl; buffers = refl };
  };
  assertion_carried = record {
    carried = record { parses = refl; decodes = refl; buffers = refl };
    armoured = refl;
    filled = ground (arith, eq_iff "A" "");
  };
  payment_carried = record {
    carried = record { parses = refl; decodes = refl; buffers = refl };
    armoured = refl;
    filled = ground (arith, eq_iff "P" "");
  };
  coherent = reset-IsCoherent platform;
  edge_key = 7;
  imports = refl;
  answers_carried = λ reason detail h.
      rw (refusal_lem reason detail h) (record { parses = refl; decodes = refl; buffers = refl });
}

attack-stopped_example :
    (forwards (at_gateway attacked (forged attacked "p1" fraud payment)).effects ≡ false)
    × ((reason : VerificationFailure) × (detail : String) × (complete_purchase platform
            (fetch attacked)
            "p1"
            fraud
            payment
          ≡ agent_error "purchase rejected" 401 (refusal_json reason detail)))
unfolding everywhere attack
attack-stopped_example =
    attack-stopped attacked "p1" payment issued hours_ago genuine tampered_publisher attack
      soundness unforgeability

-- Agents that search the catalog of the fixtures and buy from the services.
abbrev calls : AgentCalls
calls = record {
  search = λ query publisher_id. done response;
  request_challenge = λ product_id. done (obj end);
  sign_authorization = λ requirements. done payment;
  complete_purchase =
      λ product_id a p. complete_purchase platform (fetch attacked) product_id (wire a) p;
}

abbrev draws : Draws
draws = record { publisher = 0; query = 0; fraudulent = true; mode = λ n. 0 }

reaches :
    Reaches
      (λ v. ok "1.00")
      hours_ago
      calls
      ("pub_000001" ∷ [])
      ("hat" ∷ [])
      draws
      (some tampered_publisher)
      (at_price 20)
      payment
unfolding drawn_mode pick_fraud_mode element select_cheapest_in_stock
reaches = record {
  drawn = refl;
  publisher_id = "pub_000001";
  query = "hat";
  has_publisher = refl;
  has_query = refl;
  results = response;
  finds = refl;
  selects = refl;
  requirements = obj end;
  challenged = refl;
  signs = refl;
}

fraud_run-IsBlocked_example :
    IsBlocked
      (λ v. ok "1.00")
      hours_ago
      calls
      ("pub_000001" ∷ [])
      ("hat" ∷ [])
      draws
      empty_stats
      (run_once (λ v. ok "1.00") hours_ago calls ("pub_000001" ∷ []) ("hat" ∷ []) draws empty_stats)
unfolding attack
fraud_run-IsBlocked_example =
    fraud_run-IsBlocked attacked (λ v. ok "1.00") hours_ago calls ("pub_000001" ∷ []) ("hat" ∷ [])
      draws tampered_publisher (at_price 20) payment empty_stats issued attack
      (λ product_id a p. refl) reaches soundness unforgeability

-- ===== src/Gateway/Handler.antt =====
-- gateway/src/handler.ts: routing, verification at the edge, forwarding and journalling.
pub mod Laws
pub mod Journal
pub mod State
pub mod Rotation
pub mod Refusal
use agentic_attribution.Prelude.{
  ℕ, String, Bool, true, false, not, ◌&&◌, Option, none, some, List, [], ◌∷◌, ◌++◌, Throws, ok,
  throw, Exception, syntax_error, error, type_error, malformed_payment_error,
  assertion_verification_error, VerificationFailure, malformed_signature, invalid_signature,
  expired, message, str_eq, lookup, includes, any, ◌>>=◌, if◌then◌else◌,
}
use Prim.Native.String.{◌++◌ as str_append}
use agentic_attribution.Js.Json.{Json, null, bool, num, str, arr, obj, property, else_text}
use agentic_attribution.Js.Integer.{ℤ}
use agentic_attribution.Js.Text.{strip_trailing_slashes}
use agentic_attribution.Platform.{Platform}
use agentic_attribution.Types.Assertion.{verify_assertion}
use agentic_attribution.Gateway.Body.{read_bounded}
use agentic_attribution.Gateway.KeyCache.{KeyCache, verification_key}
pub use agentic_attribution.Gateway.Answer.{
  GatewayEnv, search_route, purchase_route, health_route, assertion_header, payment_header,
  unknown_publisher, Request, Forwarded, OriginResponse, RejectionReport, Response, healthy,
  refusal, relayed, Effect, forwarded, reported, failure_text, stripped_request_headers, Handled,
}
unfoldable pub use agentic_attribution.Gateway.Answer.{
  forwardable_headers, or_text, report_rejection, given, relay, rejection,
}

module _ {Key : Type 0} (platform : Platform Key) where
  open platform use {atob, utf8_text, parse_json}

  -- `decodeHeaderJson`; `none` where it throws.
  unfoldable pub decode_header_json : String → Option Json
  decode_header_json encoded = elim (atob encoded) [
    | none ↦ none
    | some bytes ↦ parse_json (utf8_text bytes)
  ]

-- `fetch` is the network: what an origin answers, or the error where it cannot be reached in time.
module _ {Key : Type 0} (platform : Platform Key) (fetch : Forwarded → Throws OriginResponse) where
  open platform use {utf8_text, number_exceeds}

  proxy : KeyCache Key → Request → (url body : String) → Handled Key
  unfolding relay forwardable_headers
  proxy cache request url body =
      let f : Forwarded = record {
        method = request.method;
        url = url;
        headers = forwardable_headers request.headers;
        body = body;
      } in
      record { reply = relay (fetch f); effects = forwarded f ∷ []; cache = cache }

  refuse :
      KeyCache Key → GatewayEnv → RejectionReport → (status : ℕ) (problem : String) → Handled Key
  unfolding report_rejection
  refuse cache env report status problem = record {
    reply = ok (refusal status problem (some report.reason));
    effects = report_rejection env report;
    cache = cache;
  }

  plain : KeyCache Key → Response → Handled Key
  plain cache response = record { reply = ok response; effects = []; cache = cache }

  thrown : KeyCache Key → Exception → Handled Key
  thrown cache e = record { reply = throw e; effects = []; cache = cache }

  -- The `catch` round verification, and the forwarding behind it.
  verified :
      KeyCache Key → GatewayEnv → Request → (body : String) → Json → Throws (Unit {0}) → Handled Key
  unfolding proxy refuse thrown rejection or_text
  verified cache env request body assertion (ok _) =
      proxy cache request (str_append env.merchant_url purchase_route) body
  verified cache env request body assertion (throw (assertion_verification_error reason detail)) =
      refuse cache env
        (rejection (or_text (property assertion "publisher_id") unknown_publisher)
          (else_text (property assertion "assertion_id") "") (failure_text reason) detail)
        401 detail
  verified cache env request body assertion (throw (type_error m)) = thrown cache (type_error m)
  verified cache env request body assertion (throw (syntax_error m)) = thrown cache (syntax_error m)
  verified cache env request body assertion (throw (error m)) = thrown cache (error m)
  verified cache env request body assertion (throw (malformed_payment_error m)) =
      thrown cache (malformed_payment_error m)

  -- `verifyAssertion(assertion, await verificationKey(env), now)`: a key that cannot be imported is
  -- thrown before anything of the assertion is read.
  with_key :
      GatewayEnv → Request → (body : String) → Json → ℤ → Throws Key × KeyCache Key → Handled Key
  unfolding verified thrown
  with_key env request body assertion now (throw e, cache) = thrown cache e
  with_key env request body assertion now (ok key, cache) =
      verified cache env request body assertion (verify_assertion platform assertion key now)

  decoded : KeyCache Key → GatewayEnv → Request → (body : String) → ℤ → Option Json → Handled Key
  unfolding with_key refuse rejection
  decoded cache env request body now none =
      refuse cache env
        (rejection (str unknown_publisher) (str "") "malformed_headers"
          "assertion header is not base64 JSON")
        400 "assertion header is not base64 JSON"
  decoded cache env request body now (some assertion) =
      with_key env request body assertion now
        (verification_key platform cache env.attribution_public_key)

  pub with_payment :
      KeyCache Key → GatewayEnv → Request → (body : String) → ℤ → Option String → Handled Key
  unfolding decoded refuse rejection decode_header_json
  with_payment cache env request body now none =
      refuse cache env
        (rejection (str unknown_publisher) (str "") "assertion_missing"
          "payment supplied without an assertion")
        400 "payment supplied without an assertion"
  with_payment cache env request body now (some encoded) =
      decoded cache env request body now (decode_header_json platform encoded)

  purchase : KeyCache Key → GatewayEnv → Request → (body : String) → ℤ → Option String → Handled Key
  unfolding with_payment proxy given
  purchase cache env request body now none =
      proxy cache request (str_append env.merchant_url purchase_route) body
  purchase cache env request body now (some payment) =
      with_payment cache env request body now (given (lookup assertion_header request.headers))

  with_body : KeyCache Key → GatewayEnv → Request → ℤ → Option (List ℕ) → Handled Key
  unfolding purchase proxy plain given
  with_body cache env request now none =
      plain cache (refusal 413 "request body exceeds 262144 bytes" (some "body_too_large"))
  with_body cache env request now (some bytes) =
      if str_eq request.pathname search_route
      then proxy cache request (str_append env.search_url search_route) (utf8_text bytes)
      else if not (str_eq request.pathname purchase_route)
      then plain cache (refusal 404 "not found" none)
      else purchase cache env request (utf8_text bytes) now
          (given (lookup payment_header request.headers))

  unfoldable pub handle : KeyCache Key → GatewayEnv → Request → (now : ℤ) → Handled Key
  unfolding with_body plain
  handle cache env request now =
      if str_eq request.method "GET" && str_eq request.pathname health_route
      then plain cache healthy
      else if not (str_eq request.method "POST")
      then plain cache (refusal 405 "method not allowed" none)
      else with_body cache env request now
          (read_bounded number_exceeds (lookup "content-length" request.headers) request.stream)

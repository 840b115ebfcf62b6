-- ===== src/Gateway/Answer.antt =====
-- gateway/src/handler.ts: the request, the answers and what the handler sends, with the helpers that
-- need neither the key nor the network.
use agentic_attribution.Prelude.{
  ℕ, String, Option, none, some, List, [], ◌∷◌, Throws, ok, throw, VerificationFailure,
  malformed_signature, invalid_signature, expired, str_eq, includes, if◌then◌else◌,
}
use Prim.Native.String.{◌++◌ as str_append}
use agentic_attribution.Js.Json.{Json, null, bool, num, str, arr, obj}
use agentic_attribution.Js.Text.{strip_trailing_slashes}
use agentic_attribution.Gateway.KeyCache.{KeyCache}

pub record GatewayEnv : Type 0 where
  pub search_url : String
  pub merchant_url : String
  pub settlement_url : Option String
  pub attribution_public_key : String

abbrev pub search_route : String
search_route = "/search"

abbrev pub purchase_route : String
purchase_route = "/purchase"

abbrev pub health_route : String
health_route = "/healthz"

abbrev pub assertion_header : String
assertion_header = "x-attribution-assertion"

abbrev pub payment_header : String
payment_header = "payment-signature"

abbrev pub unknown_publisher : String
unknown_publisher = "unknown"

-- A `Request`: its headers as `Headers` gives them, names in lower case and once each, and its body
-- as the chunks of the stream.
pub record Request : Type 0 where
  pub method : String
  pub pathname : String
  pub headers : List (String × String)
  pub stream : Option (List (List ℕ))

-- What is sent to an origin, or comes back from one.
pub record Forwarded : Type 0 where
  pub method : String
  pub url : String
  pub headers : List (String × String)
  pub body : String

pub record OriginResponse : Type 0 where
  pub status : ℕ
  pub headers : List (String × String)
  pub body : List ℕ

-- `RejectionReport`; identifiers are passed on as the assertion has them.
pub record RejectionReport : Type 0 where
  pub publisher_id : Json
  pub assertion_id : Json
  pub merchant_id : String
  pub reason : String
  pub detail : String

-- A `Response`: the gateway's own, with a JSON body, or an origin's, passed through.
pub data Response : Type 0 where
  healthy : Response
  refusal : (status : ℕ) (error : String) (reason : Option String) → Response
  relayed : OriginResponse → Response

-- What a request makes the gateway send: a request to an origin, or a report to the journal.
pub data Effect : Type 0 where
  forwarded : Forwarded → Effect
  reported : (url : String) → RejectionReport → Effect

abbrev pub failure_text : VerificationFailure → String
failure_text malformed_signature = "malformed_signature"
failure_text invalid_signature = "invalid_signature"
failure_text expired = "expired"

abbrev pub stripped_request_headers : List String
stripped_request_headers = "host" ∷ "content-length" ∷ "connection" ∷ []

-- `forwardableHeaders`
unfoldable pub forwardable_headers : List (String × String) → List (String × String)
forwardable_headers [] = []
forwardable_headers ((name, value) ∷ rest) =
    let kept = forwardable_headers rest in
    if includes stripped_request_headers name then kept else (name, value) ∷ kept

-- `v || other`, where `other` is a text.
unfoldable pub or_text : Option Json → String → Json
or_text none other = str other
or_text (some null) other = str other
or_text (some (bool b)) other = if b then bool b else str other
or_text (some (num n)) other = if str_eq n "0" then str other else num n
or_text (some (str s)) other = if str_eq s "" then str other else str s
or_text (some (arr items)) other = arr items
or_text (some (obj members)) other = obj members

-- `reportRejection`: nothing is sent where no journal is configured. The call is not awaited and its
-- failure is dropped, so it returns no value.
unfoldable pub report_rejection : GatewayEnv → RejectionReport → List Effect
report_rejection env report = elim env.settlement_url [
  | none ↦ []
  | some url ↦
      if str_eq url ""
      then []
      else reported (str_append (strip_trailing_slashes url) "/rejections") report ∷ []
]

-- A header that is present and not empty.
unfoldable pub given : Option String → Option String
given none = none
given (some value) = if str_eq value "" then none else some value

-- A call of `handle`: what it answers or throws, what it sent, in order, and the key cache after it.
pub record Handled (Key : Type 0) : Type 0 where
  pub reply : Throws Response
  pub effects : List Effect
  pub cache : KeyCache Key

unfoldable pub relay : Throws OriginResponse → Throws Response
relay (ok response) = ok (relayed response)
relay (throw e) = throw e

unfoldable pub rejection : (publisher assertion : Json) (reason detail : String) → RejectionReport
rejection publisher assertion reason detail = record {
  publisher_id = publisher;
  assertion_id = assertion;
  merchant_id = "";
  reason = reason;
  detail = detail;
}

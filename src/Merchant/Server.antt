-- ===== src/Merchant/Server.antt =====
-- merchant/src/index.ts: the server round the handler, and the report of refusals.
pub mod Laws
use mathlib.Core.Option
use agentic_attribution.Prelude.{
  ℕ, ◌+◌, ◌*◌, ◌++◌, String, Bool, true, false, not, ◌&&◌, ◌||◌, Option, none, some, List, [], ◌∷◌,
  Throws, ok, throw, Exception, error, syntax_error, message, str_eq, ltb, ◌==◌, lookup, length,
  if◌then◌else◌, ◌>>=◌,
}
use agentic_attribution.Js.Json.{
  Json, null, num, str, obj, Members, end, member, property, truthy, else_text,
}
use agentic_attribution.Js.Integer.{ℤ}
use agentic_attribution.Js.Decimal.{integer_text}
use agentic_attribution.Js.Stream.{collect}
use agentic_attribution.Merchant.X402.{attribution_assertion_header}
use agentic_attribution.Merchant.Handler.{
  Fulfillment, challenge_json, ResponseBody, failure, challenge, rejection, fulfilled,
  HandlerResponse, Handled, Dependencies, given, handle,
}
use agentic_attribution.Merchant.Settlement.{SettlementRequest}

abbrev pub max_body_bytes : ℕ
max_body_bytes = 64 * 1024

abbrev pub unknown_publisher : String
unknown_publisher = "unknown"

-- `RejectionReport`; identifiers, reason and detail are passed on as they came.
pub record RejectionReport : Type 0 where
  pub publisher_id : Json
  pub assertion_id : Json
  pub merchant_id : String
  pub reason : Json
  pub detail : Json

pub data ServerBody : Type 0 where
  healthy : (merchant_id : String) → ServerBody
  not_found : ServerBody
  handled : ResponseBody → ServerBody
  merchant_error : String → ServerBody

-- The headers that `writeJson` begins with.
abbrev json_headers : List (String × String)
json_headers = ("content-type", "application/json") ∷ []

-- One request as the server answers it: the answer, the settlements asked for and the reports posted.
pub record Served : Type 0 where
  pub status : ℕ
  pub body : ServerBody
  pub headers : List (String × String)
  pub settlements : List SettlementRequest
  pub reports : List RejectionReport

-- `body?.reason` and `body?.error` of an answer.
unfoldable pub reason_of : ResponseBody → Option Json
reason_of (failure _ reason) = Option.map str reason
reason_of (challenge _) = none
reason_of (rejection body) = property body "reason"
reason_of (fulfilled _) = none

unfoldable pub error_of : ResponseBody → Option Json
error_of (failure problem _) = some (str problem)
error_of (challenge _) = none
error_of (rejection body) = property body "error"
error_of (fulfilled _) = none

member_of : Option Json → String → Option Json
member_of none key = none
member_of (some assertion) key = property assertion key

-- A field that is undefined is left out of an object's text.
option_member : String → Option Json → Members → Members
option_member key none rest = rest
option_member key (some v) rest = member key v rest

unfoldable pub fulfillment_json : Fulfillment → Json
unfolding option_member
fulfillment_json f = obj (
    option_member "order_id" f.order_id (
      member "product_id" (str f.product_id) (
        member "listing_title" (str f.listing_title) (
          member "amount_cents" (num (integer_text f.amount_cents)) (
            member "currency" (str f.currency) (
              option_member "settlement_id" f.settlement_id (
                option_member "tx_hash" f.tx_hash (
                  option_member "network" f.network (
                    option_member "attributed_publisher_id" f.attributed_publisher_id (
                      option_member "publisher_commission_cents" f.publisher_commission_cents
                        end))))))))))

-- The value whose JSON `writeJson` sends.
response_json : ResponseBody → Json
unfolding option_member challenge_json fulfillment_json
response_json (failure problem reason) =
    obj (member "error" (str problem) (option_member "reason" (Option.map str reason) end))
response_json (challenge terms) = challenge_json terms
response_json (rejection body) = body
response_json (fulfilled f) = fulfillment_json f

unfoldable pub body_json : ServerBody → Json
unfolding response_json
body_json (healthy merchant_id) =
    obj (member "status" (str "ok") (member "merchant_id" (str merchant_id) end))
body_json not_found = obj (member "error" (str "not found") end)
body_json (handled body) = response_json body
body_json (merchant_error problem) =
    obj (member "error" (str problem) (member "reason" (str "merchant_error") end))

module _ {Key : Type 0} (deps : Dependencies Key) where
  open deps use {platform, config}

  -- `decodeAssertionForReporting`: best effort, null where there is nothing to read.
  decode_assertion_for_reporting : List (String × String) → Option Json
  unfolding given
  decode_assertion_for_reporting headers =
      elim (given (lookup attribution_assertion_header headers)) [
        | none ↦ none
        | some raw ↦ platform.parse_json (platform.buffer_text (platform.buffer_from_base64 raw))
      ]

  report_of : List (String × String) → (reason : Json) → ResponseBody → RejectionReport
  unfolding decode_assertion_for_reporting member_of error_of
  report_of headers reason body =
      let assertion = decode_assertion_for_reporting headers in
      record {
        publisher_id = else_text (member_of assertion "publisher_id") unknown_publisher;
        assertion_id = else_text (member_of assertion "assertion_id") "";
        merchant_id = config.merchant_id;
        reason = reason;
        detail = else_text (error_of body) "";
      }

  reported : List (String × String) → ResponseBody → Option Json → List RejectionReport
  unfolding report_of
  reported headers body none = []
  reported headers body (some reason) =
      if truthy (some reason) then report_of headers reason body ∷ [] else []

  -- `reportRefusal`: what it posts. A 402 opens the exchange and is no refusal.
  unfoldable pub report_refusal : HandlerResponse → List (String × String) → List RejectionReport
  unfolding reported reason_of
  report_refusal result headers =
      if ltb result.status 400 || (result.status == 402)
      then []
      else reported headers result.body (reason_of result.body)

  parsed_body : Option Json → Throws Json
  parsed_body none = throw (syntax_error "Unexpected token in JSON")
  parsed_body (some v) = ok v

  -- `readJsonBody`: a body beyond the limit throws, as does one that is no JSON.
  collected : Option (List ℕ) → Throws Json
  unfolding parsed_body
  collected none = throw (error "request body too large")
  collected (some bytes) = parsed_body (platform.parse_json (platform.buffer_text bytes))

  unfoldable pub read_json_body : List (List ℕ) → Throws Json
  unfolding collected collect
  read_json_body stream = collected (collect max_body_bytes 0 [] stream)

  failed : Exception → List SettlementRequest → Served
  failed e settlements = record {
    status = 502;
    body = merchant_error (message e);
    headers = json_headers;
    settlements = settlements;
    reports = [];
  }

  unfoldable pub answered : List (String × String) → Handled → Throws HandlerResponse → Served
  unfolding failed report_refusal
  answered headers h (throw e) = failed e h.settlements
  answered headers h (ok response) = record {
    status = response.status;
    body = handled response.body;
    headers = json_headers ++ response.headers;
    settlements = h.settlements;
    reports = report_refusal response headers;
  }

  purchase : List (String × String) → (now : ℤ) → Throws Json → Served
  unfolding answered failed
  purchase headers now (throw e) = failed e []
  purchase headers now (ok body) =
      let h = handle deps body headers now in answered headers h h.reply

  unfoldable pub serve :
      (method url : String) (headers : List (String × String)) (stream : List (List ℕ)) (now : ℤ)
      → Served
  unfolding purchase read_json_body
  serve method url headers stream now =
      if str_eq method "GET" && str_eq url "/healthz"
      then record {
        status = 200;
        body = healthy config.merchant_id;
        headers = json_headers;
        settlements = [];
        reports = [];
      }
      else if not (str_eq method "POST") || not (str_eq url "/purchase")
      then record {
        status = 404;
        body = not_found;
        headers = json_headers;
        settlements = [];
        reports = [];
      }
      else purchase headers now (read_json_body stream)

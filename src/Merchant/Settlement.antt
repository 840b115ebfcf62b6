-- ===== src/Merchant/Settlement.antt =====
-- merchant/src/settlement.ts: the client of the settlement service. The service is behind `fetch`,
-- a parameter here; its answers are JSON of whatever shape.
use Prim.Native.String.{◌++◌}
use agentic_attribution.Prelude.{
  ℕ, String, ◌&&◌, Option, none, some, Throws, ok, throw, ltb, leb, if◌then◌else◌, ◌>>=◌,
  syntax_error,
}
use agentic_attribution.Js.Json.{Json, obj, member, end, str}
use agentic_attribution.Js.Decimal.{to_string}
use agentic_attribution.Js.Integer.{ℤ}
use agentic_attribution.Merchant.X402.{PaymentPayload, PaymentRequirements}

pub record SettlementRequest : Type 0 where
  pub assertion : Json
  pub merchant_id : String
  pub gross_amount_cents : ℤ
  pub currency : String
  pub payment_payload : PaymentPayload
  pub payment_requirements : PaymentRequirements

-- A response of the service: its status, and its body where that is JSON.
pub record ServiceResponse : Type 0 where
  pub status : ℕ
  pub json : Option Json

-- `{ ok: true; result }` or `{ ok: false; status; rejection }`
pub data SettlementOutcome : Type 0 where
  accepted : (result : Json) → SettlementOutcome
  rejected : (status : ℕ) (rejection : Json) → SettlementOutcome

parsed_result : Option Json → Throws SettlementOutcome
parsed_result none = throw (syntax_error "Unexpected token in JSON")
parsed_result (some result) = ok (accepted result)

-- The `try` round the body of a rejection.
parsed_rejection : ℕ → Option Json → SettlementOutcome
parsed_rejection status (some rejection) = rejected status rejection
parsed_rejection status none = rejected status (
    obj (
      member "error" (str ("settlement service returned " ++ to_string status))
        (member "reason" (str "settlement_unavailable") end)))

outcome_of : ServiceResponse → Throws SettlementOutcome
unfolding parsed_result parsed_rejection
outcome_of response =
    if leb 200 response.status && ltb response.status 300
    then parsed_result response.json
    else ok (parsed_rejection response.status response.json)

-- `settle`: failures come back as data, unless the service cannot be reached or answers a success
-- that is no JSON.
unfoldable pub settle :
    (fetch : SettlementRequest → Throws ServiceResponse)
    → SettlementRequest
    → Throws SettlementOutcome
unfolding outcome_of
settle fetch request = do response ← fetch request; outcome_of response

-- ===== src/Simulator/Requests.antt =====
-- simulator/src/agent.ts: the three requests of the agent, and what it makes of the answers. A result
-- of the network is JSON of whatever shape, which the agent takes at a type without a check.
use Prim.Native.String.{◌++◌, slice}
use agentic_attribution.Prelude.{
  ℕ, String, Bool, ◌&&◌, Option, none, some, List, [], ◌∷◌, Throws, ok, throw, Exception,
  type_error, syntax_error, str_eq, leb, ltb, ◌==◌, if◌then◌else◌,
}
use agentic_attribution.Js.Json.{
  Json, null, bool, num, str, arr, obj, end, member, nil, cons, find_member, read, truthy,
}
use agentic_attribution.Js.Decimal.{to_string}
use agentic_attribution.Platform.{Platform}
use agentic_attribution.Merchant.X402.{encode_header_json}

abbrev pub assertion_header : String
assertion_header = "x-attribution-assertion"

abbrev pub payment_header : String
payment_header = "payment-signature"

-- A POST of the agent, to the gateway's address followed by `path`; header names are in lower case,
-- as `Headers` has them, and the body is its text.
pub record Outgoing : Type 0 where
  pub path : String
  pub headers : List (String × String)
  pub body : String

pub record Incoming : Type 0 where
  pub status : ℕ
  pub text : String

-- What a call of the agent ends in: a value, an `AgentError`, or another exception.
pub data AgentResult {ℓ} (A : Type ℓ) : Type ℓ where
  done : A → AgentResult A
  agent_error : (message : String) (status : ℕ) (body : Json) → AgentResult A
  thrown : Exception → AgentResult A

-- `response.ok`
abbrev is_ok : ℕ → Bool
is_ok status = leb 200 status && ltb status 300

-- `accepts[0]`
first_element : Option Json → Throws (Option Json)
unfolding find_member
first_element none = throw (type_error "Cannot read properties of undefined")
first_element (some null) = throw (type_error "Cannot read properties of null")
first_element (some (bool b)) = ok none
first_element (some (num n)) = ok none
first_element (some (str s)) = ok (if str_eq s "" then none else some (str (slice s 0 1)))
first_element (some (arr nil)) = ok none
first_element (some (arr (cons v items))) = ok (some v)
first_element (some (obj members)) = ok (find_member "0" members)

-- The body of both requests for a purchase.
unfoldable pub product_body : (product_id : String) → Json
product_body product_id = obj (member "product_id" (str product_id) end)

module _ {Key : Type 0} (platform : Platform Key) where
  open platform use {parse_json, stringify}

  -- What `search` posts.
  unfoldable pub search_request : (query publisher_id : String) (size : ℕ) → Outgoing
  search_request query publisher_id size = record {
    path = "/search";
    headers = ("content-type", "application/json") ∷ [];
    body = stringify (
        obj (
          member "query" (str query)
            (member "publisher_id" (str publisher_id) (member "size" (num (to_string size)) end))));
  }

  -- What `requestChallenge` posts: a purchase with no payment.
  unfoldable pub challenge_request : (product_id : String) → Outgoing
  unfolding product_body
  challenge_request product_id = record {
    path = "/purchase";
    headers = ("content-type", "application/json") ∷ [];
    body = stringify (product_body product_id);
  }

  -- What `completePurchase` posts.
  unfoldable pub completion_request : (product_id : String) (assertion payment : Json) → Outgoing
  unfolding product_body
  completion_request product_id assertion payment = record {
    path = "/purchase";
    headers =
        ("content-type", "application/json")
        ∷ (payment_header, encode_header_json platform payment)
        ∷ (assertion_header, encode_header_json platform assertion)
        ∷ [];
    body = stringify (product_body product_id);
  }

  -- `readErrorBody`: a body that is no JSON is its text.
  read_error_body : String → Json
  read_error_body text = elim (parse_json text) [ none ↦ str text | some v ↦ v ]

  parsed : Option Json → AgentResult Json
  parsed none = thrown (syntax_error "Unexpected token in JSON")
  parsed (some v) = done v

  -- The answers that `search` and `completePurchase` take: a success with a JSON body.
  unfoldable pub accept : (problem : String) → Throws Incoming → AgentResult Json
  unfolding read_error_body parsed
  accept problem (throw e) = thrown e
  accept problem (ok response) =
      if is_ok response.status
      then parsed (parse_json response.text)
      else agent_error problem response.status (read_error_body response.text)

  required : Json → Throws (Option Json) → AgentResult Json
  required body (throw e) = thrown e
  required body (ok none) = agent_error "402 carried no payment requirements" 402 body
  required body (ok (some v)) =
      if truthy (some v) then done v else agent_error "402 carried no payment requirements" 402 body

  accepted_terms : Json → Throws (Option Json) → AgentResult Json
  unfolding required first_element
  accepted_terms body (throw e) = thrown e
  accepted_terms body (ok accepts) = required body (first_element accepts)

  offered_terms : Option Json → AgentResult Json
  unfolding accepted_terms
  offered_terms none = thrown (syntax_error "Unexpected token in JSON")
  offered_terms (some body) = accepted_terms body (read (some body) "accepts")

  -- The answer that `requestChallenge` takes: a 402 with requirements.
  unfoldable pub accept_challenge : Throws Incoming → AgentResult Json
  unfolding read_error_body offered_terms
  accept_challenge (throw e) = thrown e
  accept_challenge (ok response) =
      if response.status == 402
      then offered_terms (parse_json response.text)
      else agent_error ("expected 402 Payment Required, got " ++ to_string response.status)
          response.status (read_error_body response.text)

  -- `fetch` is the network to the gateway.
  module _ (fetch : Outgoing → Throws Incoming) where
    unfoldable pub search : (query publisher_id : String) (size : ℕ) → AgentResult Json
    unfolding accept search_request
    search query publisher_id size =
        accept "search failed" (fetch (search_request query publisher_id size))

    unfoldable pub request_challenge : (product_id : String) → AgentResult Json
    unfolding accept_challenge challenge_request
    request_challenge product_id = accept_challenge (fetch (challenge_request product_id))

    unfoldable pub complete_purchase :
        (product_id : String) (assertion payment : Json) → AgentResult Json
    unfolding accept completion_request
    complete_purchase product_id assertion payment =
        accept "purchase rejected" (fetch (completion_request product_id assertion payment))

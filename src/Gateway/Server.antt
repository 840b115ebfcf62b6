-- ===== src/Gateway/Server.antt =====
-- gateway/src/node.ts: the server that speaks `Request` and `Response` for node:http. How a response
-- is streamed out is not modelled, nor is the log.
pub mod Laws
use Prim.Native.String.{◌++◌}
use agentic_attribution.Prelude.{
  ℕ, ◌*◌, String, Bool, true, false, ◌&&◌, ◌||◌, Option, none, some, List, [], ◌∷◌, Throws, ok,
  throw, type_error, message, str_eq, lookup, includes, if◌then◌else◌, ◌>>=◌,
}
use agentic_attribution.Js.Integer.{ℤ}
use agentic_attribution.Js.Json.{Json, str, obj, Members, end, member}
use agentic_attribution.Js.Environment.{required, optional}
use agentic_attribution.Js.Stream.{collect}
use agentic_attribution.Platform.{Platform}
use agentic_attribution.Gateway.KeyCache.{KeyCache}
use agentic_attribution.Gateway.Handler.{
  GatewayEnv, Request, Response, healthy, refusal, relayed, Effect, Forwarded, OriginResponse,
  Handled, handle,
}

abbrev pub max_body_bytes : ℕ
max_body_bytes = 256 * 1024

-- The settings of the process.
unfoldable pub gateway_env : List (String × String) → Throws GatewayEnv
unfolding required optional
gateway_env env = do
  attribution_public_key ← required env "ATTRIBUTION_PUBLIC_KEY"
  ok (record {
    search_url = optional env "SEARCH_URL" "http://localhost:8081";
    merchant_url = optional env "MERCHANT_URL" "http://localhost:8090";
    settlement_url = some (optional env "SETTLEMENT_URL" "http://localhost:8082");
    attribution_public_key = attribution_public_key;
  })

-- `string | string[] | undefined`
pub data HeaderValue : Type 0 where
  single : String → HeaderValue
  several : List String → HeaderValue
  undefined : HeaderValue

-- `IncomingMessage`: names of headers are in lower case and once each; the body is the chunks of it.
pub record IncomingMessage : Type 0 where
  pub method : Option String
  pub url : Option String
  pub headers : List (String × HeaderValue)
  pub stream : List (List ℕ)

pub data ReadBody : Type 0 where
  absent : ReadBody
  too_large : ReadBody
  buffered : List ℕ → ReadBody

is_bodiless : Option String → Bool
is_bodiless none = false
is_bodiless (some method) = str_eq method "GET" || str_eq method "HEAD"

-- `readBody`; a `RequestTooLargeError` is `too_large`.
unfoldable pub read_body : Option String → List (List ℕ) → ReadBody
unfolding is_bodiless collect
read_body method stream =
    if is_bodiless method then absent else elim (collect max_body_bytes 0 [] stream) [
      | none ↦ too_large
      | some bytes ↦ buffered bytes
    ]

-- `Headers.append` puts a comma and a space between the values of one name.
appended : (separator : String) → String → List String → String
appended separator value [] = value
appended separator value (item ∷ items) = value ++ separator ++ appended separator item items

header_entry : String → HeaderValue → List (String × String) → List (String × String)
unfolding appended
header_entry name (single value) rest = (name, value) ∷ rest
header_entry name (several []) rest = rest
header_entry name (several (item ∷ items)) rest = (name, appended ", " item items) ∷ rest
header_entry name undefined rest = rest

unfoldable pub to_headers : List (String × HeaderValue) → List (String × String)
unfolding header_entry
to_headers [] = []
to_headers ((name, value) ∷ rest) = header_entry name value (to_headers rest)

-- The text of `req.headers.host`, where there is one.
host_text : Option HeaderValue → (fallback : String) → String
unfolding appended
host_text none fallback = fallback
host_text (some (single value)) fallback = value
host_text (some (several [])) fallback = ""
host_text (some (several (item ∷ items))) fallback = appended "," item items
host_text (some undefined) fallback = fallback

-- Methods that the constructor of `Request` refuses.
abbrev forbidden_methods : List String
forbidden_methods = "CONNECT" ∷ "TRACE" ∷ "TRACK" ∷ []

-- `new Request(url, {method, headers, body})`, of a method as node:http has it, in upper case.
make_request :
    (method pathname : String) → List (String × String) → Option (List (List ℕ)) → Throws Request
unfolding is_bodiless
make_request method pathname headers stream =
    let request : Request = record {
      method = method;
      pathname = pathname;
      headers = headers;
      stream = stream;
    } in
    let has_body : Bool = elim stream [ none ↦ false | some chunks ↦ true ] in
    if includes forbidden_methods method
    then throw (type_error ("'" ++ method ++ "' HTTP method is unsupported."))
    else if has_body && is_bodiless (some method)
    then throw (type_error "Request with GET/HEAD method cannot have body.")
    else ok request

-- The body is handed on only where it is not empty.
unfoldable pub body_stream : ReadBody → Option (List (List ℕ))
body_stream absent = none
body_stream too_large = none
body_stream (buffered []) = none
body_stream (buffered (byte ∷ bytes)) = some ((byte ∷ bytes) ∷ [])

or_default : Option String → String → String
or_default none fallback = fallback
or_default (some value) fallback = value

-- One request as the server answers it, with what it sent and the key cache after it.
pub record Served (Key : Type 0) : Type 0 where
  pub response : Response
  pub effects : List Effect
  pub cache : KeyCache Key

-- The catch of the server.
failed :
    {Key : Type 0}
    → (status : ℕ) (problem reason : String) → List Effect
    → KeyCache Key
    → Served Key
failed status problem reason effects cache = record {
  response = refusal status problem (some reason);
  effects = effects;
  cache = cache;
}

unfoldable pub answered : {Key : Type 0} → Handled Key → Throws Response → Served Key
unfolding failed
answered h (ok response) = record { response = response; effects = h.effects; cache = h.cache }
answered h (throw e) = failed 502 (message e) "gateway_error" h.effects h.cache

-- `pathname` is that of `new URL(url, base)`, which throws where the two are no URL; `port` is the
-- text of the server's port.
module _ (pathname : (url base : String) → Throws String) (port : String) where
  -- The path of the address that the caller asked for.
  unfoldable pub located : IncomingMessage → Throws String
  unfolding host_text or_default
  located req =
      pathname (or_default req.url "/")
        ("http://" ++ host_text (lookup "host" req.headers) ("localhost:" ++ port))

  -- `toRequest`
  unfoldable pub to_request : IncomingMessage → ReadBody → Throws Request
  unfolding located or_default make_request to_headers body_stream
  to_request req body = do
    path ← located req
    make_request (or_default req.method "GET") path (to_headers req.headers) (body_stream body)

  module _ {Key : Type 0} (platform : Platform Key)
      (fetch : Forwarded → Throws OriginResponse) where
    handled : KeyCache Key → GatewayEnv → (now : ℤ) → Throws Request → Served Key
    unfolding answered failed
    handled cache env now (throw e) = failed 502 (message e) "gateway_error" [] cache
    handled cache env now (ok request) =
        let h = handle platform fetch cache env request now in answered h h.reply

    routed : KeyCache Key → GatewayEnv → IncomingMessage → (now : ℤ) → ReadBody → Served Key
    unfolding handled failed to_request
    routed cache env req now absent = handled cache env now (to_request req absent)
    routed cache env req now too_large =
        failed 413 "request body exceeds 262144 bytes" "body_too_large" [] cache
    routed cache env req now (buffered bytes) =
        handled cache env now (to_request req (buffered bytes))

    unfoldable pub serve : KeyCache Key → GatewayEnv → IncomingMessage → (now : ℤ) → Served Key
    unfolding routed read_body
    serve cache env req now = routed cache env req now (read_body req.method req.stream)

-- A request as it reaches the server, with the clock, and the network at that moment.
pub record Arrival : Type 0 where
  pub message : IncomingMessage
  pub now : ℤ
  pub fetch : Forwarded → Throws OriginResponse

-- The key cache behind the requests of a process, one after another.
unfoldable pub run :
    {Key : Type 0} (pathname : (url base : String) → Throws String) (port : String)
    (platform : Platform Key) (env : GatewayEnv)
    → KeyCache Key
    → List Arrival
    → KeyCache Key
unfolding serve
run pathname port platform env cache [] = cache
run pathname port platform env cache (a ∷ arrivals) =
    run pathname port platform env
      (serve pathname port platform a.fetch cache env a.message a.now).cache arrivals

-- What `writeResponse` writes: a status and the bytes of the body.
unfoldable pub response_status : Response → ℕ
response_status healthy = 200
response_status (refusal status problem reason) = status
response_status (relayed response) = response.status

reason_member : Option String → Members
reason_member none = end
reason_member (some reason) = member "reason" (str reason) end

module _ {Key : Type 0} (platform : Platform Key) where
  open platform use {utf8, stringify}

  json_bytes : Json → List ℕ
  json_bytes v = utf8 (stringify v)

  unfoldable pub response_bytes : Response → List ℕ
  unfolding json_bytes reason_member
  response_bytes healthy = json_bytes (obj (member "status" (str "ok") end))
  response_bytes (refusal status problem reason) =
      json_bytes (obj (member "error" (str problem) (reason_member reason)))
  response_bytes (relayed response) = response.body

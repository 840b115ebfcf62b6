-- ===== src/System/Network.antt =====
-- The network between agent, gateway and merchant: what each service receives of what another sent.
pub mod Laws
use Prim.Native.String.{◌++◌ as str_append}
use agentic_attribution.Prelude.{
  ℕ, String, some, List, [], ◌∷◌, ◌++◌, Throws, ok, str_eq, if◌then◌else◌,
}
use agentic_attribution.Js.Integer.{ℤ}
use agentic_attribution.Gateway.KeyCache.{KeyCache}
use agentic_attribution.Gateway.Handler.{GatewayEnv, Forwarded, OriginResponse, purchase_route}
use agentic_attribution.Gateway.Server.{
  HeaderValue, single, IncomingMessage, response_status, response_bytes,
}
use agentic_attribution.Gateway.Server as Edge
use agentic_attribution.Merchant.Handler.{Dependencies}
use agentic_attribution.Merchant.Server.{body_json}
use agentic_attribution.Merchant.Server as Shop
use agentic_attribution.Simulator.Requests.{Outgoing, Incoming}

-- One hop of HTTP: the headers that the client adds, and how it cuts a body into chunks.
pub record Hop : Type 0 where
  pub connection : List (String × String)
  pub cut : List ℕ → List (List ℕ)

unfoldable pub as_single : List (String × String) → List (String × HeaderValue)
as_single [] = []
as_single ((name, value) ∷ rest) = (name, single value) ∷ as_single rest

-- Everything that stands between agent and settlement: the merchant, the gateway's environment, its
-- `new URL` and port, the two hops, the clocks of gateway and merchant, the rest of the network, and
-- the gateway's key cache.
pub record Setting (Key : Type 0) : Type 0 where
  pub deps : Dependencies Key
  pub env : GatewayEnv
  pub pathname : (url base : String) → Throws String
  pub port : String
  pub first : Hop
  pub second : Hop
  pub edge_now : ℤ
  pub shop_now : ℤ
  pub elsewhere : Forwarded → Throws OriginResponse
  pub cache : KeyCache Key

module _ {Key : Type 0} (setting : Setting Key) where
  open setting use {deps, env, pathname, port, first, second, edge_now, shop_now, elsewhere, cache}
  open deps use {platform}

  -- A POST of the agent as the gateway's server gets it.
  unfoldable pub message_of : Outgoing → IncomingMessage
  unfolding as_single
  message_of out = record {
    method = some "POST";
    url = some out.path;
    headers = as_single (out.headers ++ first.connection);
    stream = first.cut (platform.utf8 out.body);
  }

  -- What the merchant's server answers to a request that the gateway sends it.
  unfoldable pub at_merchant : Forwarded → Shop.Served
  at_merchant f =
      Shop.serve deps f.method purchase_route (f.headers ++ second.connection)
        (second.cut (platform.utf8 f.body)) shop_now

  origin_response : Shop.Served → OriginResponse
  origin_response s = record {
    status = s.status;
    headers = s.headers;
    body = platform.utf8 (platform.stringify (body_json s.body));
  }

  -- The gateway's `fetch`: the merchant at its address, and whatever there is elsewhere.
  unfoldable pub origins : Forwarded → Throws OriginResponse
  unfolding at_merchant origin_response
  origins f =
      if str_eq f.url (str_append env.merchant_url purchase_route)
      then ok (origin_response (at_merchant f))
      else elsewhere f

  unfoldable pub at_gateway : Outgoing → Edge.Served Key
  unfolding message_of origins
  at_gateway out = Edge.serve pathname port platform origins cache env (message_of out) edge_now

  -- The agent's `fetch`.
  unfoldable pub fetch : Outgoing → Throws Incoming
  unfolding at_gateway
  fetch out =
      let answer = at_gateway out in
      ok (record {
        status = response_status answer.response;
        text = platform.utf8_text (response_bytes platform answer.response);
      })

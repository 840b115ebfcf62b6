-- ===== src/System/Exchange.antt =====
-- One request of the agent on its way: to the gateway's handler, on to the merchant, and back.
use Prim.Native.String.{◌++◌ as str_append}
use agentic_attribution.Prelude.{
  ℕ, ◌≤◌, false, none, some, List, [], ◌∷◌, ◌++◌, Throws, ok, ◌≡◌, refl, arith, lookup, length, ap,
  ◌∙◌, eq_refl,
}
use agentic_attribution.Js.Json.{Json}
use agentic_attribution.Js.Stream.{join_chunks}
use agentic_attribution.Gateway.Body.{read_bounded}
use agentic_attribution.Gateway.KeyCache.{KeyCache}
use agentic_attribution.Gateway.Handler.{
  Request, relay, Forwarded, forwarded, OriginResponse, purchase_route, handle,
}
use agentic_attribution.Gateway.Handler.Laws.{to_merchant, passed_on}
use agentic_attribution.Gateway.Server.{
  buffered, body_stream, located, answered, response_status, response_bytes,
}
use agentic_attribution.Gateway.Server.Laws.{request_of, serve-body, body_stream-read_bounded}
use agentic_attribution.Gateway.Server.{max_body_bytes as edge_max_body_bytes}
use agentic_attribution.Merchant.Server.{
  body_json, max_body_bytes, read_json_body, Served as MerchantServed,
}
use agentic_attribution.Simulator.Requests.{Outgoing}
use agentic_attribution.System.Network.{
  Setting, message_of, at_merchant, origins, at_gateway, fetch,
}
use agentic_attribution.System.Network.Laws.{
  IsCarried, IsLossless, to_headers-as_single, read_json_body-carried,
}

module _ {Key : Type 0} (setting : Setting Key) where
  open setting use {deps, env, pathname, port, first, second, edge_now, shop_now, elsewhere, cache}
  open deps use {platform}

  abbrev pub bytes_of : Outgoing → List ℕ
  bytes_of out = platform.utf8 out.body

  -- The request that the gateway's handler gets.
  abbrev pub arrived : Outgoing → Request
  arrived out = record {
    method = "POST";
    pathname = purchase_route;
    headers = out.headers ++ first.connection;
    stream = body_stream (buffered (bytes_of out));
  }

  abbrev pub network : Forwarded → Throws OriginResponse
  network = origins setting

  pub at_gateway-arrived :
      (out : Outgoing)
      → IsLossless first
      → located pathname port (message_of setting out) ≡ ok purchase_route
      → length (bytes_of out) ≤ max_body_bytes
      → let h = handle platform network cache env (arrived out) edge_now in
        at_gateway setting out ≡ answered h h.reply
  unfolding at_gateway message_of
  at_gateway-arrived out lossless l small =
      let message = message_of setting out in
      let whole : join_chunks message.stream ≡ bytes_of out = lossless (bytes_of out) in
      let same : request_of message purchase_route (join_chunks message.stream) ≡ arrived out =
        rw (whole, to_headers-as_single (out.headers ++ first.connection)) refl in
      rw (← same)
        ((serve-body pathname port platform network cache env message edge_now purchase_route refl
            l).1
          (rw whole (omega (arith, small)))).0

  -- What the gateway sends on, and how the merchant's server serves it.
  abbrev pub sent_on : Outgoing → Forwarded
  sent_on out = to_merchant platform network env (arrived out) out.body edge_now

  abbrev pub served_by_merchant : Outgoing → MerchantServed
  served_by_merchant out = at_merchant setting (sent_on out)

  -- The declared length, where there is one, is no more than the ceiling.
  abbrev pub IsHonest : Outgoing → Type 0
  IsHonest out =
      elim (lookup "content-length" (out.headers ++ first.connection)) [
        | none ↦ false
        | some t ↦ platform.number_exceeds t edge_max_body_bytes
      ]
      ≡ false

  -- The request is cut without loss, is small, is sent to `/purchase`, and has the text of a value as
  -- its body.
  pub record IsSent (out : Outgoing) (v : Json) : Type 0 where
    pub first_lossless : IsLossless first
    pub second_lossless : IsLossless second
    pub at_purchase : located pathname port (message_of setting out) ≡ ok purchase_route
    pub small : length (bytes_of out) ≤ max_body_bytes
    pub honest : IsHonest out
    pub is_text : out.body ≡ platform.stringify v
    pub carried : IsCarried platform v

  pub arrives_whole :
      (out : Outgoing) (v : Json)
      → IsSent out v
      → (read_bounded platform.number_exceeds
            (lookup "content-length" (arrived out).headers)
            (arrived out).stream
          ≡ some (bytes_of out))
        × (platform.utf8_text (bytes_of out) ≡ out.body)
  arrives_whole out v s = (
    body_stream-read_bounded platform.number_exceeds
        (lookup "content-length" (out.headers ++ first.connection)) (bytes_of out) s.honest
        (omega (arith, s.small)),
    rw s.is_text s.carried.decodes,
  )

  -- A purchase that the gateway's handler passes on: exactly one request goes to the merchant, and the
  -- agent gets the status and the body of what the merchant answers.
  pub passes_through :
      (out : Outgoing) (v : Json) (c : KeyCache Key)
      → IsSent out v
      → handle platform network cache env (arrived out) edge_now
        ≡ passed_on platform network env
            (arrived out)
            (platform.utf8_text (bytes_of out))
            edge_now
            c
      → let answer = served_by_merchant out in
        ((at_gateway setting out).effects ≡ forwarded (sent_on out) ∷ [])
        × (fetch setting out
            ≡ ok (record {
              status = answer.status;
              text =
                  platform.utf8_text (platform.utf8 (platform.stringify (body_json answer.body)));
            }))
  unfolding fetch answered relay origins response_status response_bytes
  passes_through out v c s p =
      let (whole, text) = arrives_whole out v s in
      let here = at_gateway-arrived out s.first_lossless s.at_purchase s.small in
      let q : handle platform network cache env (arrived out) edge_now
          ≡ passed_on platform network env (arrived out) out.body edge_now c =
        p ∙ ap (λ b. passed_on platform network env (arrived out) b edge_now c) text in
      rw (here, q, eq_refl (str_append env.merchant_url purchase_route)) (refl, refl)

  -- The merchant's server reads the value that the agent sent.
  pub merchant_reads :
      (out : Outgoing) (v : Json)
      → IsSent out v
      → read_json_body deps (second.cut (platform.utf8 (sent_on out).body)) ≡ ok v
  merchant_reads out v s =
      rw s.is_text
        (read_json_body-carried deps second v s.second_lossless s.carried (rw s.is_text at s.small))

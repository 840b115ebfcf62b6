-- ===== src/System/Completion/Outcome.antt =====
-- What the paid request comes to: one settlement, and the service's verdict at the agent.
use agentic_attribution.Prelude.{
  ℕ, ◌≤◌, String, List, [], ◌∷◌, Throws, ok, throw, ◌≡◌, refl, arith, lookup, ◌∙◌, ap,
}
use agentic_attribution.Js.Json.{Json}
use agentic_attribution.Gateway.KeyCache.{verification_key}
use agentic_attribution.Gateway.Handler.{Request, Forwarded, forwarded, OriginResponse}
use agentic_attribution.Gateway.Handler.Laws.{IsPaidPurchase, IsAuthentic, authentic-passes_on}
use agentic_attribution.Merchant.X402.{encode_header_json}
use agentic_attribution.Merchant.Settlement.{accepted, rejected, settle}
use agentic_attribution.Merchant.Handler.{
  Handled, HandlerResponse, Dependencies, Fulfillment, settle_purchase, fulfillment_of,
}
use agentic_attribution.Merchant.Handler.Laws.{Offers-handle, PaysFor-offered}
use agentic_attribution.Merchant.Server.{body_json, answered, fulfillment_json}
use agentic_attribution.Merchant.Server.Laws.{serve-purchase}
use agentic_attribution.Simulator.Requests.{
  done, agent_error, product_body, completion_request, accept, complete_purchase,
}
use agentic_attribution.System.Network.{Setting, origins, at_merchant, at_gateway, fetch}
use agentic_attribution.System.Network.Laws.{IsCarried, IsHeader-gateway}
use agentic_attribution.System.Exchange.{arrived, arrives_whole, passes_through, merchant_reads}
use agentic_attribution.System.Completion.{
  Order, payload_of, given_at_gateway-filled, payment, pays, asked, Buys, sent_to_merchant, served,
  arriving_headers, pays_for,
}

answered-settlements :
    {Key : Type 0} (deps : Dependencies Key) (headers : List (String × String)) (h : Handled)
    (reply : Throws HandlerResponse)
    → (answered deps headers h reply).settlements ≡ h.settlements
unfolding answered
answered-settlements deps headers h (ok response) = refl
answered-settlements deps headers h (throw e) = refl

module _ {Key : Type 0} (setting : Setting Key) (order : Order) (b : Buys setting order) where
  open setting use {deps, env, pathname, port, first, second, edge_now, shop_now, elsewhere, cache}
  open order use {account, r, clock, nonce, signature, product_id, assertion, listing}
  open deps use {platform}

  arriving : Request
  arriving = arrived setting (pays setting order)

  network : Forwarded → Throws OriginResponse
  network = origins setting

  is_paid : IsPaidPurchase platform network arriving
  unfolding lookup completion_request arriving
  is_paid = record {
    posted = refl;
    on_route = refl;
    bytes = platform.utf8 (pays setting order).body;
    within = (arrives_whole setting (pays setting order) (product_body product_id) b.sent).0;
    payment = encode_header_json platform (payment setting order);
    paid = given_at_gateway-filled _ b.payment_carried.filled;
  }

  is_authentic : IsAuthentic platform network env arriving edge_now
  unfolding lookup completion_request arriving
  is_authentic = record {
    encoded = encode_header_json platform assertion;
    presented = given_at_gateway-filled _ b.assertion_carried.filled;
    assertion = assertion;
    decodes = IsHeader-gateway platform assertion b.assertion_carried;
    key = b.edge_key;
    imports = b.imports;
    verifies = b.verifies_at_edge;
  }

  passed :
      ((at_gateway setting (pays setting order)).effects
        ≡ forwarded (sent_to_merchant setting order) ∷ [])
      × (fetch setting (pays setting order)
          ≡ ok (record {
            status = (served setting order).status;
            text =
                platform.utf8_text
                  (platform.utf8 (platform.stringify (body_json (served setting order).body)));
          }))
  unfolding arriving network is_paid
  passed =
      passes_through setting (pays setting order) (product_body product_id)
        (verification_key platform cache env.attribution_public_key).1 b.sent
        (authentic-passes_on platform network cache env arriving edge_now is_paid b.coherent
          is_authentic)

  settled :
      (served setting order)
      ≡ answered deps
          (arriving_headers setting order)
          (settle_purchase deps listing assertion (payload_of account r clock nonce signature) r)
          (settle_purchase deps listing assertion
            (payload_of account r clock nonce signature)
            r).reply
  unfolding at_merchant
  settled =
      let e =
        serve-purchase deps (arriving_headers setting order)
          (second.cut (platform.utf8 (sent_to_merchant setting order).body)) shop_now
          (product_body product_id)
          (merchant_reads setting (pays setting order) (product_body product_id) b.sent) in
      e
      ∙ ap (λ h. answered deps (arriving_headers setting order) h h.reply)
          (Offers-handle deps (product_body product_id) (arriving_headers setting order) shop_now
              listing r b.offers
            ∙ PaysFor-offered deps (arriving_headers setting order) shop_now listing r assertion
                (payload_of account r clock nonce signature) (pays_for setting order b))

  -- The agent's paid request, where the listed product is in stock and the assertion verifies on the
  -- way: the gateway sends exactly one request, to the merchant, and the merchant asks for exactly
  -- one settlement, for the listing's price and merchant, with that assertion and the payment that
  -- the agent made out for the requirements.
  pub completion-settles_once :
      ((at_gateway setting (pays setting order)).effects
        ≡ forwarded (sent_to_merchant setting order) ∷ [])
      × ((at_merchant setting (sent_to_merchant setting order)).settlements
          ≡ (asked setting order) ∷ [])
  unfolding settle_purchase
  completion-settles_once = (
    passed.0,
    ap (λ s. s.settlements) settled
        ∙ answered-settlements deps (arriving_headers setting order)
            (settle_purchase deps listing assertion (payload_of account r clock nonce signature) r)
            _,
  )

  -- Where the settlement service accepts, and its result has the fields of a fulfillment whose JSON
  -- survives the way back, the agent's purchase ends in that fulfillment.
  pub completion-fulfilled :
      (result : Json) (f : Fulfillment)
      → settle deps.fetch (asked setting order) ≡ ok (accepted result)
      → fulfillment_of deps listing assertion result ≡ ok f
      → IsCarried platform (fulfillment_json f)
      → complete_purchase platform (fetch setting) product_id assertion (payment setting order)
        ≡ done (fulfillment_json f)
  unfolding complete_purchase accept answered settle_purchase body_json
  completion-fulfilled result f s e c = rw (passed.1, settled, s, e, c.decodes, c.parses) refl

  -- Where the settlement service rejects with a status from 400 on, and the rejection survives the
  -- way back, the agent's purchase ends in an error with that status and that rejection.
  pub completion-rejected :
      (status : ℕ) (refusal : Json)
      → settle deps.fetch (asked setting order) ≡ ok (rejected status refusal)
      → 400 ≤ status
      → IsCarried platform refusal
      → complete_purchase platform (fetch setting) product_id assertion (payment setting order)
        ≡ agent_error "purchase rejected" status refusal
  unfolding complete_purchase accept answered settle_purchase body_json
  completion-rejected status refusal s big c =
      rw (passed.1, settled, s, c.decodes) (ground (arith, c.parses))

-- ===== src/System/Challenge.antt =====
-- The first half of the exchange: the agent's request without a payment, up to the challenge.
use agentic_attribution.Prelude.{String, none, List, [], ◌∷◌, ◌++◌, ok, ◌≡◌, refl, lookup, ◌∙◌}
use agentic_attribution.Js.Json.{property, read, truthy}
use agentic_attribution.Platform.{Platform}
use agentic_attribution.Gateway.Handler.{forwarded, given, payment_header, forwardable_headers}
use agentic_attribution.Gateway.Handler.Laws.{unpaid-passes_on}
use agentic_attribution.Merchant.Config.{x402_version}
use agentic_attribution.Merchant.X402.{
  PaymentRequirements, PaymentRequiredBody, encode_header_json, payment_required_header,
}
use agentic_attribution.Merchant.Handler.{
  Listing, Dependencies, Handled, challenge, requirements_json, challenge_json, offered,
}
use agentic_attribution.Merchant.Handler as Shop
use agentic_attribution.Merchant.Handler.Laws.{Offers, Offers-handle}
use agentic_attribution.Merchant.Server.{handled, body_json, answered, report_refusal}
use agentic_attribution.Merchant.Server.Laws.{serve-purchase}
use agentic_attribution.Simulator.Requests.{
  Outgoing, done, product_body, challenge_request, accept_challenge, request_challenge,
}
use agentic_attribution.System.Network.{Setting, at_merchant, at_gateway, fetch}
use agentic_attribution.System.Network.Laws.{IsCarried, lookup-forwardable_headers, lookup-append}
use agentic_attribution.System.Exchange.{
  IsSent, sent_on, served_by_merchant, arrives_whole, passes_through, merchant_reads,
}

-- The challenge for one set of requirements.
abbrev pub terms_for : PaymentRequirements → PaymentRequiredBody
terms_for r = record { x402_version = x402_version; accepts = r ∷ [] }

-- An answer with status 402 that carries the terms.
accept_challenge-terms :
    {Key : Type 0} (platform : Platform Key) (r : PaymentRequirements)
    → IsCarried platform (challenge_json (terms_for r))
    → accept_challenge platform (
        ok (record {
          status = 402;
          text =
              platform.utf8_text
                (platform.utf8 (platform.stringify (challenge_json (terms_for r))));
        }))
      ≡ done (requirements_json r)
unfolding accept_challenge challenge_json read property truthy requirements_json
accept_challenge-terms platform r c = rw (c.decodes, c.parses) refl

module _ {Key : Type 0} (setting : Setting Key) where
  open setting use {deps, env, pathname, port, first, second, edge_now, shop_now, elsewhere, cache}
  open deps use {platform}

  abbrev pub asks : String → Outgoing
  asks product_id = challenge_request platform product_id

  challenged :
      (headers : List (String × String)) (product_id : String) (listing : Listing)
      (r : PaymentRequirements)
      → Offers deps (product_body product_id) listing r
      → lookup payment_header headers ≡ none
      → (answered deps headers
          (Shop.handle deps (product_body product_id) headers shop_now)
          (Shop.handle deps (product_body product_id) headers shop_now).reply)
        ≡ record {
          status = 402;
          body = handled (challenge (terms_for r));
          headers =
              ("content-type", "application/json")
              ∷ (
                payment_required_header,
                encode_header_json platform (challenge_json (terms_for r)),
              )
              ∷ [];
          settlements = [];
          reports = [];
        }
  unfolding answered offered report_refusal given
  challenged headers product_id listing r o unpaid =
      rw (Offers-handle deps (product_body product_id) headers shop_now listing r o, unpaid) refl

  unpaid_at_gateway :
      (product_id : String)
      → lookup payment_header first.connection ≡ none
      → given (lookup payment_header ((asks product_id).headers ++ first.connection)) ≡ none
  unfolding lookup given challenge_request
  unpaid_at_gateway product_id a = rw a refl

  -- The merchant's server asked for a challenge, through the gateway.
  answers :
      (product_id : String) (listing : Listing) (r : PaymentRequirements)
      → IsSent setting (asks product_id) (product_body product_id)
      → Offers deps (product_body product_id) listing r
      → lookup payment_header first.connection ≡ none
      → lookup payment_header second.connection ≡ none
      → let answer = served_by_merchant setting (asks product_id) in
        (answer.status ≡ 402)
        × (answer.body ≡ handled (challenge (terms_for r)))
        × (answer.settlements ≡ [])
  unfolding at_merchant challenge_request lookup forwardable_headers
  answers product_id listing r sent o a b =
      let out = asks product_id in
      let headers = (sent_on setting out).headers ++ second.connection in
      let unpaid : lookup payment_header headers ≡ none =
        lookup-append payment_header
          (forwardable_headers (("content-type", "application/json") ∷ first.connection))
          second.connection
          (lookup-forwardable_headers payment_header
              (("content-type", "application/json") ∷ first.connection) refl
            ∙ a)
        ∙ b in
      let e =
        serve-purchase deps headers (second.cut (platform.utf8 out.body)) shop_now
          (product_body product_id) (merchant_reads setting out (product_body product_id) sent) in
      rw (e ∙ challenged headers product_id listing r o unpaid) (refl, refl, refl)

  -- Where a listed product in stock is asked for, the request is small and travels whole, no header
  -- added on the way names a payment, and the terms survive JSON and UTF-8: the agent's request for a
  -- challenge, through the gateway's server to the merchant's and back, ends in the requirements for
  -- that listing, with one request sent by the gateway and no settlement asked for.
  pub request_challenge-terms :
      (product_id : String) (listing : Listing) (r : PaymentRequirements)
      → IsSent setting (asks product_id) (product_body product_id)
      → Offers deps (product_body product_id) listing r
      → lookup payment_header first.connection ≡ none
      → lookup payment_header second.connection ≡ none
      → IsCarried platform (challenge_json (terms_for r))
      → let out = asks product_id in
        let sent = sent_on setting out in
        (request_challenge platform (fetch setting) product_id ≡ done (requirements_json r))
        × ((at_gateway setting out).effects ≡ forwarded sent ∷ [])
        × ((at_merchant setting sent).settlements ≡ [])
  unfolding request_challenge body_json
  request_challenge-terms product_id listing r sent o a b c =
      let out = asks product_id in
      let (bytes_in, text) = arrives_whole setting out (product_body product_id) sent in
      let (effects, answer) = passes_through setting out (product_body product_id) cache sent (
        unpaid-passes_on platform _ cache env _ edge_now (platform.utf8 out.body) refl refl bytes_in
          (unpaid_at_gateway product_id a)) in
      let (status, body, settlements) = answers product_id listing r sent o a b in
      (rw (answer, status, body) (accept_challenge-terms platform r c), effects, settlements)

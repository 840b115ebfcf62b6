-- ===== src/Merchant/Server/Laws.antt =====
-- What the merchant's server answers and reports, across the settlement service.
use agentic_attribution.Prelude.{
  ℕ, ◌≤◌, String, true, false, none, some, List, [], ◌∷◌, ok, ◌≡◌, refl, ◌∙◌, arith, lookup,
  returns,
}
use agentic_attribution.Js.Json.{Json, as_string, property, truthy}
use agentic_attribution.Js.Integer.{ℤ}
use agentic_attribution.Merchant.X402.{
  PaymentPayload, PaymentRequirements, payment_signature_header, attribution_assertion_header,
  decode_header_json, decode_payment_header,
}
use agentic_attribution.Merchant.Settlement.{rejected, settle}
use agentic_attribution.Merchant.Handler.{
  Listing, Handled, rejection, Dependencies, given, settle_purchase, handle,
}
use agentic_attribution.Merchant.Handler.Laws.{
  Offers, PaysFor, settlement_request, Offers-handle, PaysFor-offered,
}
use agentic_attribution.Merchant.Handler.Offers.{unsigned_assertion-throws}
use agentic_attribution.Merchant.Server.{
  RejectionReport, handled, read_json_body, answered, report_of, report_refusal, serve,
}

module _ {Key : Type 0} (deps : Dependencies Key) where
  open deps use {platform, config, fetch}

  -- A POST to `/purchase` whose body is read and parsed.
  abbrev pub Reads : List (List ℕ) → Json → Type 0
  Reads stream body = read_json_body deps stream ≡ ok body

  pub serve-purchase :
      (headers : List (String × String)) (stream : List (List ℕ)) (now : ℤ) (body : Json)
      → Reads stream body
      → serve deps "POST" "/purchase" headers stream now
        ≡ answered deps headers (handle deps body headers now) (handle deps body headers now).reply
  unfolding serve
  serve-purchase headers stream now body r = rw r

  settle_purchase-rejected :
      (listing : Listing) (requirements : PaymentRequirements) (assertion : Json)
      (payment : PaymentPayload) (status : ℕ) (refusal : Json)
      → settle fetch (settlement_request deps listing assertion payment requirements)
        ≡ ok (rejected status refusal)
      → settle_purchase deps listing assertion payment requirements ≡ record {
        reply = ok (record { status = status; body = rejection refusal; headers = [] });
        settlements = settlement_request deps listing assertion payment requirements ∷ [];
      }
  unfolding settle_purchase
  settle_purchase-rejected listing requirements assertion payment status refusal h = rw h

  report-of-rejection :
      (headers : List (String × String)) (status : ℕ) (refusal reason : Json)
      → 403 ≤ status
      → property refusal "reason" ≡ some reason
      → truthy (some reason) ≡ true
      → report_refusal deps
          (record { status = status; body = rejection refusal; headers = [] })
          headers
        ≡ report_of deps headers reason (rejection refusal) ∷ []
  unfolding report_refusal
  report-of-rejection headers status refusal reason s r t = ground (arith, r, t)

  -- A refusal by the settlement service, with a reason and a status from 403 on, passes through
  -- unchanged in status and body; the settlement was asked for once, and the merchant posts a report
  -- of that reason to the journal, though the service that refused it had it before.
  pub settlement_refusal-reported :
      (headers : List (String × String)) (stream : List (List ℕ)) (now : ℤ) (body : Json)
      (listing : Listing) (requirements : PaymentRequirements) (assertion : Json)
      (payment : PaymentPayload) (status : ℕ) (refusal reason : Json)
      → Reads stream body
      → Offers deps body listing requirements
      → PaysFor deps headers now listing assertion payment
      → settle fetch (settlement_request deps listing assertion payment requirements)
        ≡ ok (rejected status refusal)
      → 403 ≤ status
      → property refusal "reason" ≡ some reason
      → truthy (some reason) ≡ true
      → let s = serve deps "POST" "/purchase" headers stream now in
        (s.status ≡ status)
        × (s.body ≡ handled (rejection refusal))
        × (s.settlements ≡ settlement_request deps listing assertion payment requirements ∷ [])
        × ((report : RejectionReport) × (s.reports ≡ report ∷ []) × (report.reason ≡ reason))
  unfolding answered
  settlement_refusal-reported headers stream now body listing requirements assertion payment status
        refusal reason r o p f s e t =
      rw
        (
          serve-purchase headers stream now body r,
          Offers-handle deps body headers now listing requirements o,
          PaysFor-offered deps headers now listing requirements assertion payment p,
          settle_purchase-rejected listing requirements assertion payment status refusal f,
        )
        (
          refl,
          refl,
          refl,
          (
            report_of deps headers reason (rejection refusal),
            report-of-rejection headers status refusal reason s e t,
            unfold report_of in refl,
          ),
        )

  answered-throws :
      (headers : List (String × String)) (h : Handled)
      → returns h.reply ≡ false
      → let s = answered deps headers h h.reply in
        (s.status ≡ 502) × (s.settlements ≡ h.settlements) × (s.reports ≡ [])
  unfolding answered
  answered-throws headers h e = ground arith

  -- A payment whose assertion decodes to a value without a textual signature, such as `{}`, is
  -- answered with 502, settled nowhere and reported nowhere.
  pub unsigned_assertion-502 :
      (headers : List (String × String)) (stream : List (List ℕ)) (now : ℤ) (body : Json)
      (listing : Listing) (requirements : PaymentRequirements)
      (payment_header assertion_header : String) (assertion : Json) (payment : PaymentPayload)
      → Reads stream body
      → Offers deps body listing requirements
      → given (lookup payment_signature_header headers) ≡ some payment_header
      → given (lookup attribution_assertion_header headers) ≡ some assertion_header
      → decode_header_json platform assertion_header ≡ ok assertion
      → decode_payment_header platform payment_header ≡ ok payment
      → as_string (property assertion "signature") ≡ none
      → let s = serve deps "POST" "/purchase" headers stream now in
        (s.status ≡ 502) × (s.settlements ≡ []) × (s.reports ≡ [])
  unsigned_assertion-502 headers stream now body listing requirements ph ah assertion payment r o hp
        ha d q u =
      let (t, z) =
        unsigned_assertion-throws deps body headers now listing requirements ph ah assertion payment
          o hp ha d q u in
      let (a, b, c) = answered-throws headers (handle deps body headers now) t in
      rw (serve-purchase headers stream now body r) (a, b ∙ z, c)

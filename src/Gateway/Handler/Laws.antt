-- ===== src/Gateway/Handler/Laws.antt =====
-- What gets past the edge.
use Prim.Native.String.{◌++◌ as str_append}
use agentic_attribution.Prelude.{
  ℕ, String, Bool, true, false, Option, none, some, List, [], ◌∷◌, Throws, ok, throw, syntax_error,
  error, type_error, malformed_payment_error, assertion_verification_error, ◌≡◌, ◌↔◌, refl, sym, ap,
  ◌∙◌, arith, lookup,
}
use agentic_attribution.Js.Json.{Json}
use agentic_attribution.Js.Integer.{ℤ}
use agentic_attribution.Platform.{Platform}
use agentic_attribution.Types.Assertion.{verify_assertion, import_verification_key}
use agentic_attribution.Gateway.Body.{read_bounded}
use agentic_attribution.Gateway.KeyCache.{KeyCache, verification_key}
use agentic_attribution.Gateway.KeyCache.Laws.{IsCoherent, verification_key_lem}
use agentic_attribution.Gateway.Handler.{
  GatewayEnv, Request, RejectionReport, Forwarded, OriginResponse, Effect, forwarded, reported,
  Handled, given, relay, report_rejection, purchase_route, payment_header, assertion_header,
  decode_header_json, forwardable_headers, verified, with_key, decoded, with_payment, handle,
}

-- Whether anything was sent to an origin.
abbrev pub forwards : List Effect → Bool
forwards [] = false
forwards (forwarded f ∷ rest) = true
forwards (reported url report ∷ rest) = forwards rest

module _ {Key : Type 0} (platform : Platform Key) (fetch : Forwarded → Throws OriginResponse) where
  -- A POST to `/purchase` with a body within the ceiling and a payment.
  pub record IsPaidPurchase (request : Request) : Type 0 where
    pub posted : request.method ≡ "POST"
    pub on_route : request.pathname ≡ purchase_route
    pub bytes : List ℕ
    pub within :
        read_bounded platform.number_exceeds
          (lookup "content-length" request.headers)
          request.stream
        ≡ some bytes
    pub payment : String
    pub paid : given (lookup payment_header request.headers) ≡ some payment

  pub reaches_with_payment :
      (cache : KeyCache Key) (env : GatewayEnv) (request : Request) (now : ℤ)
      (p : IsPaidPurchase request)
      → handle platform fetch cache env request now
        ≡ with_payment platform fetch cache env request
            (platform.utf8_text p.bytes)
            now
            (given (lookup assertion_header request.headers))
  unfolding handle
  reaches_with_payment cache env request now p = rw (p.posted, p.on_route, p.within, p.paid)

  -- The assertion header is there, decodes, and verifies under the configured key.
  pub record IsAuthentic (env : GatewayEnv) (request : Request) (now : ℤ) : Type 0 where
    pub encoded : String
    pub presented : given (lookup assertion_header request.headers) ≡ some encoded
    pub assertion : Json
    pub decodes : decode_header_json platform encoded ≡ some assertion
    pub key : Key
    pub imports : import_verification_key platform env.attribution_public_key ≡ ok key
    pub verifies : verify_assertion platform assertion key now ≡ ok tt

  module _ (env : GatewayEnv) (request : Request) (body : String) (now : ℤ) where
    pub report-forwards : (r : RejectionReport) → forwards (report_rejection env r) ≡ false
    unfolding report_rejection
    report-forwards r = ground arith

    verified-forwards :
        (c : KeyCache Key) (assertion : Json) (v : Throws (Unit {0}))
        → forwards (verified platform fetch c env request body assertion v).effects ≡ true
        → v ≡ ok tt
    unfolding verified
    verified-forwards c assertion (ok u) h = refl
    verified-forwards c assertion (throw (assertion_verification_error reason detail)) h =
        ground arith
    verified-forwards c assertion (throw (type_error m)) h = ground arith
    verified-forwards c assertion (throw (syntax_error m)) h = ground arith
    verified-forwards c assertion (throw (error m)) h = ground arith
    verified-forwards c assertion (throw (malformed_payment_error m)) h = ground arith

    with_key-forwards :
        (assertion : Json) (k : Throws Key × KeyCache Key)
        → forwards (with_key platform fetch env request body assertion now k).effects ≡ true
        → (key : Key) × (k.0 ≡ ok key) × (verify_assertion platform assertion key now ≡ ok tt)
    unfolding with_key
    with_key-forwards assertion (throw e, c) h = ground arith
    with_key-forwards assertion (ok key, c) h =
        (key, refl, verified-forwards c assertion (verify_assertion platform assertion key now) h)

    decoded-forwards :
        (c : KeyCache Key) (d : Option Json)
        → IsCoherent platform c
        → forwards (decoded platform fetch c env request body now d).effects ≡ true
        → (assertion : Json) × (key : Key) × (d ≡ some assertion)
          × (import_verification_key platform env.attribution_public_key ≡ ok key)
          × (verify_assertion platform assertion key now ≡ ok tt)
    unfolding decoded
    decoded-forwards c none coherent h = ground arith
    decoded-forwards c (some assertion) coherent h =
        let (key, p, q) =
          with_key-forwards assertion (verification_key platform c env.attribution_public_key) h in
        (
          assertion,
          key,
          refl,
          sym (verification_key_lem platform c env.attribution_public_key coherent).0 ∙ p,
          q,
        )

    with_payment-forwards :
        (c : KeyCache Key) (presented : Option String)
        → presented ≡ given (lookup assertion_header request.headers)
        → IsCoherent platform c
        → forwards (with_payment platform fetch c env request body now presented).effects ≡ true
        → IsAuthentic env request now
    unfolding with_payment
    with_payment-forwards c none e coherent h = ground arith
    with_payment-forwards c (some encoded) e coherent h =
        let (assertion, key, p, q, r) =
          decoded-forwards c (decode_header_json platform encoded) coherent h in
        record {
          encoded = encoded;
          presented = sym e;
          assertion = assertion;
          decodes = p;
          key = key;
          imports = q;
          verifies = r;
        }

    -- What the merchant is sent: the request's method, body and headers, but for those that belong to
    -- the connection.
    abbrev pub to_merchant : Forwarded
    to_merchant = record {
      method = request.method;
      url = str_append env.merchant_url purchase_route;
      headers = forwardable_headers request.headers;
      body = body;
    }

    -- The purchase passed on to the merchant, whose answer comes back as it is.
    abbrev pub passed_on : KeyCache Key → Handled Key
    passed_on c = record {
      reply = relay (fetch to_merchant);
      effects = forwarded to_merchant ∷ [];
      cache = c;
    }

    with_key-authentic :
        (assertion : Json) (key : Key) (k : Throws Key × KeyCache Key)
        → k.0 ≡ ok key
        → verify_assertion platform assertion key now ≡ ok tt
        → with_key platform fetch env request body assertion now k ≡ passed_on k.1
    unfolding with_key
    with_key-authentic assertion key (throw e, c) p q = ground arith
    with_key-authentic assertion key (ok key', c) p q = ground arith

    IsAuthentic-with_payment :
        (c : KeyCache Key)
        → IsCoherent platform c
        → IsAuthentic env request now
        → with_payment platform fetch c env request body now
            (given (lookup assertion_header request.headers))
          ≡ passed_on (verification_key platform c env.attribution_public_key).1
    unfolding with_payment
    IsAuthentic-with_payment c coherent a =
        rw (a.presented, a.decodes)
          (with_key-authentic a.assertion a.key
            (verification_key platform c env.attribution_public_key)
            ((verification_key_lem platform c env.attribution_public_key coherent).0 ∙ a.imports)
            a.verifies)

  pub authentic-passes_on :
      (cache : KeyCache Key) (env : GatewayEnv) (request : Request) (now : ℤ)
      (p : IsPaidPurchase request)
      → IsCoherent platform cache
      → IsAuthentic env request now
      → handle platform fetch cache env request now
        ≡ passed_on env request
            (platform.utf8_text p.bytes)
            now
            (verification_key platform cache env.attribution_public_key).1
  authentic-passes_on cache env request now p coherent a =
      reaches_with_payment cache env request now p
      ∙ IsAuthentic-with_payment env request (platform.utf8_text p.bytes) now cache coherent a

  -- A purchase without a payment is the first half of the exchange.
  pub unpaid-passes_on :
      (cache : KeyCache Key) (env : GatewayEnv) (request : Request) (now : ℤ) (bytes : List ℕ)
      → request.method ≡ "POST"
      → request.pathname ≡ purchase_route
      → read_bounded platform.number_exceeds
          (lookup "content-length" request.headers)
          request.stream
        ≡ some bytes
      → given (lookup payment_header request.headers) ≡ none
      → handle platform fetch cache env request now
        ≡ passed_on env request (platform.utf8_text bytes) now cache
  unfolding handle
  unpaid-passes_on cache env request now bytes posted on_route within unpaid =
      rw (posted, on_route, within, unpaid) refl

  -- A paid purchase goes on to an origin exactly when its assertion header is there, decodes, and
  -- verifies at `now` under the configured key; then exactly one request is sent, to the merchant,
  -- with the body as it came and nothing reported.
  pub forwards-paid_purchase_iff :
      (cache : KeyCache Key) (env : GatewayEnv) (request : Request) (now : ℤ)
      (p : IsPaidPurchase request)
      → IsCoherent platform cache
      → let sent = (handle platform fetch cache env request now).effects in
        ((forwards sent ≡ true) ↔ IsAuthentic env request now)
        × (IsAuthentic env request now
            → sent ≡ forwarded (to_merchant env request (platform.utf8_text p.bytes) now) ∷ [])
  forwards-paid_purchase_iff cache env request now p coherent =
      let body = platform.utf8_text p.bytes in
      let reach = reaches_with_payment cache env request now p in
      let sends = λ (a : IsAuthentic env request now).
        ap (λ (h : Handled Key). h.effects)
          (reach ∙ IsAuthentic-with_payment env request body now cache coherent a) in
      (
        (
          λ h. with_payment-forwards env request body now cache _ refl coherent (rw reach at h),
          λ a. ap forwards (sends a),
        ),
        sends,
      )

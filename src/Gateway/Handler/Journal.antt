-- ===== src/Gateway/Handler/Journal.antt =====
-- What the edge records of what it stops.
use Prim.Native.String.{◌++◌ as str_append}
use agentic_attribution.Prelude.{
  ℕ, String, false, Option, none, some, [], ◌∷◌, Throws, ok, throw, syntax_error, error, type_error,
  malformed_payment_error, assertion_verification_error, ◌≡◌, ◌≢◌, ◌⊎◌, inl, inr, refl, ◌∙◌, arith,
  eq_iff, lookup, returns,
}
use agentic_attribution.Js.Json.{Json, as_string, property}
use agentic_attribution.Js.Integer.{ℤ}
use agentic_attribution.Js.Text.{strip_trailing_slashes}
use agentic_attribution.Platform.{Platform}
use agentic_attribution.Types.Assertion.{verify_assertion, import_verification_key}
use agentic_attribution.Types.Assertion.Laws.{verify_assertion-unsigned}
use agentic_attribution.Gateway.KeyCache.{KeyCache, verification_key}
use agentic_attribution.Gateway.KeyCache.Laws.{IsCoherent, verification_key_lem}
use agentic_attribution.Gateway.Handler.{
  GatewayEnv, Request, RejectionReport, Forwarded, OriginResponse, refusal, forwarded, reported,
  Handled, given, assertion_header, decode_header_json, refuse, verified, with_key, decoded,
  with_payment, handle,
}
use agentic_attribution.Gateway.Handler.Laws.{IsPaidPurchase, reaches_with_payment}

module _ {Key : Type 0} where
  -- One request went to an origin.
  pub record IsForwarded (h : Handled Key) : Type 0 where
    pub request : Forwarded
    pub sent : h.effects ≡ forwarded request ∷ []

  -- The request was refused, and one report of it, with the reason of the answer, went to the journal
  -- at `url`.
  pub record IsRefused (url : String) (h : Handled Key) : Type 0 where
    pub report : RejectionReport
    pub sent :
        h.effects ≡ reported (str_append (strip_trailing_slashes url) "/rejections") report ∷ []
    pub status : ℕ
    pub is_client_error : (status ≡ 400) ⊎ (status ≡ 401)
    pub detail : String
    pub answered : h.reply ≡ ok (refusal status detail (some report.reason))

  -- The gateway threw, and sent nothing.
  pub record IsThrown (h : Handled Key) : Type 0 where
    pub silent : h.effects ≡ []
    pub fails : returns h.reply ≡ false

  abbrev pub Outcome : String → Handled Key → Type 0
  Outcome url h = IsForwarded h ⊎ IsRefused url h ⊎ IsThrown h

module _ {Key : Type 0} (platform : Platform Key) (fetch : Forwarded → Throws OriginResponse)
    (env : GatewayEnv) (url : String) (journal : env.settlement_url ≡ some url)
    (set : url ≢ "") where
  refuse-IsRefused :
      (cache : KeyCache Key) (report : RejectionReport) (status : ℕ) (problem : String)
      → (status ≡ 400) ⊎ (status ≡ 401)
      → IsRefused url (refuse platform fetch cache env report status problem)
  unfolding refuse
  refuse-IsRefused cache report status problem e = record {
    report = report;
    sent = ground (arith, journal, eq_iff url "");
    status = status;
    is_client_error = e;
    detail = problem;
    answered = refl;
  }

  module _ (request : Request) (body : String) (now : ℤ) where
    verified-Outcome :
        (c : KeyCache Key) (assertion : Json) (v : Throws (Unit {0}))
        → Outcome url (verified platform fetch c env request body assertion v)
    unfolding verified
    verified-Outcome c assertion (ok u) = inl (record { request = _; sent = refl })
    verified-Outcome c assertion (throw (assertion_verification_error reason detail)) =
        inr (inl (refuse-IsRefused c _ 401 detail (inr refl)))
    verified-Outcome c assertion (throw (type_error m)) =
        inr (inr (record { silent = refl; fails = refl }))
    verified-Outcome c assertion (throw (syntax_error m)) =
        inr (inr (record { silent = refl; fails = refl }))
    verified-Outcome c assertion (throw (error m)) =
        inr (inr (record { silent = refl; fails = refl }))
    verified-Outcome c assertion (throw (malformed_payment_error m)) =
        inr (inr (record { silent = refl; fails = refl }))

    with_key-Outcome :
        (assertion : Json) (k : Throws Key × KeyCache Key)
        → Outcome url (with_key platform fetch env request body assertion now k)
    unfolding with_key
    with_key-Outcome assertion (throw e, c) = inr (inr (record { silent = refl; fails = refl }))
    with_key-Outcome assertion (ok key, c) =
        verified-Outcome c assertion (verify_assertion platform assertion key now)

    decoded-Outcome :
        (c : KeyCache Key) (d : Option Json)
        → Outcome url (decoded platform fetch c env request body now d)
    unfolding decoded
    decoded-Outcome c none = inr (inl (refuse-IsRefused c _ 400 _ (inl refl)))
    decoded-Outcome c (some assertion) =
        with_key-Outcome assertion (verification_key platform c env.attribution_public_key)

    with_payment-Outcome :
        (c : KeyCache Key) (presented : Option String)
        → Outcome url (with_payment platform fetch c env request body now presented)
    unfolding with_payment
    with_payment-Outcome c none = inr (inl (refuse-IsRefused c _ 400 _ (inl refl)))
    with_payment-Outcome c (some encoded) = decoded-Outcome c (decode_header_json platform encoded)

  -- With a journal configured, a paid purchase has one of three ends: one request to an origin and
  -- no report; a refusal with 400 or 401 and a reason, and exactly one report, to the journal, of
  -- that reason; or a throw, with nothing sent. No refusal goes unreported.
  pub paid_purchase-Outcome :
      (cache : KeyCache Key) (request : Request) (now : ℤ)
      → IsPaidPurchase platform fetch request
      → Outcome url (handle platform fetch cache env request now)
  paid_purchase-Outcome cache request now p =
      rw (reaches_with_payment platform fetch cache env request now p) (
        with_payment-Outcome request (platform.utf8_text p.bytes) now cache
          (given (lookup assertion_header request.headers)))

module _ {Key : Type 0} (platform : Platform Key) (fetch : Forwarded → Throws OriginResponse)
    (env : GatewayEnv) (request : Request) (now : ℤ) where
  with_key-unsigned :
      (assertion : Json) (key : Key) (body : String) (k : Throws Key × KeyCache Key)
      → k.0 ≡ ok key
      → as_string (property assertion "signature") ≡ none
      → IsThrown (with_key platform fetch env request body assertion now k)
  unfolding with_key verified
  with_key-unsigned assertion key body (throw e, c) p h = record { silent = refl; fails = refl }
  with_key-unsigned assertion key body (ok key', c) p h =
      let (m, e) = verify_assertion-unsigned platform assertion key' now h in
      record { silent = ground (arith, e); fails = ground (arith, e) }

  -- A paid purchase whose assertion decodes to a value without a textual signature, such as `{}`, is
  -- neither refused nor reported: the handler throws, and sends nothing.
  pub unsigned_assertion-IsThrown :
      (cache : KeyCache Key) (key : Key) (encoded : String) (assertion : Json)
      → IsCoherent platform cache
      → IsPaidPurchase platform fetch request
      → given (lookup assertion_header request.headers) ≡ some encoded
      → decode_header_json platform encoded ≡ some assertion
      → import_verification_key platform env.attribution_public_key ≡ ok key
      → as_string (property assertion "signature") ≡ none
      → IsThrown (handle platform fetch cache env request now)
  unfolding with_payment
  unsigned_assertion-IsThrown cache key encoded assertion coherent p h d i u =
      rw (reaches_with_payment platform fetch cache env request now p, h, d)
        (with_key-unsigned assertion key (platform.utf8_text p.bytes)
          (verification_key platform cache env.attribution_public_key)
          ((verification_key_lem platform cache env.attribution_public_key coherent).0 ∙ i) u)

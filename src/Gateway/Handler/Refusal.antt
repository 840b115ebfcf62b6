-- ===== src/Gateway/Handler/Refusal.antt =====
-- A paid purchase whose assertion is judged and found wanting.
use agentic_attribution.Prelude.{
  String, false, some, Throws, ok, throw, VerificationFailure, assertion_verification_error, ◌≡◌,
  refl, arith, ◌∙◌, lookup,
}
use agentic_attribution.Js.Json.{Json}
use agentic_attribution.Js.Integer.{ℤ}
use agentic_attribution.Platform.{Platform}
use agentic_attribution.Types.Assertion.{verify_assertion, import_verification_key}
use agentic_attribution.Gateway.KeyCache.{KeyCache, verification_key}
use agentic_attribution.Gateway.KeyCache.Laws.{IsCoherent, verification_key_lem}
use agentic_attribution.Gateway.Handler.{
  GatewayEnv, Request, Forwarded, OriginResponse, refusal, Handled, given, assertion_header,
  failure_text, decode_header_json, refuse, verified, with_key, decoded, with_payment, handle,
}
use agentic_attribution.Gateway.Handler.Laws.{
  forwards, IsPaidPurchase, reaches_with_payment, report-forwards,
}

module _ {Key : Type 0} (platform : Platform Key) (fetch : Forwarded → Throws OriginResponse)
    (env : GatewayEnv) (request : Request) (now : ℤ) where
  -- The header is there and decodes, and the key imports, but the assertion does not verify.
  pub record IsJudged (assertion : Json) (reason : VerificationFailure) (detail : String)
      : Type 0 where
    pub encoded : String
    pub presented : given (lookup assertion_header request.headers) ≡ some encoded
    pub decodes : decode_header_json platform encoded ≡ some assertion
    pub key : Key
    pub imports : import_verification_key platform env.attribution_public_key ≡ ok key
    pub fails :
        verify_assertion platform assertion key now
        ≡ throw (assertion_verification_error reason detail)

  -- The answer is 401 with that reason, and no origin gets a request.
  pub record IsRefused (reason : VerificationFailure) (detail : String) (h : Handled Key)
      : Type 0 where
    pub answer : h.reply ≡ ok (refusal 401 detail (some (failure_text reason)))
    pub stopped : forwards h.effects ≡ false

  with_key-IsRefused :
      (body : String) (assertion : Json) (key : Key) (reason : VerificationFailure)
      (detail : String) (k : Throws Key × KeyCache Key)
      → k.0 ≡ ok key
      → verify_assertion platform assertion key now
        ≡ throw (assertion_verification_error reason detail)
      → IsRefused reason detail (with_key platform fetch env request body assertion now k)
  unfolding with_key verified refuse
  with_key-IsRefused body assertion key reason detail (throw e, c) p q = ground arith
  with_key-IsRefused body assertion key reason detail (ok key', c) p q =
      let same : verify_assertion platform assertion key' now
          ≡ throw (assertion_verification_error reason detail) =
        ground (arith, q) in
      rw same
        (record { answer = refl; stopped = report-forwards platform fetch env request body now _ })

  pub judged-IsRefused :
      (cache : KeyCache Key) (assertion : Json) (reason : VerificationFailure) (detail : String)
      → IsPaidPurchase platform fetch request
      → IsCoherent platform cache
      → IsJudged assertion reason detail
      → IsRefused reason detail (handle platform fetch cache env request now)
  unfolding with_payment decoded
  judged-IsRefused cache assertion reason detail p coherent j =
      rw (reaches_with_payment platform fetch cache env request now p, j.presented, j.decodes)
        (with_key-IsRefused (platform.utf8_text p.bytes) assertion j.key reason detail
          (verification_key platform cache env.attribution_public_key)
          ((verification_key_lem platform cache env.attribution_public_key coherent).0 ∙ j.imports)
          j.fails)

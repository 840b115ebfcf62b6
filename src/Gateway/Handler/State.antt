-- ===== src/Gateway/Handler/State.antt =====
-- What the gateway keeps between requests: the key cache stays coherent.
use agentic_attribution.Prelude.{
  ℕ, String, ◌&&◌, Option, none, some, List, Throws, ok, throw, ◌≡◌, refl, type_error, syntax_error,
  error, malformed_payment_error, assertion_verification_error, str_eq, inl, inr, Bool-cases,
}
use agentic_attribution.Js.Json.{Json}
use agentic_attribution.Js.Integer.{ℤ}
use agentic_attribution.Platform.{Platform}
use agentic_attribution.Gateway.KeyCache.{KeyCache, verification_key}
use agentic_attribution.Gateway.KeyCache.Laws.{IsCoherent, verification_key_lem}
use agentic_attribution.Gateway.Handler.{
  GatewayEnv, Request, Forwarded, OriginResponse, search_route, purchase_route, health_route, proxy,
  refuse, plain, thrown, verified, with_key, decoded, with_payment, purchase, with_body, handle,
}

module _ {Key : Type 0} (platform : Platform Key) (fetch : Forwarded → Throws OriginResponse)
    (env : GatewayEnv) (request : Request) (now : ℤ) where
  open platform use {utf8_text}

  verified-cache :
      (c : KeyCache Key) (body : String) (assertion : Json) (v : Throws (Unit {0}))
      → (verified platform fetch c env request body assertion v).cache ≡ c
  unfolding verified proxy refuse thrown
  verified-cache c body assertion (ok u) = refl
  verified-cache c body assertion (throw (assertion_verification_error reason detail)) = refl
  verified-cache c body assertion (throw (type_error m)) = refl
  verified-cache c body assertion (throw (syntax_error m)) = refl
  verified-cache c body assertion (throw (error m)) = refl
  verified-cache c body assertion (throw (malformed_payment_error m)) = refl

  with_key-cache :
      (body : String) (assertion : Json) (k : Throws Key × KeyCache Key)
      → (with_key platform fetch env request body assertion now k).cache ≡ k.1
  unfolding with_key thrown
  with_key-cache body assertion (throw e, c) = refl
  with_key-cache body assertion (ok key, c) = verified-cache c body assertion _

  decoded-IsCoherent :
      (c : KeyCache Key) (body : String) (d : Option Json)
      → IsCoherent platform c
      → IsCoherent platform (decoded platform fetch c env request body now d).cache
  unfolding decoded refuse
  decoded-IsCoherent c body none h = h
  decoded-IsCoherent c body (some assertion) h =
      rw (with_key-cache body assertion (verification_key platform c env.attribution_public_key))
        (verification_key_lem platform c env.attribution_public_key h).1

  with_payment-IsCoherent :
      (c : KeyCache Key) (body : String) (presented : Option String)
      → IsCoherent platform c
      → IsCoherent platform (with_payment platform fetch c env request body now presented).cache
  unfolding with_payment refuse
  with_payment-IsCoherent c body none h = h
  with_payment-IsCoherent c body (some encoded) h = decoded-IsCoherent c body _ h

  purchase-IsCoherent :
      (c : KeyCache Key) (body : String) (payment : Option String)
      → IsCoherent platform c
      → IsCoherent platform (purchase platform fetch c env request body now payment).cache
  unfolding purchase proxy
  purchase-IsCoherent c body none h = h
  purchase-IsCoherent c body (some payment) h = with_payment-IsCoherent c body _ h

  with_body-IsCoherent :
      (c : KeyCache Key) (read : Option (List ℕ))
      → IsCoherent platform c
      → IsCoherent platform (with_body platform fetch c env request now read).cache
  unfolding with_body proxy plain
  with_body-IsCoherent c none h = h
  with_body-IsCoherent c (some bytes) h = elim (Bool-cases (str_eq request.pathname search_route)) [
    | inl p ↦ rw p h
    | inr p ↦ elim (Bool-cases (str_eq request.pathname purchase_route)) [
      | inl q ↦ rw (p, q) (purchase-IsCoherent c (utf8_text bytes) _ h)
      | inr q ↦ rw (p, q) h
    ]
  ]

  pub handle-IsCoherent :
      (c : KeyCache Key)
      → IsCoherent platform c
      → IsCoherent platform (handle platform fetch c env request now).cache
  unfolding handle plain
  handle-IsCoherent c h =
      elim (Bool-cases (str_eq request.method "GET" && str_eq request.pathname health_route)) [
        | inl p ↦ rw p h
        | inr p ↦ elim (Bool-cases (str_eq request.method "POST")) [
          | inl q ↦ rw (p, q) (with_body-IsCoherent c _ h)
          | inr q ↦ rw (p, q) h
        ]
      ]

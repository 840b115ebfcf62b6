-- ===== src/Gateway/Handler/Rotation.antt =====
-- What the gateway answers does not depend on what its key cache holds, also where the configured key
-- changes between calls.
use agentic_attribution.Prelude.{
  [], ◌∷◌, sym, ◌∙◌, arith, ℕ, String, ◌&&◌, Option, none, some, List, Throws, ok, throw, ◌≡◌, refl,
  type_error, syntax_error, error, malformed_payment_error, assertion_verification_error, str_eq,
  inl, inr, Bool-cases,
}
use agentic_attribution.Js.Json.{Json}
use agentic_attribution.Js.Integer.{ℤ}
use agentic_attribution.Platform.{Platform}
use agentic_attribution.Gateway.KeyCache.{KeyCache, verification_key, reset_key_cache}
use agentic_attribution.Gateway.KeyCache.Laws.{IsCoherent, verification_key_lem, reset-IsCoherent}
use agentic_attribution.Gateway.Handler.{
  GatewayEnv, Request, Handled, Forwarded, OriginResponse, search_route, purchase_route,
  health_route, proxy, refuse, plain, thrown, verified, with_key, decoded, with_payment, purchase,
  with_body, handle,
}
use agentic_attribution.Gateway.Handler.State.{handle-IsCoherent}

-- The same answer and the same calls of the network.
abbrev pub SameAnswer : {Key : Type 0} → Handled Key → Handled Key → Type 0
SameAnswer a b = (a.reply ≡ b.reply) × (a.effects ≡ b.effects)

module _ {Key : Type 0} (platform : Platform Key) (fetch : Forwarded → Throws OriginResponse)
    (env : GatewayEnv) (request : Request) (now : ℤ) where
  open platform use {utf8_text}

  verified-SameAnswer :
      (c d : KeyCache Key) (body : String) (assertion : Json) (v : Throws (Unit {0}))
      → SameAnswer
          (verified platform fetch c env request body assertion v)
          (verified platform fetch d env request body assertion v)
  unfolding verified proxy refuse thrown
  verified-SameAnswer c d body assertion (ok u) = (refl, refl)
  verified-SameAnswer c d body assertion (throw (assertion_verification_error reason detail)) =
      (refl, refl)
  verified-SameAnswer c d body assertion (throw (type_error m)) = (refl, refl)
  verified-SameAnswer c d body assertion (throw (syntax_error m)) = (refl, refl)
  verified-SameAnswer c d body assertion (throw (error m)) = (refl, refl)
  verified-SameAnswer c d body assertion (throw (malformed_payment_error m)) = (refl, refl)

  with_key-SameAnswer :
      (body : String) (assertion : Json) (k l : Throws Key × KeyCache Key)
      → k.0 ≡ l.0
      → SameAnswer
          (with_key platform fetch env request body assertion now k)
          (with_key platform fetch env request body assertion now l)
  unfolding with_key thrown
  with_key-SameAnswer body assertion (throw e, c) (throw f, d) p =
      let q : e ≡ f = ground (arith, p) in rw q (refl, refl)
  with_key-SameAnswer body assertion (throw e, c) (ok b, d) p = absurd (ground (arith, p))
  with_key-SameAnswer body assertion (ok a, c) (throw f, d) p = absurd (ground (arith, p))
  with_key-SameAnswer body assertion (ok a, c) (ok b, d) p =
      let q : a ≡ b = ground (arith, p) in rw q (verified-SameAnswer c d body assertion _)

  module _ (c d : KeyCache Key) (held : IsCoherent platform c) (other : IsCoherent platform d) where
    decoded-SameAnswer :
        (body : String) (v : Option Json)
        → SameAnswer
            (decoded platform fetch c env request body now v)
            (decoded platform fetch d env request body now v)
    unfolding decoded refuse
    decoded-SameAnswer body none = (refl, refl)
    decoded-SameAnswer body (some assertion) =
        let key = env.attribution_public_key in
        with_key-SameAnswer body assertion (verification_key platform c key)
          (verification_key platform d key)
          ((verification_key_lem platform c key held).0
            ∙ sym (verification_key_lem platform d key other).0)

    with_payment-SameAnswer :
        (body : String) (presented : Option String)
        → SameAnswer
            (with_payment platform fetch c env request body now presented)
            (with_payment platform fetch d env request body now presented)
    unfolding with_payment refuse
    with_payment-SameAnswer body none = (refl, refl)
    with_payment-SameAnswer body (some encoded) = decoded-SameAnswer body _

    purchase-SameAnswer :
        (body : String) (payment : Option String)
        → SameAnswer
            (purchase platform fetch c env request body now payment)
            (purchase platform fetch d env request body now payment)
    unfolding purchase proxy
    purchase-SameAnswer body none = (refl, refl)
    purchase-SameAnswer body (some payment) = with_payment-SameAnswer body _

    with_body-SameAnswer :
        (read : Option (List ℕ))
        → SameAnswer
            (with_body platform fetch c env request now read)
            (with_body platform fetch d env request now read)
    unfolding with_body proxy plain
    with_body-SameAnswer none = (refl, refl)
    with_body-SameAnswer (some bytes) = elim (Bool-cases (str_eq request.pathname search_route)) [
      | inl p ↦ rw p (refl, refl)
      | inr p ↦ elim (Bool-cases (str_eq request.pathname purchase_route)) [
        | inl q ↦ rw (p, q) (purchase-SameAnswer (utf8_text bytes) _)
        | inr q ↦ rw (p, q) (refl, refl)
      ]
    ]

    handle-SameAnswer :
        SameAnswer
          (handle platform fetch c env request now)
          (handle platform fetch d env request now)
    unfolding handle plain
    handle-SameAnswer =
        elim (Bool-cases (str_eq request.method "GET" && str_eq request.pathname health_route)) [
          | inl p ↦ rw p (refl, refl)
          | inr p ↦ elim (Bool-cases (str_eq request.method "POST")) [
            | inl q ↦ rw (p, q) (with_body-SameAnswer _)
            | inr q ↦ rw (p, q) (refl, refl)
          ]
        ]

-- One call of `handle`, with the environment, the clock and the network of that moment.
pub record Call : Type 0 where
  pub env : GatewayEnv
  pub request : Request
  pub now : ℤ
  pub fetch : Forwarded → Throws OriginResponse

module _ {Key : Type 0} (platform : Platform Key) where
  abbrev pub called : KeyCache Key → Call → Handled Key
  called cache call = handle platform call.fetch cache call.env call.request call.now

  -- The key cache behind calls one after another.
  abbrev pub cache_after : KeyCache Key → List Call → KeyCache Key
  cache_after cache [] = cache
  cache_after cache (call ∷ calls) = cache_after (called cache call).cache calls

  cache_after-IsCoherent :
      (c : KeyCache Key) (calls : List Call)
      → IsCoherent platform c
      → IsCoherent platform (cache_after c calls)
  cache_after-IsCoherent c [] h = h
  cache_after-IsCoherent c (call ∷ calls) h =
      cache_after-IsCoherent (called c call).cache calls
        (handle-IsCoherent platform call.fetch call.env call.request call.now c h)

  -- Whatever calls came before, each with an environment and so a configured key of its own: a call
  -- answers what it would answer as the first call of the process, and asks the network for the same.
  pub history-SameAnswer :
      (calls : List Call) (call : Call)
      → SameAnswer (called (cache_after reset_key_cache calls) call) (called reset_key_cache call)
  history-SameAnswer calls call =
      handle-SameAnswer platform call.fetch call.env call.request call.now
        (cache_after reset_key_cache calls) reset_key_cache
        (cache_after-IsCoherent reset_key_cache calls (reset-IsCoherent platform))
        (reset-IsCoherent platform)

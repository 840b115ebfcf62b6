-- ===== src/Facilitator/Handler/History.antt =====
-- What the ledger stands for: the nonces of the requests that settled.
use agentic_attribution.Prelude.{
  String, true, some, List, [], ◌∷◌, ◌≡◌, ◌⊎◌, ◌↔◌, inl, inr, arith, Bool-cases,
}
use agentic_attribution.Js.Json.{str, property, strict_equal}
use agentic_attribution.Js.Json.Laws.{strict_equal-str}
use agentic_attribution.Facilitator.Verify.{Chain}
use agentic_attribution.Facilitator.Ledger.{has}
use agentic_attribution.Facilitator.Request.{FacilitatorRequest}
use agentic_attribution.Facilitator.Handler.{FacilitatorState, now_seconds}
use agentic_attribution.Facilitator.Handler.Laws.{Settles, handle-cases}
use agentic_attribution.Facilitator.Handler.Nonces.{
  Call, handle_call, run, run-has_mono, Settles-has,
}

module _ (chain : Chain) (n : String) where
  -- Among the requests there is one that settles, with the nonce `n`.
  pub data SettledIn : FacilitatorState → List Call → Type 0 where
    here :
        (s : FacilitatorState) (c : Call) (cs : List Call) (r : FacilitatorRequest)
        → Settles chain s r (now_seconds c.clock) (handle_call chain s c)
        → property r.authorization "nonce" ≡ some (str n)
        → SettledIn s (c ∷ cs)
    later :
        (s : FacilitatorState) (c : Call) (cs : List Call)
        → SettledIn (handle_call chain s c).state cs
        → SettledIn s (c ∷ cs)

  -- A request after which the ledger has `n` settled it, or found it there.
  handle-has :
      (s : FacilitatorState) (c : Call) (cs : List Call)
      → has (handle_call chain s c).state.nonces (some (str n)) ≡ true
      → (has s.nonces (some (str n)) ≡ true) ⊎ SettledIn s (c ∷ cs)
  unfolding has
  handle-has s c cs h = elim (handle-cases chain s c.method c.path c.body c.clock) [
    | inr rests ↦ inl (ground (arith, rests.nonces_kept))
    | inl done ↦
        let nonce = property done.request.authorization "nonce" in
        elim (Bool-cases (strict_equal nonce (some (str n)))) [
          | inl same ↦ inr (here s c cs done.request done.settles (strict_equal-str nonce n same))
          | inr other ↦ inl (ground (arith, done.settles.claimed, other))
        ]
  ]

  run-SettledIn :
      (s : FacilitatorState) (cs : List Call)
      → has (run chain s cs).0.nonces (some (str n)) ≡ true
      → (has s.nonces (some (str n)) ≡ true) ⊎ SettledIn s cs
  unfolding run
  run-SettledIn s [] h = inl h
  run-SettledIn s (c ∷ cs) h = elim (run-SettledIn (handle_call chain s c).state cs h) [
    | inr there ↦ inr (later s c cs there)
    | inl now ↦ handle-has s c cs now
  ]

  SettledIn-run :
      (s : FacilitatorState) (cs : List Call)
      → SettledIn s cs
      → has (run chain s cs).0.nonces (some (str n)) ≡ true
  unfolding run
  SettledIn-run s0 all (here s c cs' r done e) =
      run-has_mono chain (handle_call chain s c).state cs' (some (str n))
        (Settles-has chain s r c n e done)
  SettledIn-run s0 all (later s c cs' there) = SettledIn-run (handle_call chain s c).state cs' there

  -- After any requests, the ledger has a textual nonce exactly if it had it before or one of the
  -- requests settled with it.
  pub run-has_iff :
      (s : FacilitatorState) (cs : List Call)
      → (has (run chain s cs).0.nonces (some (str n)) ≡ true)
        ↔ ((has s.nonces (some (str n)) ≡ true) ⊎ SettledIn s cs)
  run-has_iff s cs = (run-SettledIn s cs, back)
    where
      back :
          (has s.nonces (some (str n)) ≡ true) ⊎ SettledIn s cs
          → has (run chain s cs).0.nonces (some (str n)) ≡ true
      back (inl before) = run-has_mono chain s cs (some (str n)) before
      back (inr there) = SettledIn-run s cs there

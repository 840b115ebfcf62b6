-- ===== src/Facilitator/Handler/Nonces.antt =====
-- Whole runs of the facilitator: a nonce settles once, and the ledger counts the settlements.
use agentic_attribution.Prelude.{
  ℕ, ◌+◌, String, true, Option, some, List, [], ◌∷◌, ◌++◌, ◌≡◌, inl, inr, arith, length,
  length-append,
}
use agentic_attribution.Js.Json.{Json, str, property}
use agentic_attribution.Js.Json.Laws.{str-strict_equal}
use agentic_attribution.Facilitator.Verify.{Chain}
use agentic_attribution.Facilitator.Ledger.{has, size}
use agentic_attribution.Facilitator.Request.{accepted, FacilitatorRequest, validate_request}
use agentic_attribution.Facilitator.Handler.{
  FacilitatorState, SettlementRecord, Handled, now_seconds, handle,
}
use agentic_attribution.Facilitator.Handler.Laws.{Settles, Rests, handle-cases}

-- One request as it reaches the server.
pub record Call : Type 0 where
  pub method : String
  pub path : String
  pub body : Json
  pub clock : ℕ

module _ (chain : Chain) where
  abbrev pub handle_call : FacilitatorState → Call → Handled
  handle_call s c = handle chain s c.method c.path c.body c.clock

  -- The server handles one request after another: `handle` claims a nonce with no wait before it.
  unfoldable pub run : FacilitatorState → List Call → FacilitatorState × List SettlementRecord
  run s [] = (s, [])
  run s (c ∷ cs) =
      let h = handle_call s c in let (s', later) = run h.state cs in (s', h.settlements ++ later)

  handle-has_mono :
      (s : FacilitatorState) (c : Call) (k : Option Json)
      → has s.nonces k ≡ true
      → has (handle_call s c).state.nonces k ≡ true
  unfolding has
  handle-has_mono s c k h = elim (handle-cases chain s c.method c.path c.body c.clock) [
    | inl done ↦ ground (arith, done.settles.claimed)
    | inr rests ↦ ground (arith, rests.nonces_kept)
  ]

  pub run-has_mono :
      (s : FacilitatorState) (cs : List Call) (k : Option Json)
      → has s.nonces k ≡ true
      → has (run s cs).0.nonces k ≡ true
  unfolding run
  run-has_mono s [] k h = h
  run-has_mono s (c ∷ cs) k h = run-has_mono (handle_call s c).state cs k (handle-has_mono s c k h)

  pub Settles-has :
      (s : FacilitatorState) (r : FacilitatorRequest) (c : Call) (n : String)
      → property r.authorization "nonce" ≡ some (str n)
      → Settles chain s r (now_seconds c.clock) (handle_call s c)
      → has (handle_call s c).state.nonces (some (str n)) ≡ true
  unfolding has
  Settles-has s r c n e done = ground (arith, done.claimed, str-strict_equal n)

  claimed-Rests :
      (s : FacilitatorState) (r : FacilitatorRequest) (c : Call)
      → validate_request c.body ≡ accepted r
      → has s.nonces (property r.authorization "nonce") ≡ true
      → Rests s (handle_call s c)
  claimed-Rests s r c v h = elim (handle-cases chain s c.method c.path c.body c.clock) [
    | inr rests ↦ rests
    | inl done ↦ absurd (ground (arith, done.validated, done.settles.fresh))
  ]

  -- Once a request has settled with a textual nonce, no later request with that nonce settles, after
  -- any requests in between, whatever its signer, amount or payee: it moves nothing, claims nothing.
  pub nonce_single_use :
      (s : FacilitatorState) (first : Call) (between : List Call) (second : Call)
      (r q : FacilitatorRequest) (n : String)
      → Settles chain s r (now_seconds first.clock) (handle_call s first)
      → property r.authorization "nonce" ≡ some (str n)
      → validate_request second.body ≡ accepted q
      → property q.authorization "nonce" ≡ some (str n)
      → let s' = (run (handle_call s first).state between).0 in Rests s' (handle_call s' second)
  nonce_single_use s first between second r q n done e v e' = claimed-Rests _ q second v (
      rw e' (
        run-has_mono (handle_call s first).state between (some (str n))
          (Settles-has s r first n e done)))

  handle-size :
      (s : FacilitatorState) (c : Call)
      → size (handle_call s c).state.nonces ≡ size s.nonces + length (handle_call s c).settlements
  unfolding size
  handle-size s c = elim (handle-cases chain s c.method c.path c.body c.clock) [
    | inl done ↦ ground (arith, done.settles.claimed, done.settles.recorded)
    | inr rests ↦ ground (arith, rests.nonces_kept, rests.no_settlement)
  ]

  -- Over any requests, the ledger grows by exactly the settlements made: a request that is refused,
  -- fails or throws consumes no nonce, and none settles without one.
  pub run-size :
      (s : FacilitatorState) (cs : List Call)
      → size (run s cs).0.nonces ≡ size s.nonces + length (run s cs).1
  unfolding run
  run-size s [] = omega arith
  run-size s (c ∷ cs) = omega (
    arith,
    handle-size s c,
    run-size (handle_call s c).state cs,
    length-append (handle_call s c).settlements (run (handle_call s c).state cs).1,
  )

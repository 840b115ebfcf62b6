-- ===== src/Facilitator/Ledger.antt =====
-- facilitator/src/handler.ts: the nonces that this facilitator has settled. `Set.has` compares as
-- `===` does here: a nonce comes out of JSON, so it is never NaN.
pub mod Laws
use agentic_attribution.Prelude.{
  ℕ, Bool, true, false, Option, List, [], ◌∷◌, any, length, if◌then◌else◌,
}
use agentic_attribution.Js.Json.{Json, strict_equal}

-- The elements of the `Set`, the latest first.
pub record NonceLedger : Type 0 where
  pub consumed : List (Option Json)

abbrev pub empty : NonceLedger
empty = record { consumed = [] }

unfoldable pub has : NonceLedger → Option Json → Bool
has ledger nonce = any (λ n. strict_equal n nonce) ledger.consumed

-- `Set.add`
unfoldable pub add : Option Json → List (Option Json) → List (Option Json)
add nonce nonces = if any (λ n. strict_equal n nonce) nonces then nonces else nonce ∷ nonces

unfoldable pub claim : NonceLedger → Option Json → NonceLedger × Bool
unfolding has add
claim ledger nonce =
    if has ledger nonce
    then (ledger, false)
    else (record { consumed = add nonce ledger.consumed }, true)

unfoldable pub size : NonceLedger → ℕ
size ledger = length ledger.consumed

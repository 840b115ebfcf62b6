-- ===== src/Facilitator/Ledger/Laws.antt =====
-- A nonce is claimed once.
use agentic_attribution.Prelude.{
  ◌+◌, String, true, false, ◌||◌, Option, some, ◌≡◌, arith, if◌then◌else◌,
}
use agentic_attribution.Js.Json.{Json, str, strict_equal}
use agentic_attribution.Js.Json.Laws.{str-strict_equal}
use agentic_attribution.Facilitator.Ledger.{NonceLedger, has, claim, size}

-- What a claim answers, and what it leaves in the ledger.
pub has-claim :
    (l : NonceLedger) (n k : Option Json)
    → ((claim l n).1 ≡ true → has (claim l n).0 k ≡ (strict_equal n k || has l k))
      × ((claim l n).1 ≡ false → (claim l n).0 ≡ l)
unfolding claim
has-claim l n k = ground arith

-- The ledger grows by one exactly with each claim that succeeds.
pub size-claim :
    (l : NonceLedger) (n : Option Json)
    → size (claim l n).0 ≡ (if (claim l n).1 then size l + 1 else size l)
unfolding size claim
size-claim l n = ground arith

-- A claim adds to the ledger and takes nothing away.
pub has-claim_mono :
    (l : NonceLedger) (n k : Option Json) → has l k ≡ true → has (claim l n).0 k ≡ true
unfolding claim
has-claim_mono l n k h = ground arith

-- A textual nonce, once claimed, is refused ever after.
pub claim_again :
    (l : NonceLedger) (s : String) → (claim (claim l (some (str s))).0 (some (str s))).1 ≡ false
unfolding claim
claim_again l s = ground (arith, str-strict_equal s)

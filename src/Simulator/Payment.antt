-- ===== src/Simulator/Payment.antt =====
-- simulator/src/agent.ts: the authorization that the agent signs for a challenge. The requirements
-- are the record of `Merchant.X402`, whose fields the agent declares again.
pub mod Laws
use Prim.Native.String.{◌++◌}
use agentic_attribution.Prelude.{
  ℕ, suc, ◌+◌, ◌-◌, ◌/◌, String, Throws, ok, leb, if◌then◌else◌, ◌>>=◌,
}
use agentic_attribution.Js.Json.{Json, str, num, obj, member, end}
use agentic_attribution.Js.Decimal.{to_string, integer_text}
use agentic_attribution.Js.Integer.{ℤ, pos, negsuc}
use agentic_attribution.Types.Eip3009.{
  Eip712Domain, Eip3009Message, eip712_domain, to_typed_message,
}
use agentic_attribution.Merchant.X402.{PaymentRequirements}

abbrev pub valid_after_backdate_seconds : ℕ
valid_after_backdate_seconds = 60

-- `PrivateKeyAccount`, which viem provides.
pub record Account : Type 0 where
  pub address : String
  pub sign_typed_data : Eip712Domain → Eip3009Message → String

-- `nowSeconds - VALID_AFTER_BACKDATE_SECONDS`
unfoldable pub backdated : ℕ → ℤ
backdated now_seconds =
    if leb valid_after_backdate_seconds now_seconds
    then pos (now_seconds - valid_after_backdate_seconds)
    else negsuc (valid_after_backdate_seconds - now_seconds - 1)

-- The `authorization` of the payment; `clock` is in milliseconds, and `nonce` is what `randomNonce`
-- drew.
unfoldable pub authorization_for :
    Account → PaymentRequirements → (clock : ℕ) (nonce : String) → Json
unfolding integer_text backdated
authorization_for account requirements clock nonce = obj (
    member "from" (str account.address) (
      member "to" (str requirements.pay_to) (
        member "value" (str requirements.max_amount_required) (
          member "validAfter" (str (integer_text (backdated (clock / 1000)))) (
            member "validBefore" (str (to_string (clock / 1000 + requirements.max_timeout_seconds)))
              (member "nonce" (str nonce) end))))))

-- The payment around it.
unfoldable pub payment_with :
    PaymentRequirements → (authorization : Json) (signature : String) → Json
payment_with requirements authorization signature = obj (
    member "x402Version" (num "1") (
      member "scheme" (str requirements.scheme) (
        member "network" (str requirements.network)
          (member "authorization" authorization (member "signature" (str signature) end)))))

-- `signAuthorization`
unfoldable pub sign_authorization :
    Account → PaymentRequirements → (clock : ℕ) (nonce : String) → Throws Json
unfolding authorization_for payment_with
sign_authorization account requirements clock nonce = do
  let authorization = authorization_for account requirements clock nonce
  domain ← eip712_domain requirements.network
  message ← to_typed_message authorization
  ok (payment_with requirements authorization (account.sign_typed_data domain message))

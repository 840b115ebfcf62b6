-- ===== src/Simulator/Fraud/Laws.antt =====
-- What the attacks of the simulator run into.
use mathlib.Core.List.{Memᴰ}
use agentic_attribution.Prelude.{
  ℕ, String, true, false, none, some, List, ok, ◌≡◌, ◌≢◌, refl, sym, arith, str_eq, eq_iff,
}
use agentic_attribution.Prelude.{
  VerificationFailure, malformed_signature, invalid_signature, expired as stale,
}
use agentic_attribution.Js.Json.{str, num, property, value_text}
use agentic_attribution.Js.Decimal.{to_string}
use agentic_attribution.Js.Integer.{ℤ, ◌≤ℤ◌}
use agentic_attribution.Platform.{Platform}
use agentic_attribution.Types.Assertion.{UnsignedAssertion, unsigned, verify_assertion}
use agentic_attribution.Types.Assertion.Laws.{verify_assertion_sound}
use agentic_attribution.Types.Assertion.Tampering.{IsUnforgeable, verify_assertion-issued}
use agentic_attribution.Gateway.Handler.{failure_text}
use agentic_attribution.Simulator.Agent.{AttributionAssertion}
use agentic_attribution.Simulator.Fraud.{
  FraudMode, tampered_publisher, tampered_commission, expired, forged_signature, unknown_publisher,
  expected_rejection, attacker_publisher, inflated_commission_bps, forged_body, apply_fraud, wire,
  pick_fraud_mode, element,
}

module _ {Key : Type 0} (platform : Platform Key) where
  open platform use {atob, date_parse, verify_ed25519}

  -- What the attacks rest on: nothing was issued to the attacker or at the inflated rate, the key
  -- does not accept the invented signature, and two hours ago has passed.
  pub record IsSound (key : Key) (issued : List UnsignedAssertion) (hours_ago : ℕ → String)
      (now : ℤ) : Type 0 where
    pub no_attacker :
        (u : UnsignedAssertion) → Memᴰ u issued → u.publisher_id ≢ some (str attacker_publisher)
    pub no_inflated :
        (u : UnsignedAssertion)
        → Memᴰ u issued
        → u.commission_bps ≢ some (num (to_string inflated_commission_bps))
    pub no_forgery :
        (bytes payload : List ℕ)
        → atob forged_body ≡ some bytes
        → verify_ed25519 key bytes payload ≢ true
    pub past : ℤ
    pub dated : date_parse (hours_ago 2) ≡ some past
    pub passed : past ≤ℤ now

  -- None of the simulator's five attacks on an assertion verifies.
  pub apply_fraud-refused :
      (key : Key) (issued : List UnsignedAssertion) (hours_ago : ℕ → String) (now : ℤ)
      (a : AttributionAssertion) (mode : FraudMode)
      → IsSound key issued hours_ago now
      → IsUnforgeable platform key issued (wire (apply_fraud hours_ago a mode))
      → verify_assertion platform (wire (apply_fraud hours_ago a mode)) key now ≢ ok tt
  unfolding apply_fraud wire unsigned property value_text
  apply_fraud-refused key issued hours_ago now a tampered_publisher s u h =
      s.no_attacker _ (verify_assertion-issued platform key issued _ now u h) refl
  apply_fraud-refused key issued hours_ago now a tampered_commission s u h =
      s.no_inflated _ (verify_assertion-issued platform key issued _ now u h) refl
  apply_fraud-refused key issued hours_ago now a unknown_publisher s u h =
      s.no_attacker _ (verify_assertion-issued platform key issued _ now u h) refl
  apply_fraud-refused key issued hours_ago now a expired s u h =
      let f = (verify_assertion_sound platform _ key now tt h).1 in
      ground (arith, f.dated, f.before, s.dated, s.passed)
  apply_fraud-refused key issued hours_ago now a forged_signature s u h =
      let g = (verify_assertion_sound platform _ key now tt h).0 in
      let t : "ed25519:AAAAAAAAAAAAAAAAAAAAAAAAAAAAAAAAAAAAAAAAAAAAAAAAAAAAAAAAAAAAAAAAAAAAAAAAAAAAAAAAAAAAAA=="
          ≡ g.text =
        ground (arith, g.has_text) in
      s.no_forgery g.bytes _ (rw (sym t) at g.decoded) g.accepted

differ : (s t : String) → str_eq s t ≡ false → s ≢ t
differ s t h e = ground (arith, h, eq_iff s t)

-- The reason that the simulator expects for an attack is none of those that the gateway gives for an
-- assertion that does not verify.
pub expected_rejection-never :
    (mode : FraudMode) (reason : VerificationFailure)
    → failure_text reason ≢ expected_rejection mode
unfolding expected_rejection
expected_rejection-never tampered_publisher malformed_signature = differ _ _ refl
expected_rejection-never tampered_publisher invalid_signature = differ _ _ refl
expected_rejection-never tampered_publisher stale = differ _ _ refl
expected_rejection-never tampered_commission malformed_signature = differ _ _ refl
expected_rejection-never tampered_commission invalid_signature = differ _ _ refl
expected_rejection-never tampered_commission stale = differ _ _ refl
expected_rejection-never expired malformed_signature = differ _ _ refl
expected_rejection-never expired invalid_signature = differ _ _ refl
expected_rejection-never expired stale = differ _ _ refl
expected_rejection-never forged_signature malformed_signature = differ _ _ refl
expected_rejection-never forged_signature invalid_signature = differ _ _ refl
expected_rejection-never forged_signature stale = differ _ _ refl
expected_rejection-never unknown_publisher malformed_signature = differ _ _ refl
expected_rejection-never unknown_publisher invalid_signature = differ _ _ refl
expected_rejection-never unknown_publisher stale = differ _ _ refl

-- Whatever is drawn, some mode is picked.
pick_fraud_mode-some : (draw : ℕ → ℕ) → pick_fraud_mode draw ≢ none
unfolding pick_fraud_mode element
pick_fraud_mode-some draw h = ground arith

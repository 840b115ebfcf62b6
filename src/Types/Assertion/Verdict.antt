-- ===== src/Types/Assertion/Verdict.antt =====
-- An assertion whose signature is a text is always judged: it verifies, or the failure has a reason.
use Prim.Native.String.{len, slice}
use text.Mathlib.Text.{starts_with}
use agentic_attribution.Prelude.{
  ℕ, String, some, List, Throws, ok, throw, ◌≡◌, ◌⊎◌, inl, inr, refl, VerificationFailure,
  assertion_verification_error, ◌>>=◌, length, ◌==◌, Option-cases, Bool-cases,
}
use agentic_attribution.Js.Json.{Json, str, property, value_text}
use agentic_attribution.Js.Integer.{ℤ, ltb_ℤ}
use agentic_attribution.Platform.{Platform}
use agentic_attribution.Types.Assertion.{
  signature_prefix, ed25519_signature_bytes, unsigned, canonicalize_for_signing, signature_text,
  signature_bytes, check_signature, check_expiry, verify_assertion,
}
use agentic_attribution.Types.Assertion.Laws.{read-eq-ok}

-- The computation returns, or throws an `AssertionVerificationError`.
abbrev pub Judges {ℓ} : {A : Type ℓ} → Throws A → Type ℓ
Judges {A} m =
    ((a : A) × (m ≡ ok a))
    ⊎ ((reason : VerificationFailure) × (detail : String) × (m
          ≡ throw (assertion_verification_error reason detail)))

>>=-Judges :
    {A B : Type 0} (m : Throws A) (k : A → Throws B)
    → Judges m
    → ((a : A) → Judges (k a))
    → Judges (m >>= k)
>>=-Judges m k (inl (a, p)) j = rw p (j a)
>>=-Judges m k (inr (reason, detail, p)) j = inr (reason, detail, rw p refl)

module _ {Key : Type 0} (platform : Platform Key) where
  open platform use {atob, date_parse, verify_ed25519, utf8}

  signature_bytes-Judges : (s : String) → Judges (signature_bytes platform s)
  unfolding signature_bytes
  signature_bytes-Judges s = elim (Bool-cases (starts_with s signature_prefix)) [
    | inr p ↦ rw p (inr (_, _, refl))
    | inl p ↦ elim (Option-cases (atob (slice s (len signature_prefix) (len s)))) [
      | inl q ↦ rw (p, q) (inr (_, _, refl))
      | inr (bytes, q) ↦ elim (Bool-cases (length bytes == ed25519_signature_bytes)) [
        | inl r ↦ rw (p, q, r) (inl (bytes, refl))
        | inr r ↦ rw (p, q, r) (inr (_, _, refl))
      ]
    ]
  ]

  check_signature-Judges :
      (key : Key) (assertion : Json) (bytes : List ℕ)
      → Judges (check_signature platform key assertion bytes)
  unfolding check_signature
  check_signature-Judges key assertion bytes =
      elim (Bool-cases (
        verify_ed25519 key bytes (utf8 (canonicalize_for_signing platform (unsigned assertion))))) [
          | inl p ↦ rw p (inl (_, refl))
          | inr p ↦ rw p (inr (_, _, refl))
        ]

  check_expiry-Judges : (assertion : Json) (now : ℤ) → Judges (check_expiry platform assertion now)
  unfolding check_expiry
  check_expiry-Judges assertion now =
      elim (Option-cases (date_parse (value_text (property assertion "expires_at")))) [
        | inl p ↦ rw (p, check_expiry) (inr (_, _, refl))
        | inr (t, p) ↦ elim (Bool-cases (ltb_ℤ now t)) [
          | inl q ↦ rw (p, check_expiry, q) (inl (_, refl))
          | inr q ↦ rw (p, check_expiry, q) (inr (_, _, refl))
        ]
      ]

  pub verify_assertion-Judges :
      (assertion : Json) (key : Key) (now : ℤ) (s : String)
      → property assertion "signature" ≡ some (str s)
      → Judges (verify_assertion platform assertion key now)
  unfolding verify_assertion signature_text
  verify_assertion-Judges assertion key now s h =
      rw (read-eq-ok platform assertion "signature" (str s) h) (
        >>=-Judges _ _ (signature_bytes-Judges s) (λ bytes.
          >>=-Judges _ _ (check_signature-Judges key assertion bytes)
            (λ u. check_expiry-Judges assertion now)))

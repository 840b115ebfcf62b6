-- ===== src/Types/Assertion.antt =====
-- packages/types/src/verify.ts and the signing payload of index.ts. An assertion comes out of a
-- header as whatever `JSON.parse` returned, so it is a `Json` here.
pub mod Laws
pub mod Tampering
pub mod Verdict
use Prim.Native.String.{◌++◌, len, slice}
use text.Mathlib.Text.{starts_with}
use agentic_attribution.Prelude.{
  ℕ, String, Bool, true, false, not, Option, none, some, List, [], ◌∷◌, Throws, ok, throw, error,
  type_error, assertion_verification_error, malformed_signature, invalid_signature, expired, ◌==◌,
  length, if◌then◌else◌, ◌>>=◌, ◌>>◌,
}
use agentic_attribution.Js.Json.{
  Json, obj, Members, end, member, as_string, property, read, value_text,
}
use agentic_attribution.Js.Decimal.{to_string}
use agentic_attribution.Js.Text.{trim}
use agentic_attribution.Js.Integer.{ℤ, ltb_ℤ}
use agentic_attribution.Platform.{Platform}

abbrev pub signature_prefix : String
signature_prefix = "ed25519:"

abbrev pub ed25519_public_key_bytes : ℕ
ed25519_public_key_bytes = 32

abbrev pub ed25519_signature_bytes : ℕ
ed25519_signature_bytes = 64

-- `UnsignedAssertion`: the fields that are signed, each `none` where the object has none.
pub record UnsignedAssertion : Type 0 where
  pub assertion_id : Option Json
  pub publisher_id : Option Json
  pub product_id : Option Json
  pub search_request_id : Option Json
  pub issued_at : Option Json
  pub expires_at : Option Json
  pub commission_bps : Option Json

unfoldable pub unsigned : Json → UnsignedAssertion
unsigned assertion = record {
  assertion_id = property assertion "assertion_id";
  publisher_id = property assertion "publisher_id";
  product_id = property assertion "product_id";
  search_request_id = property assertion "search_request_id";
  issued_at = property assertion "issued_at";
  expires_at = property assertion "expires_at";
  commission_bps = property assertion "commission_bps";
}

-- `JSON.stringify` leaves out a key whose value is undefined.
abbrev present : String → Option Json → Members → Members
present key none rest = rest
present key (some v) rest = member key v rest

-- The object that is signed, its keys in a fixed order.
unfoldable pub ordered : UnsignedAssertion → Json
ordered a = obj (
    present "assertion_id" a.assertion_id (
      present "publisher_id" a.publisher_id (
        present "product_id" a.product_id (
          present "search_request_id" a.search_request_id (
            present "issued_at" a.issued_at (
              present "expires_at" a.expires_at
                (present "commission_bps" a.commission_bps end)))))))

-- `assertion.signature.startsWith(…)`: what is not a text has no `startsWith`.
signature_text : Option Json → Throws String
signature_text v = elim (as_string v) [
  | none ↦ throw (type_error "assertion.signature.startsWith is not a function")
  | some s ↦ ok s
]

module _ {Key : Type 0} (platform : Platform Key) where
  open platform use {atob, utf8, stringify, date_parse, import_key, verify_ed25519}

  -- `base64ToBytes`: a byte for each character that `atob` returns.
  base64_to_bytes : String → Throws (List ℕ)
  base64_to_bytes encoded = elim (atob encoded) [
    | none ↦ throw (error "The string to be decoded is not correctly encoded.")
    | some bytes ↦ ok bytes
  ]

  import_raw : List ℕ → Throws Key
  import_raw raw =
      if length raw == ed25519_public_key_bytes
      then import_key raw
      else throw (error ("public key holds " ++ to_string (length raw) ++ " bytes, expected 32"))

  unfoldable pub import_verification_key : String → Throws Key
  unfolding base64_to_bytes import_raw
  import_verification_key base64_key = do raw ← base64_to_bytes (trim base64_key); import_raw raw

  unfoldable pub canonicalize_for_signing : UnsignedAssertion → String
  canonicalize_for_signing a = stringify (ordered a)

  check_expiry : Json → ℤ → Throws (Unit {0})
  check_expiry assertion now = elim (date_parse (value_text (property assertion "expires_at"))) [
    | none ↦ throw (
        assertion_verification_error malformed_signature (
          "expires_at is not a parseable timestamp: "
          ++ value_text (property assertion "expires_at")))
    | some expires ↦
        if ltb_ℤ now expires
        then ok tt
        else throw (
            assertion_verification_error expired
              ("assertion expired at " ++ value_text (property assertion "expires_at")))
  ]

  check_signature : Key → Json → List ℕ → Throws (Unit {0})
  unfolding canonicalize_for_signing
  check_signature key assertion signature =
      if verify_ed25519 key signature (utf8 (canonicalize_for_signing (unsigned assertion)))
      then ok tt
      else throw (
          assertion_verification_error invalid_signature
            "signature does not verify against the public key")

  -- The bytes behind the prefix.
  signature_bytes : String → Throws (List ℕ)
  signature_bytes text =
      if not (starts_with text signature_prefix)
      then throw
          (assertion_verification_error malformed_signature "signature missing the ed25519: prefix")
      else elim (atob (slice text (len signature_prefix) (len text))) [
        | none ↦
            throw (assertion_verification_error malformed_signature "signature is not valid base64")
        | some bytes ↦
            if length bytes == ed25519_signature_bytes
            then ok bytes
            else throw (
                assertion_verification_error malformed_signature
                  ("signature holds " ++ to_string (length bytes) ++ " bytes, expected 64"))
      ]

  unfoldable pub verify_assertion : Json → Key → ℤ → Throws (Unit {0})
  unfolding signature_text signature_bytes check_signature check_expiry
  verify_assertion assertion key now = do
    value ← read (some assertion) "signature"
    text ← signature_text value
    signature ← signature_bytes text
    check_signature key assertion signature
    check_expiry assertion now

  -- `isExpired`: a date that does not parse is NaN, which is at most no number.
  unfoldable pub is_expired : Option Json → ℤ → Bool
  is_expired expires_at now = elim (date_parse (value_text expires_at)) [
    | none ↦ false
    | some expires ↦ not (ltb_ℤ now expires)
  ]

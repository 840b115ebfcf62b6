-- ===== src/Types/Assertion/Laws.antt =====
-- When an assertion verifies, and what each refusal means.
use Prim.Native.String.{len, slice}
use text.Mathlib.Text.{starts_with}
use agentic_attribution.Prelude.{
  ℕ, String, true, Option, none, some, List, ok, throw, ◌≡◌, ◌↔◌, inl, inr, refl, arith,
  assertion_verification_error, expired, length, Option-cases, >>=-eq-ok, ◌∙◌, ◌≢◌, Exception,
  >>=-eq-throw, type_error,
}
use agentic_attribution.Js.Json.{
  Json, str, null, bool, num, arr, obj, as_string, property, read, value_text,
}
use agentic_attribution.Js.Json.Laws.{as_string-eq-some}
use agentic_attribution.Js.Integer.{ℤ, ◌<ℤ◌, ◌≤ℤ◌}
use agentic_attribution.Platform.{Platform}
use agentic_attribution.Types.Assertion.{
  signature_prefix, unsigned, canonicalize_for_signing, signature_text, signature_bytes,
  check_signature, check_expiry, verify_assertion,
}

module _ {Key : Type 0} (platform : Platform Key) where
  open platform use {atob, utf8, date_parse, verify_ed25519}

  -- The assertion carries a signature of 64 bytes that the key accepts for the signed fields.
  pub record IsSigned (key : Key) (assertion : Json) : Type 0 where
    pub text : String
    pub has_text : property assertion "signature" ≡ some (str text)
    pub prefixed : starts_with text signature_prefix ≡ true
    pub bytes : List ℕ
    pub decoded : atob (slice text (len signature_prefix) (len text)) ≡ some bytes
    pub sized : length bytes ≡ 64
    pub accepted :
        verify_ed25519 key bytes (utf8 (canonicalize_for_signing platform (unsigned assertion)))
        ≡ true

  -- Its deadline is a date, and has not come.
  pub record IsFresh (assertion : Json) (now : ℤ) : Type 0 where
    pub expires : ℤ
    pub dated : date_parse (value_text (property assertion "expires_at")) ≡ some expires
    pub before : now <ℤ expires

  read-property :
      (v : Json) (key : String) (w : Option Json) → read (some v) key ≡ ok w → property v key ≡ w
  unfolding read
  read-property null key w h = ground arith
  read-property (bool b) key w h = ground arith
  read-property (num n) key w h = ground arith
  read-property (str s) key w h = ground arith
  read-property (arr i) key w h = ground arith
  read-property (obj m) key w h = ground arith

  signature_text-eq-ok : (v : Option Json) (s : String) → signature_text v ≡ ok s → v ≡ some (str s)
  unfolding signature_text
  signature_text-eq-ok v s h = as_string-eq-some v s (ground arith)

  signature_bytes-eq-ok :
      (text : String) (bytes : List ℕ)
      → signature_bytes platform text ≡ ok bytes
      → (starts_with text signature_prefix ≡ true)
        × (atob (slice text (len signature_prefix) (len text)) ≡ some bytes)
        × (length bytes ≡ 64)
  unfolding signature_bytes
  signature_bytes-eq-ok text bytes h = ground arith

  check_signature-eq-ok :
      (key : Key) (assertion : Json) (bytes : List ℕ) (u : Unit {0})
      → check_signature platform key assertion bytes ≡ ok u
      → verify_ed25519 key bytes (utf8 (canonicalize_for_signing platform (unsigned assertion)))
        ≡ true
  unfolding check_signature
  check_signature-eq-ok key assertion bytes u h = ground arith

  check_expiry-eq-ok :
      (assertion : Json) (now : ℤ) (u : Unit {0})
      → check_expiry platform assertion now ≡ ok u
      → IsFresh assertion now
  unfolding check_expiry
  check_expiry-eq-ok assertion now u h =
      elim (Option-cases (date_parse (value_text (property assertion "expires_at")))) [
        | inl bad ↦ ground arith
        | inr (t, e) ↦ record { expires = t; dated = e; before = ground arith }
      ]

  parts-IsSigned :
      (assertion : Json) (key : Key) (v : Option Json) (s : String) (bytes : List ℕ) (w : Unit {0})
      → read (some assertion) "signature" ≡ ok v
      → signature_text v ≡ ok s
      → signature_bytes platform s ≡ ok bytes
      → check_signature platform key assertion bytes ≡ ok w
      → IsSigned key assertion
  parts-IsSigned assertion key v s bytes w p q r a =
      let (x, y, z) = signature_bytes-eq-ok s bytes r in
      record {
        text = s;
        has_text = read-property assertion "signature" v p ∙ signature_text-eq-ok v s q;
        prefixed = x;
        bytes = bytes;
        decoded = y;
        sized = z;
        accepted = check_signature-eq-ok key assertion bytes w a;
      }

  pub verify_assertion_sound :
      (assertion : Json) (key : Key) (now : ℤ) (u : Unit {0})
      → verify_assertion platform assertion key now ≡ ok u
      → IsSigned key assertion × IsFresh assertion now
  unfolding verify_assertion
  verify_assertion_sound assertion key now u h =
      let (v, p, h₁) = >>=-eq-ok (read (some assertion) "signature") _ h in
      let (s, q, h₂) = >>=-eq-ok (signature_text v) _ h₁ in
      let (bytes, r, h₃) = >>=-eq-ok (signature_bytes platform s) _ h₂ in
      let (w, a, h₄) = >>=-eq-ok (check_signature platform key assertion bytes) _ h₃ in
      (parts-IsSigned assertion key v s bytes w p q r a, check_expiry-eq-ok assertion now u h₄)

  pub read-eq-ok :
      (v : Json) (key : String) (w : Json)
      → property v key ≡ some w
      → read (some v) key ≡ ok (some w)
  unfolding read property
  read-eq-ok (obj m) key w h = ground arith
  read-eq-ok null key w h = ground arith
  read-eq-ok (bool b) key w h = ground arith
  read-eq-ok (num n) key w h = ground arith
  read-eq-ok (str s) key w h = ground arith
  read-eq-ok (arr i) key w h = ground arith

  -- Behind a good signature only the deadline is left to check.
  verify_assertion-of_IsSigned :
      (assertion : Json) (key : Key) (now : ℤ)
      → IsSigned key assertion
      → verify_assertion platform assertion key now ≡ check_expiry platform assertion now
  unfolding verify_assertion
  verify_assertion-of_IsSigned assertion key now g = rw (
    read-eq-ok assertion "signature" (str g.text) g.has_text,
    g.prefixed,
    g.decoded,
    g.sized,
    g.accepted,
  )

  IsFresh-check_expiry :
      (assertion : Json) (now : ℤ)
      → IsFresh assertion now
      → check_expiry platform assertion now ≡ ok tt
  unfolding check_expiry
  IsFresh-check_expiry assertion now f = ground (arith, f.dated, f.before)

  -- An assertion verifies exactly when it carries a prefixed signature of 64 bytes that the key
  -- accepts for its signed fields, and its deadline parses as a date that has not come.
  pub verify_assertion-eq-ok_iff :
      (assertion : Json) (key : Key) (now : ℤ)
      → (verify_assertion platform assertion key now ≡ ok tt)
        ↔ (IsSigned key assertion × IsFresh assertion now)
  verify_assertion-eq-ok_iff assertion key now = (
    verify_assertion_sound assertion key now tt,
    λ g.
        verify_assertion-of_IsSigned assertion key now g.0 ∙ IsFresh-check_expiry assertion now g.1,
  )

  -- The deadline of the assertion is a date that has come.
  pub record IsPast (assertion : Json) (now : ℤ) : Type 0 where
    pub expires : ℤ
    pub dated : date_parse (value_text (property assertion "expires_at")) ≡ some expires
    pub after : expires ≤ℤ now

  check_expiry-expired :
      (assertion : Json) (now : ℤ) (m : String)
      → check_expiry platform assertion now ≡ throw (assertion_verification_error expired m)
      → IsPast assertion now
  unfolding check_expiry
  check_expiry-expired assertion now m h =
      elim (Option-cases (date_parse (value_text (property assertion "expires_at")))) [
        | inl bad ↦ ground arith
        | inr (t, e) ↦ record { expires = t; dated = e; after = ground arith }
      ]

  -- An exception that is not the verdict `expired`.
  abbrev IsOther : Exception → Type 0
  IsOther e = (m : String) → e ≢ assertion_verification_error expired m

  read-IsOther : (v : Json) (k : String) (e : Exception) → read (some v) k ≡ throw e → IsOther e
  unfolding read
  read-IsOther null k e h m = cc
  read-IsOther (bool b) k e h m = cc
  read-IsOther (num n) k e h m = cc
  read-IsOther (str s) k e h m = cc
  read-IsOther (arr i) k e h m = cc
  read-IsOther (obj o) k e h m = cc

  signature_text-IsOther :
      (v : Option Json) (e : Exception) → signature_text v ≡ throw e → IsOther e
  unfolding signature_text
  signature_text-IsOther v e h m = ground arith

  signature_bytes-IsOther :
      (text : String) (e : Exception) → signature_bytes platform text ≡ throw e → IsOther e
  unfolding signature_bytes
  signature_bytes-IsOther text e h m = ground arith

  check_signature-IsOther :
      (key : Key) (assertion : Json) (bytes : List ℕ) (e : Exception)
      → check_signature platform key assertion bytes ≡ throw e
      → IsOther e
  unfolding check_signature
  check_signature-IsOther key assertion bytes e h m = ground arith

  -- The verdict `expired` is only ever given behind a good signature and for a deadline that parses
  -- and has come: nobody can move the deadline of an assertion and be told that it expired.
  pub verify_assertion-expired :
      (assertion : Json) (key : Key) (now : ℤ) (m : String)
      → verify_assertion platform assertion key now ≡ throw (assertion_verification_error expired m)
      → IsSigned key assertion × IsPast assertion now
  unfolding verify_assertion
  verify_assertion-expired assertion key now m h =
      elim (>>=-eq-throw (read (some assertion) "signature") _ h) [
        | inl t ↦ absurd (read-IsOther assertion "signature" _ t m refl)
        | inr (v, p, h₁) ↦ elim (>>=-eq-throw (signature_text v) _ h₁) [
          | inl t ↦ absurd (signature_text-IsOther v _ t m refl)
          | inr (s, q, h₂) ↦ elim (>>=-eq-throw (signature_bytes platform s) _ h₂) [
            | inl t ↦ absurd (signature_bytes-IsOther s _ t m refl)
            | inr (bytes, r, h₃) ↦
                elim (>>=-eq-throw (check_signature platform key assertion bytes) _ h₃) [
                  | inl t ↦ absurd (check_signature-IsOther key assertion bytes _ t m refl)
                  | inr (w, a, h₄) ↦ (
                    parts-IsSigned assertion key v s bytes w p q r a,
                    check_expiry-expired assertion now m h₄,
                  )
                ]
          ]
        ]
      ]

  -- An assertion whose signature is not a text, an empty object for one, is not refused: reading its
  -- signature throws a TypeError.
  pub verify_assertion-unsigned :
      (assertion : Json) (key : Key) (now : ℤ)
      → as_string (property assertion "signature") ≡ none
      → (m : String) × (verify_assertion platform assertion key now ≡ throw (type_error m))
  unfolding verify_assertion read property
  verify_assertion-unsigned null key now h = (_, refl)
  verify_assertion-unsigned (bool b) key now h = (_, refl)
  verify_assertion-unsigned (num n) key now h = (_, refl)
  verify_assertion-unsigned (str s) key now h = (_, refl)
  verify_assertion-unsigned (arr i) key now h = (_, refl)
  verify_assertion-unsigned (obj m) key now h =
      ("assertion.signature.startsWith is not a function", ground arith)

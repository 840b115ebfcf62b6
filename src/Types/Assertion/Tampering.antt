-- ===== src/Types/Assertion/Tampering.antt =====
-- Changing a signed field of an assertion: the signed object determines every signed field, so an
-- assertion that verifies has the signed fields of one that the platform signed.
use mathlib.Core.List.{Memᴰ}
use agentic_attribution.Prelude.{
  ℕ, String, true, false, Option, none, some, List, ok, ◌≡◌, refl, sym, ap, arith, str_eq, eq_iff,
  ◌∙◌,
}
use agentic_attribution.Js.Json.{Json, Members, find_member, property}
use agentic_attribution.Js.Integer.{ℤ}
use agentic_attribution.Platform.{Platform}
use agentic_attribution.Types.Assertion.{
  present, UnsignedAssertion, unsigned, ordered, canonicalize_for_signing, verify_assertion,
}
use agentic_attribution.Types.Assertion.Laws.{verify_assertion_sound}

find-present_self :
    (key : String) (v : Option Json) (rest : Members)
    → find_member key rest ≡ none
    → find_member key (present key v rest) ≡ v
unfolding find_member
find-present_self key none rest h = h
find-present_self key (some v) rest h = ground (arith, eq_iff key key)

find-present_other :
    (k key : String) (v : Option Json) (rest : Members)
    → str_eq k key ≡ false
    → find_member key (present k v rest) ≡ find_member key rest
unfolding find_member
find-present_other k key none rest h = refl
find-present_other k key (some v) rest h = rw h

-- The signed object has each signed field under its own name.
unsigned-ordered : (a : UnsignedAssertion) → unsigned (ordered a) ≡ a
unfolding unsigned ordered property find_member
unsigned-ordered a = ground arith

module _ {Key : Type 0} (platform : Platform Key) where
  open platform use {utf8, verify_ed25519}

  abbrev signing_payload : UnsignedAssertion → List ℕ
  signing_payload a = utf8 (canonicalize_for_signing platform a)

  -- What the signature scheme and the encoding promise: the key accepts only payloads of assertions
  -- that were issued, and the bytes of `assertion`'s signed object are those of no other object that
  -- was signed.
  pub record IsUnforgeable (key : Key) (issued : List UnsignedAssertion) (assertion : Json)
      : Type 0 where
    pub signed_only :
        (signature payload : List ℕ)
        → verify_ed25519 key signature payload ≡ true
        → (a : UnsignedAssertion) × Memᴰ a issued × (payload ≡ signing_payload a)
    pub distinct :
        (a : UnsignedAssertion)
        → Memᴰ a issued
        → signing_payload (unsigned assertion) ≡ signing_payload a
        → ordered (unsigned assertion) ≡ ordered a

  -- With a key that accepts only what was issued, an assertion that verifies has all seven signed
  -- fields of an assertion that was issued: changing any of them makes verification fail.
  pub verify_assertion-issued :
      (key : Key) (issued : List UnsignedAssertion) (assertion : Json) (now : ℤ)
      → IsUnforgeable key issued assertion
      → verify_assertion platform assertion key now ≡ ok tt
      → Memᴰ (unsigned assertion) issued
  verify_assertion-issued key issued assertion now u h =
      let g = (verify_assertion_sound platform assertion key now tt h).0 in
      let (a, m, p) = u.signed_only g.bytes _ g.accepted in
      let e = u.distinct a m p in
      let q = sym (unsigned-ordered (unsigned assertion)) ∙ ap unsigned e ∙ unsigned-ordered a in
      rw q m

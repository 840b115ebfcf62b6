-- ===== src/Tests/Edge.antt =====
-- A platform on which a header is its own text, and one genuine assertion.
use agentic_attribution.Prelude.{
  ℕ, String, Bool, true, false, Option, none, some, ok, List, [], ◌∷◌, ◌==◌, ◌&&◌, ◌≡◌, refl, arith,
  str_eq, if◌then◌else◌,
}
use agentic_attribution.Js.Json.{Json, num, str, obj, end, member}
use agentic_attribution.Js.Decimal.{codes}
use agentic_attribution.Js.Integer.{pos}
use agentic_attribution.Platform.{Platform}
use agentic_attribution.Tests.Fixtures.{payload_with, authorization_with, settle_body}

abbrev pub public_key : String
public_key = "0123456789abcdef0123456789abcdef"

abbrev pub assertion : Json
assertion = obj (
    member "assertion_id" (str "a1") (
      member "publisher_id" (str "pub_000001") (
        member "product_id" (str "p1") (
          member "expires_at" (str "later") (
            member "commission_bps" (num "500") (
              member "signature"
                (str "ed25519:0123456789abcdef0123456789abcdef0123456789abcdef0123456789abcdef")
                end))))))

-- The texts that the fixtures send, each standing for a value.
abbrev values : String → Option Json
values s =
    if str_eq s "A"
    then some assertion
    else if str_eq s "E"
    then some (obj end)
    else if str_eq s "P"
    then some (payload_with (authorization_with "0xab"))
    else if str_eq s "S"
    then some (settle_body "0xab")
    else if str_eq s "B"
    then some (obj (member "product_id" (str "p1") end))
    else none

abbrev letter : List ℕ → String
letter [] = ""
letter (c ∷ rest) =
    if c == b'A'
    then "A"
    else if c == b'E'
    then "E"
    else if c == b'P'
    then "P"
    else if c == b'S'
    then "S"
    else "B"

abbrev pub same_bytes : List ℕ → List ℕ → Bool
same_bytes [] [] = true
same_bytes (b ∷ bs) (c ∷ cs) = b == c && same_bytes bs cs
same_bytes [] (c ∷ cs) = false
same_bytes (b ∷ bs) [] = false

pub same_bytes-eq : (bs cs : List ℕ) → same_bytes bs cs ≡ true → bs ≡ cs
same_bytes-eq [] [] h = refl
same_bytes-eq (b ∷ bs) (c ∷ cs) h = ground (arith, same_bytes-eq bs cs)
same_bytes-eq [] (c ∷ cs) h = ground arith
same_bytes-eq (b ∷ bs) [] h = ground arith

abbrev pub platform : Platform ℕ
platform = record {
  atob = λ s. some (codes s);
  btoa = λ bytes. "encoded";
  buffer_from_base64 = codes;
  utf8 = codes;
  utf8_text = letter;
  buffer_text = letter;
  number_exceeds = λ s n. false;
  parse_json = values;
  stringify = λ v. "signed";
  date_parse = λ s. if str_eq s "later" then some (pos 5000) else none;
  to_lower_case = λ s. s;
  import_key = λ bytes. ok 7;
  verify_ed25519 = λ key signature payload. key == 7 && same_bytes payload (codes "signed");
}

-- ===== src/System/Network/Laws.antt =====
-- What survives a hop: values, bodies and headers.
use agentic_attribution.Prelude.{
  ℕ, ◌≤◌, String, false, none, some, List, [], ◌∷◌, ◌++◌, ok, ◌≡◌, ◌≢◌, refl, arith, lookup,
  includes, length, ap, str_eq, eq_iff, eq_refl, Bool-cases, inl, inr,
}
use agentic_attribution.Js.Json.{Json}
use agentic_attribution.Js.Stream.{join_chunks}
use agentic_attribution.Js.Stream.Laws.{collect_lem}
use agentic_attribution.Platform.{Platform}
use agentic_attribution.Gateway.Handler.{forwardable_headers, stripped_request_headers}
use agentic_attribution.Gateway.Server.{to_headers}
use agentic_attribution.Merchant.Handler.{Dependencies}
use agentic_attribution.Merchant.X402.{encode_header_json}
use agentic_attribution.Merchant.X402.{decode_header_json as decode_at_merchant}
use agentic_attribution.Gateway.Handler.{decode_header_json as decode_at_gateway}
use agentic_attribution.Merchant.Server.{read_json_body, max_body_bytes}
use agentic_attribution.System.Network.{Hop, as_single}

module _ {Key : Type 0} (platform : Platform Key) where
  open platform use {atob, btoa, utf8, utf8_text, buffer_text, parse_json, stringify}

  -- A value whose JSON text parses to itself and survives UTF-8.
  pub record IsCarried (v : Json) : Type 0 where
    pub parses : parse_json (stringify v) ≡ some v
    pub decodes : utf8_text (utf8 (stringify v)) ≡ stringify v
    pub buffers : buffer_text (utf8 (stringify v)) ≡ stringify v

  -- A value that survives base64 too, as the text of a header that is not empty.
  pub record IsHeader (v : Json) : Type 0 where
    pub carried : IsCarried v
    pub armoured : atob (btoa (utf8 (stringify v))) ≡ some (utf8 (stringify v))
    pub filled : encode_header_json platform v ≢ ""

  pub IsHeader-merchant :
      (v : Json) → IsHeader v → decode_at_merchant platform (encode_header_json platform v) ≡ ok v
  unfolding decode_at_merchant encode_header_json
  IsHeader-merchant v h = ground (arith, h.armoured, h.carried.decodes, h.carried.parses)

  pub IsHeader-gateway :
      (v : Json) → IsHeader v → decode_at_gateway platform (encode_header_json platform v) ≡ some v
  unfolding decode_at_gateway encode_header_json
  IsHeader-gateway v h = ground (arith, h.armoured, h.carried.decodes, h.carried.parses)

-- A hop that cuts bodies without loss.
abbrev pub IsLossless : Hop → Type 0
IsLossless hop = (bytes : List ℕ) → join_chunks (hop.cut bytes) ≡ bytes

pub read_json_body-carried :
    {Key : Type 0} (deps : Dependencies Key) (hop : Hop) (v : Json)
    → IsLossless hop
    → IsCarried deps.platform v
    → length (deps.platform.utf8 (deps.platform.stringify v)) ≤ max_body_bytes
    → read_json_body deps (hop.cut (deps.platform.utf8 (deps.platform.stringify v))) ≡ ok v
unfolding read_json_body
read_json_body-carried deps hop v lossless c small =
    rw
      (
        collect_lem max_body_bytes (hop.cut (deps.platform.utf8 (deps.platform.stringify v))),
        lossless (deps.platform.utf8 (deps.platform.stringify v)),
      )
      (ground (arith, c.buffers, c.parses))

pub to_headers-as_single :
    (headers : List (String × String)) → to_headers (as_single headers) ≡ headers
unfolding to_headers as_single
to_headers-as_single [] = refl
to_headers-as_single ((name, value) ∷ rest) =
    ap (λ r. (name, value) ∷ r) (to_headers-as_single rest)

-- A header that does not belong to the connection is passed on.
pub lookup-forwardable_headers :
    (name : String) (headers : List (String × String))
    → includes stripped_request_headers name ≡ false
    → lookup name (forwardable_headers headers) ≡ lookup name headers
unfolding forwardable_headers lookup
lookup-forwardable_headers name [] kept = refl
lookup-forwardable_headers name ((k, v) ∷ rest) kept = elim (Bool-cases (str_eq k name)) [
  | inl same ↦ let e : k ≡ name = (eq_iff k name).0 same in rw (e, kept, eq_refl name) refl
  | inr other ↦ ground (arith, other, lookup-forwardable_headers name rest kept)
]

pub lookup-append :
    (name : String) (xs ys : List (String × String))
    → lookup name xs ≡ none
    → lookup name (xs ++ ys) ≡ lookup name ys
unfolding lookup
lookup-append name [] ys h = refl
lookup-append name ((k, v) ∷ xs) ys h = ground (arith, lookup-append name xs ys)

pub lookup-append-some :
    (name value : String) (xs ys : List (String × String))
    → lookup name xs ≡ some value
    → lookup name (xs ++ ys) ≡ some value
unfolding lookup
lookup-append-some name value [] ys h = ground arith
lookup-append-some name value ((k, v) ∷ xs) ys h =
    ground (arith, lookup-append-some name value xs ys)

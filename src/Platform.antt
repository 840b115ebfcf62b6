-- ===== src/Platform.antt =====
-- What the services take from their runtime and from third-party packages, as parameters: Web
-- platform functions (`atob`, `TextEncoder`, `crypto.subtle`), the parts of the language whose
-- definition is a table of the Unicode standard or a whole grammar (`toLowerCase`, `JSON`, `Date`),
-- and viem's typed-data check and hash.
use agentic_attribution.Prelude.{ℕ, String, Bool, Option, List, Throws}
use agentic_attribution.Js.Json.{Json}
use agentic_attribution.Js.Integer.{ℤ}

-- `Key` is the type of `CryptoKey` handles.
pub record Platform (Key : Type 0) : Type 0 where
  -- `atob`; `none` where it throws.
  pub atob : String → Option (List ℕ)
  -- `btoa(String.fromCharCode(...bytes))`
  pub btoa : List ℕ → String
  -- `Buffer.from(text, 'base64')`, which throws on no text.
  pub buffer_from_base64 : String → List ℕ
  -- `Buffer.toString('utf8')`, which keeps a byte order mark where `TextDecoder.decode` drops it.
  pub buffer_text : List ℕ → String
  -- `TextEncoder.encode`
  pub utf8 : String → List ℕ
  -- `TextDecoder.decode`
  pub utf8_text : List ℕ → String
  -- `Number(text) > limit`
  pub number_exceeds : String → ℕ → Bool
  -- `JSON.parse`; `none` where it throws.
  pub parse_json : String → Option Json
  -- `JSON.stringify`
  pub stringify : Json → String
  -- `Date.parse`, in milliseconds; `none` is NaN.
  pub date_parse : String → Option ℤ
  -- `toLowerCase`
  pub to_lower_case : String → String
  -- `crypto.subtle.importKey('raw', bytes, Ed25519, false, ['verify'])`
  pub import_key : List ℕ → Throws Key
  -- `crypto.subtle.verify(Ed25519, key, signature, payload)`
  pub verify_ed25519 : Key → List ℕ → List ℕ → Bool

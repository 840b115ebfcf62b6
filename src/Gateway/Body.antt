-- ===== src/Gateway/Body.antt =====
-- gateway/src/handler.ts: `readBoundedText`, the body of a request under a hard ceiling. A stream is
-- the list of the chunks that arrive.
pub mod Laws
use agentic_attribution.Prelude.{
  ℕ, ◌+◌, ◌*◌, String, Bool, false, Option, none, some, List, [], ◌∷◌, ◌++◌, ltb, length,
  if◌then◌else◌,
}
use agentic_attribution.Js.Stream.{collect}

abbrev pub max_body_bytes : ℕ
max_body_bytes = 256 * 1024

-- `exceeds` is `Number(declared) > limit`, for a `Content-Length` of any text; `stream` is none where
-- the request has no body. The result is null where the caller sends too much.
unfoldable pub read_bounded :
    (exceeds : String → ℕ → Bool) (declared : Option String) (stream : Option (List (List ℕ)))
    → Option (List ℕ)
unfolding collect
read_bounded exceeds declared stream =
    if elim declared [ none ↦ false | some length_text ↦ exceeds length_text max_body_bytes ]
    then none
    else elim stream [ none ↦ some [] | some chunks ↦ collect max_body_bytes 0 [] chunks ]

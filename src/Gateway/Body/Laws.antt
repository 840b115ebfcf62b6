-- ===== src/Gateway/Body/Laws.antt =====
-- The ceiling holds whatever the caller declares, and a body within it is read whole.
use agentic_attribution.Prelude.{
  ℕ, ◌≤◌, String, Bool, false, Option, none, some, List, ◌≡◌, arith, length, ltb, Bool-cases, inl,
  inr, if◌then◌else◌,
}
use agentic_attribution.Js.Stream.{join_chunks}
use agentic_attribution.Js.Stream.Laws.{collect_lem}
use agentic_attribution.Gateway.Body.{max_body_bytes, read_bounded}

-- Of a request with a body and no over-long declaration, the whole body is returned if it has at
-- most 256 KiB, and null if it has more, however it is cut into chunks and whatever it declared.
pub read_bounded_lem :
    (exceeds : String → ℕ → Bool) (declared : Option String) (stream : List (List ℕ))
    → elim declared [ none ↦ false | some t ↦ exceeds t max_body_bytes ] ≡ false
    → read_bounded exceeds declared (some stream) ≡ (
        if ltb max_body_bytes (length (join_chunks stream))
        then none
        else some (join_chunks stream))
unfolding read_bounded
read_bounded_lem exceeds declared stream honest = rw honest (collect_lem max_body_bytes stream)

-- Whatever is declared, what is returned is the body whole and has at most 256 KiB.
pub read_bounded_bounds :
    (exceeds : String → ℕ → Bool) (declared : Option String) (stream : List (List ℕ))
    (body : List ℕ)
    → read_bounded exceeds declared (some stream) ≡ some body
    → (body ≡ join_chunks stream) × (length body ≤ max_body_bytes)
unfolding read_bounded
read_bounded_bounds exceeds declared stream body h =
    elim (Bool-cases (elim declared [ none ↦ false | some t ↦ exceeds t max_body_bytes ])) [
      | inl liar ↦ ground arith
      | inr honest ↦ let e = read_bounded_lem exceeds declared stream honest in ground arith
    ]

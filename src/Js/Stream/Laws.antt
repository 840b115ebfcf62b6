-- ===== src/Js/Stream/Laws.antt =====
-- A body within the ceiling is read whole, however it is cut, and a larger one not at all.
use agentic_attribution.Prelude.{
  ℕ, ◌+◌, ◌≤◌, ◌<◌, none, some, List, [], ◌∷◌, ◌++◌, ◌≡◌, arith, length, length-append, ltb,
  Bool-cases, inl, inr, if◌then◌else◌,
}
use mathlib.Core.List.{append_assoc, append-nil}
use agentic_attribution.Js.Stream.{join_chunks, collect}

collect-within :
    (limit total : ℕ) (chunks stream : List (List ℕ))
    → total + length (join_chunks stream) ≤ limit
    → collect limit total chunks stream ≡ some (join_chunks (chunks ++ stream))
unfolding collect join_chunks
collect-within limit total chunks [] h = rw append-nil
collect-within limit total chunks (value ∷ stream) h = ground (
  arith,
  length-append value (join_chunks stream),
  append_assoc chunks (value ∷ []) stream,
  collect-within limit (total + length value) (chunks ++ value ∷ []) stream,
)

collect-beyond :
    (limit total : ℕ) (chunks stream : List (List ℕ))
    → total ≤ limit
    → limit < total + length (join_chunks stream)
    → collect limit total chunks stream ≡ none
unfolding collect join_chunks
collect-beyond limit total chunks [] t h = absurd (omega arith)
collect-beyond limit total chunks (value ∷ stream) t h = ground (
  arith,
  length-append value (join_chunks stream),
  collect-beyond limit (total + length value) (chunks ++ value ∷ []) stream,
)

pub collect_lem :
    (limit : ℕ) (stream : List (List ℕ))
    → collect limit 0 [] stream
      ≡ (if ltb limit (length (join_chunks stream)) then none else some (join_chunks stream))
collect_lem limit stream = elim (Bool-cases (ltb limit (length (join_chunks stream)))) [
  | inl beyond ↦ rw (beyond, collect-beyond limit 0 [] stream (omega arith) (ground arith))
  | inr within ↦ rw (within, collect-within limit 0 [] stream (ground arith))
]

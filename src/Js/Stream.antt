-- ===== src/Js/Stream.antt =====
-- The loop by which each server reads a body: chunks as they arrive, counted against a ceiling.
pub mod Laws
use agentic_attribution.Prelude.{
  ℕ, ◌+◌, Option, none, some, List, [], ◌∷◌, ◌++◌, length, ltb, if◌then◌else◌,
}

-- The bytes of all chunks, in order.
unfoldable pub join_chunks : List (List ℕ) → List ℕ
join_chunks [] = []
join_chunks (chunk ∷ chunks) = chunk ++ join_chunks chunks

-- Each chunk is counted, and kept only if the total stays within the ceiling; none at the first that
-- goes beyond it.
unfoldable pub collect : (limit total : ℕ) (chunks stream : List (List ℕ)) → Option (List ℕ)
unfolding join_chunks
collect limit total chunks [] = some (join_chunks chunks)
collect limit total chunks (value ∷ stream) =
    let rest = collect limit (total + length value) (chunks ++ value ∷ []) stream in
    if ltb limit (total + length value) then none else rest

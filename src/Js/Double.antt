-- ===== src/Js/Double.antt =====
-- JavaScript numbers that are not negative: IEEE 754 doubles, rounded to the nearest with ties to the
-- even one. `%` and `/` of the model are exact; what the language computes is rounded once. There is
-- no infinity: what a double cannot hold, from about 2 ^ 1024 on, is rounded in wider steps.
pub mod Laws
use agentic_attribution.Prelude.{
  ℕ, zero, suc, ◌+◌, ◌*◌, ◌/◌, ◌%◌, ◌-◌, Bool, ◌==◌, ltb, if◌then◌else◌,
}

-- 2 ^ 53: a significand is below it.
abbrev pub precision : ℕ
precision = 9007199254740992

-- Whether `q` is rounded up, where `r / d` is left over.
abbrev rounds_up : (q r d : ℕ) → Bool
rounds_up q r d = if 2 * r == d then q % 2 == 1 else ltb d (2 * r)

-- `n / d` to the nearest integer.
unfoldable pub nearest : (n d : ℕ) → ℕ
nearest n d = let q = n / d in if rounds_up q (n % d) d then q + 1 else q

-- The least power of two from `unit` on in steps of which `n / d` has a significand.
coarsest : (fuel unit n d : ℕ) → ℕ
coarsest zero unit n d = unit
coarsest (suc fuel) unit n d =
    let rest = coarsest fuel (2 * unit) n d in if ltb n (precision * d * unit) then unit else rest

-- The greatest power of two from `parts` on into which one can be cut so that `n / d` still has a
-- significand in those parts.
finest : (fuel parts n d : ℕ) → ℕ
finest zero parts n d = parts
finest (suc fuel) parts n d =
    let rest = finest fuel (2 * parts) n d in
    if ltb (n * (2 * parts)) (precision * d) then rest else parts

-- The double of a natural number. The exponents of a double end at 1023, so the fuel is enough for
-- every number that has one.
unfoldable pub rounded : ℕ → ℕ
unfolding nearest coarsest
rounded n = let unit = coarsest 1024 1 n 1 in nearest n unit * unit

floor_within : (fine coarse n d : ℕ) → ℕ
unfolding nearest coarsest finest
floor_within fine coarse n d =
    if ltb n (precision * d)
    then (let parts = finest fine 1 n d in nearest (n * parts) d / parts)
    else (let unit = coarsest coarse 1 n d in nearest n (d * unit) * unit)

-- `Math.floor(n / d)`. The least positive double is a part of 2 ^ 1074.
unfoldable pub floor_divided : (n d : ℕ) → ℕ
unfolding floor_within
floor_divided n d = floor_within 1074 1024 n d

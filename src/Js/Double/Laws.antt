-- ===== src/Js/Double/Laws.antt =====
-- Where the rounding of a double changes nothing.
use agentic_attribution.Prelude.{
  ℕ, zero, suc, ◌+◌, ◌*◌, ◌/◌, ◌%◌, ◌≤◌, ◌<◌, ◌≡◌, true, false, ltb, arith, inl, inr, Bool-cases,
}
use agentic_attribution.Js.Double.{
  precision, nearest, coarsest, finest, rounded, floor_within, floor_divided,
}

nearest-bounds : (n : ℕ) → (n / 10000 ≤ nearest n 10000) × (nearest n 10000 * 10000 ≤ n + 5000)
unfolding nearest
nearest-bounds n = ground arith

nearest-one : (n : ℕ) → nearest n 1 ≡ n
unfolding nearest
nearest-one n = ground arith

coarsest-fits : (fuel unit n d : ℕ) → n < precision * d * unit → coarsest (suc fuel) unit n d ≡ unit
unfolding coarsest
coarsest-fits fuel unit n d h = ground arith

-- A natural number below 2 ^ 53 is a double.
pub rounded_lem : (n : ℕ) → n < precision → rounded n ≡ n
unfolding rounded
rounded_lem n h = rw (coarsest-fits 1023 1 n 1 (omega arith), nearest-one n) (omega arith)

abbrev doublings : (fuel parts : ℕ) → ℕ
doublings zero parts = parts
doublings (suc fuel) parts = doublings fuel (2 * parts)

scaled-le : (n p k : ℕ) → p ≤ k → n * (2 * p) ≤ n * (2 * k)
scaled-le n p k h = grind arith

few_parts-fit : (n parts : ℕ) → n < precision → parts ≤ 5000 → n * (2 * parts) < precision * 10000
few_parts-fit n parts h few = omega (arith, scaled-le n parts 5000 few)

many_parts :
    (n parts : ℕ) → n < precision → ltb (n * (2 * parts)) (precision * 10000) ≡ false → 5000 < parts
many_parts n parts h last = elim (Bool-cases (ltb 5000 parts)) [
  | inl lt ↦ ground (arith, lt)
  | inr le ↦ absurd (ground (arith, last, few_parts-fit n parts h (ground (arith, le))))
]

-- Below 2 ^ 53, ten thousandths are told apart.
finest-lt :
    (fuel parts n : ℕ)
    → n < precision
    → 5000 < doublings fuel parts
    → 5000 < finest fuel parts n 10000
unfolding finest
finest-lt zero parts n h enough = enough
finest-lt (suc fuel) parts n h enough =
    let rest = finest-lt fuel (2 * parts) n h enough in
    elim (Bool-cases (ltb (n * (2 * parts)) (precision * 10000))) [
      | inl more ↦ rw more rest
      | inr last ↦ rw last (many_parts n parts h last)
    ]

quotient : (q p k : ℕ) → 0 < p → k * p ≤ q → q < (k + 1) * p → q / p ≡ k
quotient q p k h low high = grind arith

scaled : (n p k r : ℕ) → n ≡ k * 10000 + r → n * p ≡ k * p * 10000 + r * p
scaled n p k r e = rw e (grind arith)

left_over-le : (r p : ℕ) → r < 10000 → r * p ≤ 9999 * p
left_over-le r p h = grind arith

next_multiple : (k p : ℕ) → (k + 1) * p ≡ k * p + p
next_multiple k p = grind arith

-- The nearest multiple of a part does not reach the next integer.
cut-divided : (n p : ℕ) → 5000 < p → nearest (n * p) 10000 / p ≡ n / 10000
cut-divided n p h =
    let (low, high) = nearest-bounds (n * p) in
    let k = n / 10000 in
    let e : n * p ≡ k * p * 10000 + (n % 10000) * p = scaled n p k (n % 10000) (omega arith) in
    let l : (n % 10000) * p ≤ 9999 * p = left_over-le (n % 10000) p (omega arith) in
    quotient (nearest (n * p) 10000) p k (omega arith) (omega (arith, low, e))
      (omega (arith, high, e, l, next_multiple k p))

floor_within_lem :
    (fine coarse n : ℕ)
    → n < precision
    → 5000 < doublings fine 1
    → floor_within fine coarse n 10000 ≡ n / 10000
unfolding floor_within
floor_within_lem fine coarse n h enough =
    let fits : ltb n (precision * 10000) ≡ true = ground arith in
    rw fits (cut-divided n (finest fine 1 n 10000) (finest-lt fine 1 n h enough))

-- Below 2 ^ 53 the division by ten thousand, rounded down, is exact.
pub floor_divided_lem : (n : ℕ) → n < precision → floor_divided n 10000 ≡ n / 10000
unfolding floor_divided
floor_divided_lem n h = floor_within_lem 1074 1024 n h (ground arith)

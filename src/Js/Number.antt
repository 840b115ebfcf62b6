-- ===== src/Js/Number.antt =====
-- JavaScript numbers as a service reads them from a request: a finite one is an integer over a
-- positive denominator.
use agentic_attribution.Prelude.{ℕ, suc, ◌+◌, ◌*◌, ◌/◌, ◌≤◌, ◌≡◌, Bool, false, arith}
use agentic_attribution.Js.Integer.{ℤ, pos, negsuc, ltb_ℤ}

pub record Finite : Type 0 where
  pub numerator : ℤ
  pub below_denominator : ℕ

pub data Number : Type 0 where
  finite : Finite → Number
  not_finite : Number

abbrev pub whole : ℕ → Finite
whole n = record { numerator = pos n; below_denominator = 0 }

abbrev pub is_below : Finite → ℕ → Bool
is_below v n = ltb_ℤ v.numerator (pos (n * suc v.below_denominator))

abbrev pub is_above : Finite → ℕ → Bool
is_above v n = ltb_ℤ (pos (n * suc v.below_denominator)) v.numerator

turns_of : ℤ → (below_denominator : ℕ) → ℕ
turns_of (pos n) d = (n + d) / suc d
turns_of (negsuc n) d = 0

-- How often the body of `for (let i = 0; i < v; i += 1)` runs.
unfoldable pub turns : Finite → ℕ
unfolding turns_of
turns v = turns_of v.numerator v.below_denominator

whole_parts : (n d k : ℕ) → n ≤ k * suc d → (n + d) / suc d ≤ k
whole_parts n d k h = grind arith

turns_of-le : (n : ℤ) (d k : ℕ) → ltb_ℤ (pos (k * suc d)) n ≡ false → turns_of n d ≤ k
unfolding turns_of
turns_of-le (pos n) d k h = whole_parts n d k (ground (arith, h))
turns_of-le (negsuc n) d k h = omega arith

pub turns-le : (v : Finite) (k : ℕ) → is_above v k ≡ false → turns v ≤ k
unfolding turns
turns-le v k h = turns_of-le v.numerator v.below_denominator k h

-- ===== src/Types/Commission/Laws.antt =====
-- What the commission split promises, where a JavaScript number holds the product of price and rate.
use agentic_attribution.Prelude.{ℕ, ◌+◌, ◌*◌, ◌-◌, ◌/◌, ◌≤◌, ◌<◌, ◌≡◌, arith, ap, refl, ◌∙◌}
use agentic_attribution.Js.Double.{precision, rounded, floor_divided}
use agentic_attribution.Js.Double.Laws.{rounded_lem, floor_divided_lem}
use agentic_attribution.Types.Commission.{CommissionSplit, calculate_commission}

-- A split of `gross` at `bps` is fair when the commission is the rate's share of the price rounded
-- down, nothing of it is lost or made up, the platform's fee is three tenths of it rounded down.
pub record IsFair (gross bps : ℕ) (s : CommissionSplit) : Type 0 where
  pub floor : s.commission_amount_cents * 10000 ≤ gross * bps
  pub tight : gross * bps < (s.commission_amount_cents + 1) * 10000
  pub conserved : s.platform_fee_cents + s.publisher_amount_cents ≡ s.commission_amount_cents
  pub fee_floor : s.platform_fee_cents * 10 ≤ s.commission_amount_cents * 3
  pub fee_tight : s.commission_amount_cents * 3 < (s.platform_fee_cents + 1) * 10

share_lem : (n : ℕ) → n < precision → floor_divided (rounded n) 10000 ≡ n / 10000
share_lem n h = rw (rounded_lem n h) (floor_divided_lem n h)

-- The split in whole numbers.
abbrev exact_split : (commission : ℕ) → CommissionSplit
exact_split commission = record {
  commission_amount_cents = commission;
  platform_fee_cents = commission * 3000 / 10000;
  publisher_amount_cents = commission - commission * 3000 / 10000;
}

rounded_split : (commission : ℕ) → CommissionSplit
rounded_split commission =
    let fee = floor_divided (rounded (commission * 3000)) 10000 in
    record {
      commission_amount_cents = commission;
      platform_fee_cents = fee;
      publisher_amount_cents = rounded (commission - fee);
    }

rounded_split-eq :
    (commission : ℕ)
    → commission * 3000 < precision
    → rounded_split commission ≡ exact_split commission
unfolding rounded_split
rounded_split-eq commission h =
    rw
      (
        share_lem (commission * 3000) h,
        rounded_lem (commission - commission * 3000 / 10000) (omega arith),
      )
      refl

calculate_commission-eq :
    (gross bps : ℕ)
    → gross * bps < precision
    → calculate_commission gross bps ≡ exact_split (gross * bps / 10000)
unfolding calculate_commission rounded_split
calculate_commission-eq gross bps h =
    ap rounded_split (share_lem (gross * bps) h)
    ∙ rounded_split-eq (gross * bps / 10000) (omega arith)

-- Where price times rate is below 2 ^ 53, the split is fair: the commission is the rate's share of the
-- price rounded down to a cent, the platform's fee is three tenths of the commission rounded down,
-- and fee and publisher's amount add up to the commission.
pub calculate_commission-IsFair :
    (gross bps : ℕ) → gross * bps < precision → IsFair gross bps (calculate_commission gross bps)
calculate_commission-IsFair gross bps h = rw (calculate_commission-eq gross bps h) (omega arith)

-- At a rate of at most 100 percent, the commission is then at most the price, and the publisher's
-- amount is at least the platform's fee.
pub calculate_commission-le :
    (gross bps : ℕ)
    → gross * bps < precision
    → bps ≤ 10000
    → let s = calculate_commission gross bps in
      (s.commission_amount_cents ≤ gross) × (s.platform_fee_cents ≤ s.publisher_amount_cents)
calculate_commission-le gross bps h k =
    let f = calculate_commission-IsFair gross bps h in grind arith

-- A fair split is then determined by the price and the rate.
pub IsFair-unique :
    (gross bps : ℕ) (s : CommissionSplit)
    → gross * bps < precision
    → IsFair gross bps s
    → s ≡ calculate_commission gross bps
IsFair-unique gross bps s h f = ground (arith, calculate_commission-IsFair gross bps h)

-- ===== src/Types/Commission.antt =====
-- packages/types/src/index.ts: the commission split. Amounts and rates are whole numbers that are not
-- negative, and what is computed of them is rounded as a JavaScript number is.
pub mod Laws
use agentic_attribution.Prelude.{ℕ, ◌*◌, ◌-◌}
use agentic_attribution.Js.Double.{rounded, floor_divided}

abbrev pub basis_points_divisor : ℕ
basis_points_divisor = 10000

abbrev pub platform_fee_share_bps : ℕ
platform_fee_share_bps = 3000

pub record CommissionSplit : Type 0 where
  pub commission_amount_cents : ℕ
  pub platform_fee_cents : ℕ
  pub publisher_amount_cents : ℕ

-- A fee of three tenths is never above the commission, so the truncated `-` is exact.
unfoldable pub calculate_commission : ℕ → ℕ → CommissionSplit
unfolding rounded floor_divided
calculate_commission gross_amount_cents commission_bps =
    let commission =
      floor_divided (rounded (gross_amount_cents * commission_bps)) basis_points_divisor in
    let platform_fee =
      floor_divided (rounded (commission * platform_fee_share_bps)) basis_points_divisor in
    record {
      commission_amount_cents = commission;
      platform_fee_cents = platform_fee;
      publisher_amount_cents = rounded (commission - platform_fee);
    }

-- ===== src/Trading/Risk.antt =====
-- trading/strategy/risk_manager.h: the check of an order before it is sent.
pub mod Limits
use hft_system.Base.{ℕ, ◌+◌, ◌-◌, ◌*◌, ◌%◌, ◌^◌, Bool, ltb, if◌then◌else◌}
use hft_system.Base.Int.{ℤ, pos, negsuc, ltb_ℤ, abs}
use hft_system.Common.Types.{Side, side_to_value, to_unsigned}
use hft_system.Trading.OrderManager.{RiskCheckResult}
use hft_system.Trading.Doubles.{Doubles, to_int32}
use hft_system.Trading.Positions.{PositionInfo}

-- The fields of the configuration that the code reads; no file declares its type. `max_position` is its
-- value as an `int32_t`.
pub record RiskCfg (R : Type 0) : Type 0 where
  pub max_order_size : ℕ
  pub max_position : ℤ
  pub max_loss : R

-- The bits of a `size_t` read with a sign.
abbrev pub signed64 : ℕ → ℤ
signed64 w = if ltb w (2 ^ 63) then pos w else negsuc (2 ^ 64 - w - 1)

-- `position_ + sideToValue(side) * static_cast<int32_t>(qty)`. The sum has no sign, and `std::abs` has no
-- overload for it: it is read here as the signed number with its bits.
abbrev pub position_after : ℤ → Side → ℕ → ℤ
position_after position side qty =
    signed64
      ((to_unsigned position + side_to_value side * to_unsigned (to_int32 qty) % 2 ^ 64) % 2 ^ 64)

module _ {R : Type 0} ⦃d : Doubles R⦄ where
  unfoldable pub check_pre_trade_risk : RiskCfg R → PositionInfo R → Side → ℕ → RiskCheckResult
  check_pre_trade_risk cfg p side qty =
      if ltb cfg.max_order_size qty
      then RiskCheckResult.order_too_large
      else if ltb_ℤ cfg.max_position (abs (position_after p.position side qty))
      then RiskCheckResult.position_too_large
      else if d.less p.total_pnl cfg.max_loss
      then RiskCheckResult.loss_too_large
      else RiskCheckResult.allowed

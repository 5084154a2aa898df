-- ===== src/Trading/Risk/Limits.antt =====
-- trading/strategy/risk_manager.h: the orders that pass the check.
use hft_system.Base.{
  ℕ, ◌^◌, ◌≤◌, ◌<◌, ◌≡◌, Bool, true, false, ltb, if◌then◌else◌, arith, ◌↔◌, subst, sym,
}
use hft_system.Base.Int.{ℤ, ltb_ℤ, abs, ◌+ℤ◌, ◌≤ℤ◌}
use hft_system.Common.Types.{Side, side_to_value}
use hft_system.Trading.OrderManager.{RiskCheckResult, is_allowed}
use hft_system.Trading.Doubles.{Doubles}
use hft_system.Trading.Positions.{PositionInfo}
use hft_system.Trading.Positions.Fills.{signed_qty, size}
use hft_system.Trading.Risk.{RiskCfg, position_after, check_pre_trade_risk}

position_after-exact :
    (p : ℤ) (side : Side) (qty : ℕ)
    → size p ≤ 2 ^ 31
    → qty < 2 ^ 31
    → position_after p side qty ≡ p +ℤ signed_qty side qty
unfolding ◌+ℤ◌ side_to_value
position_after-exact p Side.buy qty h k = ground arith
position_after-exact p Side.sell qty h k = ground arith
position_after-exact p Side.invalid qty h k = ground arith

-- The three tests in their order, on the values that they read.
gates :
    (max qty : ℕ) (after most : ℤ) (loss : Bool)
    → (is_allowed (
          if ltb max qty
          then RiskCheckResult.order_too_large
          else if ltb_ℤ most (abs after)
          then RiskCheckResult.position_too_large
          else if loss
          then RiskCheckResult.loss_too_large
          else RiskCheckResult.allowed)
        ≡ true)
      ↔ ((qty ≤ max) × (abs after ≤ℤ most) × (loss ≡ false))
gates max qty after most loss = ground arith

module _ {R : Type 0} ⦃d : Doubles R⦄ where
  -- Where the largest order is below 2 ^ 31 and the size of the position is at most 2 ^ 31, the check allows
  -- an order exactly if its quantity is at most the largest order, the position that it would lead to is at
  -- most the largest position in size, and the total profit is not less than the largest loss.
  pub check_pre_trade_risk-allows :
      (cfg : RiskCfg R) (p : PositionInfo R) (side : Side) (qty : ℕ)
      → cfg.max_order_size < 2 ^ 31
      → size p.position ≤ 2 ^ 31
      → (is_allowed (check_pre_trade_risk cfg p side qty) ≡ true) ↔ (
          (qty ≤ cfg.max_order_size)
          × (abs (p.position +ℤ signed_qty side qty) ≤ℤ cfg.max_position)
          × (d.less p.total_pnl cfg.max_loss ≡ false))
  unfolding check_pre_trade_risk
  check_pre_trade_risk-allows cfg p side qty h k =
      let after = position_after p.position side qty in
      let (to, from) =
        gates cfg.max_order_size qty after cfg.max_position (d.less p.total_pnl cfg.max_loss) in
      let exact : qty ≤ cfg.max_order_size → after ≡ p.position +ℤ signed_qty side qty =
        λ le. position_after-exact p.position side qty k (omega arith) in
      (
        λ ok. (
          (to ok).0,
          subst (λ v. abs v ≤ℤ cfg.max_position) (exact (to ok).0) (to ok).1,
          (to ok).2,
        ),
        λ f. from (f.0, subst (λ v. abs v ≤ℤ cfg.max_position) (sym (exact f.0)) f.1, f.2),
      )

-- ===== src/Trading/Features.antt =====
-- trading/strategy/feature_engine.h: the fair price and the share of an aggressive trade.
use hft_system.Base.{ℕ, ◌+◌, ◌%◌, ◌^◌, if◌then◌else◌, Outcome, done, ◌>>=◌}
use hft_system.Base.Int.{pos, ◌+ℤ◌, ◌*ℤ◌}
use hft_system.Common.Types.{Side}
use hft_system.MarketData.Updates.{MarketUpdate}
use hft_system.OrderBook.Market.{Bbo}
use hft_system.Trading.Doubles.{Doubles, int64}
use hft_system.Trading.Positions.{both_valid}

pub record FeatureEngine (R : Type 0) : Type 0 where
  pub mkt_price : R
  pub agg_trade_qty_ratio : R

-- The quantity of the best level on the other side of a trade.
abbrev pub qty_hit : Side → Bbo → ℕ
qty_hit Side.buy b = b.ask_qty
qty_hit Side.sell b = b.bid_qty
qty_hit Side.invalid b = b.bid_qty

module _ {R : Type 0} ⦃d : Doubles R⦄ where
  -- The members before the first update.
  abbrev pub no_features : FeatureEngine R
  no_features = record { mkt_price = d.nan; agg_trade_qty_ratio = d.nan }

  -- Each price weighs with the other side's quantity; `Qty` wraps in the divisor.
  unfoldable pub update_mkt_price : Bbo → FeatureEngine R → Outcome (FeatureEngine R)
  update_mkt_price b f =
      if both_valid b
      then (do
        bid ← int64 (b.bid_price *ℤ pos b.ask_qty)
        ask ← int64 (b.ask_price *ℤ pos b.bid_qty)
        sum ← int64 (bid +ℤ ask)
        done (record f {
          mkt_price = d.div (d.of_int sum) (d.of_int (pos ((b.bid_qty + b.ask_qty) % 2 ^ 32)));
        }))
      else done f

  unfoldable pub update_agg_ratio : MarketUpdate → Bbo → FeatureEngine R → FeatureEngine R
  update_agg_ratio u b f =
      if both_valid b
      then record f {
        agg_trade_qty_ratio = d.div (d.of_int (pos u.qty)) (d.of_int (pos (qty_hit u.side b)));
      }
      else f

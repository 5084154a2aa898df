-- ===== src/Trading/Strategies.antt =====
-- trading/strategy/market_maker.h and liquidity_taker.h: what the two algorithms ask of the order manager.
pub mod Quotes
use hft_system.Base.{ℕ, Bool, true, false, ◌&&◌, ltb, if◌then◌else◌, Outcome, done, exits, ◌>>=◌}
use hft_system.Base.Int.{ℤ, pos, ◌+ℤ◌, ◌-ℤ◌}
use hft_system.Common.Types.{Side, me_max_tickers, price_invalid}
use hft_system.MarketData.Updates.{MarketUpdate}
use hft_system.OrderBook.Market.{Bbo}
use hft_system.Trading.OrderManager.{OrderManager, RiskCheckResult, move_orders}
use hft_system.Trading.Doubles.{Doubles, int64}
use hft_system.Trading.Positions.{both_valid}
use hft_system.Trading.Risk.{RiskCfg}

-- The fields of the configuration of an instrument that the code reads; no file declares its type.
pub record TradeEngineCfg (R : Type 0) : Type 0 where
  pub clip : ℕ
  pub threshold : R
  pub risk_cfg : RiskCfg R

-- `ticker_cfg_.at(ticker_id)`, of a configuration with an entry for each instrument.
abbrev pub cfg_at {ℓ} : {A : Type ℓ} → ℕ → (ℕ → A) → Outcome A
cfg_at ticker_id ticker_cfg =
    if ltb ticker_id me_max_tickers then done (ticker_cfg ticker_id) else exits

abbrev pub step_back : Bool → ℤ
step_back true = pos 0
step_back false = pos 1

module _ (client_id : ℕ) (check : ℕ → Side → ℕ → RiskCheckResult) where
  abbrev pub take_liquidity : Side → ℕ → Bbo → ℕ → OrderManager → Outcome OrderManager
  take_liquidity Side.buy ticker_id b clip m =
      move_orders client_id check ticker_id b.ask_price price_invalid clip m
  take_liquidity Side.sell ticker_id b clip m =
      move_orders client_id check ticker_id price_invalid b.bid_price clip m
  take_liquidity Side.invalid ticker_id b clip m =
      move_orders client_id check ticker_id price_invalid b.bid_price clip m

module _ {R : Type 0} ⦃d : Doubles R⦄ (client_id : ℕ) (check : ℕ → Side → ℕ → RiskCheckResult)
    (ticker_cfg : ℕ → TradeEngineCfg R) where
  -- `MarketMaker::onOrderBookUpdate`
  unfoldable pub maker_on_order_book_update : ℕ → Bbo → R → OrderManager → Outcome OrderManager
  maker_on_order_book_update ticker_id b fair_price m =
      if both_valid b && d.differs fair_price d.nan
      then (do
        cfg ← cfg_at ticker_id ticker_cfg
        bid_price ← int64 (
            b.bid_price
            -ℤ step_back (d.at_least (d.sub fair_price (d.of_int b.bid_price)) cfg.threshold))
        ask_price ← int64 (
            b.ask_price
            +ℤ step_back (d.at_least (d.sub (d.of_int b.ask_price) fair_price) cfg.threshold))
        move_orders client_id check ticker_id bid_price ask_price cfg.clip m)
      else done m

  -- `LiquidityTaker::onTradeUpdate`
  unfoldable pub taker_on_trade_update :
      MarketUpdate → Bbo → R → OrderManager → Outcome OrderManager
  taker_on_trade_update u b agg_qty_ratio m =
      if both_valid b && d.differs agg_qty_ratio d.nan
      then (do
        cfg ← cfg_at u.ticker_id ticker_cfg
        if d.at_least agg_qty_ratio cfg.threshold
            then take_liquidity client_id check u.side u.ticker_id b cfg.clip m
            else done m)
      else done m

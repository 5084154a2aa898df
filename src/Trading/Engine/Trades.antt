-- ===== src/Trading/Engine/Trades.antt =====
-- trading/strategy/trade_engine.cpp, onTradeUpdate: the orders that a trade leads to.
use hft_system.Base.{
  ℕ, ◌^◌, ◌≤◌, ◌<◌, ◌≡◌, refl, true, false, ◌&&◌, List, ◌++◌, arith, ltb, Bool-cases, inl, inr,
  done,
}
use hft_system.Base.Int.{ℤ}
use hft_system.Common.Types.{Side, me_max_tickers, price_invalid}
use hft_system.Common.Ring.{All}
use hft_system.OrderFlow.Server.{ClientRequest}
use hft_system.OrderBook.Market.{Bbo, MarketOrderBook}
use hft_system.Trading.OrderManager.{OrderManager, same_price}
use hft_system.Trading.Doubles.{Doubles}
use hft_system.Trading.Positions.{PositionKeeper, both_valid}
use hft_system.Trading.Positions.Fills.{size}
use hft_system.Trading.Features.{update_agg_ratio}
use hft_system.Trading.Strategies.{TradeEngineCfg, take_liquidity, taker_on_trade_update}
use hft_system.Trading.Strategies.Quotes.{quoted}
use hft_system.Trading.Engine.{
  risk_check, TradeEngine, engine_on_trade_update, algo_on_trade_update,
}
use hft_system.Common.AlgoTypes.{AlgoType}
use hft_system.MarketData.Updates.{MarketUpdate}
use hft_system.Trading.Engine.Passive.{IsLimited, Asks, Asks-nothing, move_orders-IsLimited}

-- With the trade: a buy at the best offer after a buy, else a sell at the best bid.
abbrev pub IsWithTrade : Bbo → Side → Side → ℤ → Type 0
IsWithTrade b Side.buy Side.buy price = price ≡ b.ask_price
IsWithTrade b Side.buy Side.sell price = true ≡ false
IsWithTrade b Side.buy Side.invalid price = true ≡ false
IsWithTrade b Side.sell Side.sell price = price ≡ b.bid_price
IsWithTrade b Side.sell Side.buy price = true ≡ false
IsWithTrade b Side.sell Side.invalid price = true ≡ false
IsWithTrade b Side.invalid Side.sell price = price ≡ b.bid_price
IsWithTrade b Side.invalid Side.buy price = true ≡ false
IsWithTrade b Side.invalid Side.invalid price = true ≡ false

module _ (b : Bbo) where
  IsWithTrade-bid :
      (side : Side)
      → same_price (quoted price_invalid b.bid_price side) price_invalid ≡ false
      → IsWithTrade b Side.sell side (quoted price_invalid b.bid_price side)
  IsWithTrade-bid Side.buy valid = valid
  IsWithTrade-bid Side.sell valid = refl
  IsWithTrade-bid Side.invalid valid = valid

  IsWithTrade-ask :
      (side : Side)
      → same_price (quoted b.ask_price price_invalid side) price_invalid ≡ false
      → IsWithTrade b Side.buy side (quoted b.ask_price price_invalid side)
  IsWithTrade-ask Side.buy valid = refl
  IsWithTrade-ask Side.sell valid = valid
  IsWithTrade-ask Side.invalid valid = valid

  -- A trade whose side is neither is taken as a sell.
  IsWithTrade-other :
      (side : Side)
      → same_price (quoted price_invalid b.bid_price side) price_invalid ≡ false
      → IsWithTrade b Side.invalid side (quoted price_invalid b.bid_price side)
  IsWithTrade-other Side.buy valid = valid
  IsWithTrade-other Side.sell valid = refl
  IsWithTrade-other Side.invalid valid = valid

module _ {R : Type 0} ⦃d : Doubles R⦄ (client_id : ℕ) (ticker_cfg : ℕ → TradeEngineCfg R)
    (k : PositionKeeper R) (t : ℕ) (b : Bbo) (m : OrderManager) (known : t < me_max_tickers)
    (short : (ticker_cfg t).risk_cfg.max_order_size < 2 ^ 31)
    (small : size (k t).position ≤ 2 ^ 31) where
  take_liquidity-Asks :
      (side : Side)
      → Asks client_id ticker_cfg k t b m known short small
          (IsWithTrade b side)
          (take_liquidity client_id (risk_check ticker_cfg k) side t b (ticker_cfg t).clip m)
  take_liquidity-Asks Side.buy =
      move_orders-IsLimited client_id ticker_cfg k t (IsWithTrade b Side.buy) b.ask_price
        price_invalid short small (IsWithTrade-ask b) m known
  take_liquidity-Asks Side.sell =
      move_orders-IsLimited client_id ticker_cfg k t (IsWithTrade b Side.sell) price_invalid
        b.bid_price short small (IsWithTrade-bid b) m known
  take_liquidity-Asks Side.invalid =
      move_orders-IsLimited client_id ticker_cfg k t (IsWithTrade b Side.invalid) price_invalid
        b.bid_price short small (IsWithTrade-other b) m known

module _ {R : Type 0} ⦃d : Doubles R⦄ (client_id : ℕ) (ticker_cfg : ℕ → TradeEngineCfg R)
    (e : TradeEngine R) (book : MarketOrderBook) where
  taker-Asks :
      (u : MarketUpdate) (ratio : R) (known : u.ticker_id < me_max_tickers)
      (small : size (e.position_keeper u.ticker_id).position ≤ 2 ^ 31)
      (short : (ticker_cfg u.ticker_id).risk_cfg.max_order_size < 2 ^ 31)
      → Asks client_id ticker_cfg e.position_keeper u.ticker_id book.bbo e.order_manager known short
          small
          (IsWithTrade book.bbo u.side)
          (taker_on_trade_update client_id
            (risk_check ticker_cfg e.position_keeper)
            ticker_cfg
            u
            book.bbo
            ratio
            e.order_manager)
  unfolding taker_on_trade_update
  taker-Asks u ratio known small short =
      let t = u.ticker_id in
      let found : ltb t me_max_tickers ≡ true = ground (arith, known) in
      let nothing =
        Asks-nothing client_id ticker_cfg e.position_keeper t book.bbo e.order_manager known short
          small (IsWithTrade book.bbo u.side) in
      elim (Bool-cases (both_valid book.bbo && d.differs ratio d.nan)) [
        | inr off ↦ rw off nothing
        | inl on ↦ elim (Bool-cases (d.at_least ratio (ticker_cfg t).threshold)) [
          | inl enough ↦
              rw (on, found, enough)
                (take_liquidity-Asks client_id ticker_cfg e.position_keeper t book.bbo
                  e.order_manager known short small u.side)
          | inr low ↦ rw (on, found, low) nothing
        ]
      ]

  -- With an instrument in range whose position has a size of at most 2 ^ 31, and a largest order below
  -- 2 ^ 31, the taker's engine returns from a trade. Each request that it adds is a cancel of this client or
  -- a new order of the instrument, for the configured quantity, within the limits: a buy at the best offer
  -- where the trade was a buy, else a sell at the best bid.
  engine_on_trade_update-IsWithTrade :
      (u : MarketUpdate)
      → u.ticker_id < me_max_tickers
      → size (e.position_keeper u.ticker_id).position ≤ 2 ^ 31
      → (ticker_cfg u.ticker_id).risk_cfg.max_order_size < 2 ^ 31
      → (e' : TradeEngine R) × (rs : List ClientRequest) × (engine_on_trade_update client_id
            AlgoType.taker ticker_cfg u book e
          ≡ done e')
        × (e'.order_manager.sent ≡ e.order_manager.sent ++ rs)
        × All
            (λ r.
              IsLimited client_id ticker_cfg e.position_keeper u.ticker_id
                (IsWithTrade book.bbo u.side)
                r.type
                r)
            rs
  unfolding engine_on_trade_update algo_on_trade_update
  engine_on_trade_update-IsWithTrade u known small short =
      let f = update_agg_ratio u book.bbo e.feature_engine in
      let (m', rs, sends, says, all) = taker-Asks u f.agg_trade_qty_ratio known small short in
      (record e { feature_engine = f; order_manager = m' }, rs, rw sends refl, says, all)

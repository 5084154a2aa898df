-- ===== src/Trading/Engine/Events/Asks.antt =====
-- trading/strategy/market_maker.h, liquidity_taker.h and trade_engine.cpp: what an algorithm sends when
-- it is called.
use hft_system.Base.{ℕ, ◌<◌, ◌≡◌, refl, true, ◌&&◌, arith, ltb, Bool-cases, inl, inr, Outcome, done}
use hft_system.Common.Types.{Side, me_max_tickers, price_invalid}
use hft_system.Common.AlgoTypes.{AlgoType}
use hft_system.MarketData.Updates.{MarketUpdate}
use hft_system.OrderFlow.Responses.{ClientResponse}
use hft_system.OrderBook.Market.{Bbo}
use hft_system.Trading.OrderManager.{OrderManager, RiskCheckResult}
use hft_system.Trading.OrderManager.Requests.{
  Sends, Sends-refl, move_orders-Sends, on_order_update-done,
}
use hft_system.Trading.Doubles.{Doubles}
use hft_system.Trading.Positions.{PositionKeeper, both_valid}
use hft_system.Trading.Positions.Fills.{int64-done}
use hft_system.Trading.Strategies.{
  TradeEngineCfg, take_liquidity, maker_on_order_book_update, taker_on_trade_update,
}
use hft_system.Trading.Engine.{
  TradeEngine, risk_check, algo_on_order_book_update, algo_on_trade_update, algo_on_order_update,
}
use hft_system.Trading.Engine.Passive.{Fits, fits-step_back}

-- What an operation of the order manager sends under a risk check.
abbrev Asks : ℕ → (ℕ → Side → ℕ → RiskCheckResult) → OrderManager → Outcome OrderManager → Type 0
Asks client_id check m o = (m' : OrderManager) × (o ≡ done m') × Sends client_id check m m'

module _ {R : Type 0} ⦃d : Doubles R⦄ (client_id : ℕ) (algo_type : AlgoType)
    (ticker_cfg : ℕ → TradeEngineCfg R) where
  module _ (k : PositionKeeper R) (m : OrderManager) where
    maker-Asks :
        (t : ℕ) (b : Bbo) (fair : R)
        → t < me_max_tickers
        → Fits b
        → Asks client_id
            (risk_check ticker_cfg k)
            m
            (maker_on_order_book_update client_id (risk_check ticker_cfg k) ticker_cfg t b fair m)
    unfolding maker_on_order_book_update
    maker-Asks t b fair known fits = elim (Bool-cases (both_valid b && d.differs fair d.nan)) [
      | inl on ↦
          let found : ltb t me_max_tickers ≡ true = ground (arith, known) in
          let threshold = (ticker_cfg t).threshold in
          let back_bid = d.at_least (d.sub fair (d.of_int b.bid_price)) threshold in
          let back_ask = d.at_least (d.sub (d.of_int b.ask_price) fair) threshold in
          let (bid_fits, ask_fits) = fits-step_back client_id ticker_cfg b back_bid back_ask fits in
          rw (on, found, int64-done _ bid_fits, int64-done _ ask_fits)
            (move_orders-Sends client_id (risk_check ticker_cfg k) t _ _ (ticker_cfg t).clip m
              known)
      | inr off ↦ rw off (m, refl, Sends-refl client_id (risk_check ticker_cfg k) m)
    ]

    take_liquidity-Asks :
        (side : Side) (t : ℕ) (b : Bbo)
        → t < me_max_tickers
        → Asks client_id
            (risk_check ticker_cfg k)
            m
            (take_liquidity client_id (risk_check ticker_cfg k) side t b (ticker_cfg t).clip m)
    take_liquidity-Asks Side.buy t b known =
        move_orders-Sends client_id (risk_check ticker_cfg k) t b.ask_price price_invalid
          (ticker_cfg t).clip m known
    take_liquidity-Asks Side.sell t b known =
        move_orders-Sends client_id (risk_check ticker_cfg k) t price_invalid b.bid_price
          (ticker_cfg t).clip m known
    take_liquidity-Asks Side.invalid t b known =
        move_orders-Sends client_id (risk_check ticker_cfg k) t price_invalid b.bid_price
          (ticker_cfg t).clip m known

    taker-Asks :
        (u : MarketUpdate) (b : Bbo) (ratio : R)
        → u.ticker_id < me_max_tickers
        → Asks client_id
            (risk_check ticker_cfg k)
            m
            (taker_on_trade_update client_id (risk_check ticker_cfg k) ticker_cfg u b ratio m)
    unfolding taker_on_trade_update
    taker-Asks u b ratio known =
        let found : ltb u.ticker_id me_max_tickers ≡ true = ground (arith, known) in
        let nothing = Sends-refl client_id (risk_check ticker_cfg k) m in
        elim (Bool-cases (both_valid b && d.differs ratio d.nan)) [
          | inr off ↦ rw off (m, refl, nothing)
          | inl on ↦ elim (Bool-cases (d.at_least ratio (ticker_cfg u.ticker_id).threshold)) [
            | inl enough ↦ rw (on, found, enough) (take_liquidity-Asks u.side u.ticker_id b known)
            | inr low ↦ rw (on, found, low) (m, refl, nothing)
          ]
        ]

  pub algo_on_book-done :
      (a : AlgoType) (t : ℕ) (b : Bbo) (e : TradeEngine R)
      → t < me_max_tickers
      → Fits b
      → (m' : OrderManager) × (algo_on_order_book_update client_id algo_type ticker_cfg a t b e
          ≡ done (record e { order_manager = m' }))
        × Sends client_id (risk_check ticker_cfg e.position_keeper) e.order_manager m'
  unfolding algo_on_order_book_update
  algo_on_book-done AlgoType.maker t b e known fits =
      let (m', ok, sends) =
        maker-Asks e.position_keeper e.order_manager t b e.feature_engine.mkt_price known fits in
      (m', rw ok refl, sends)
  algo_on_book-done AlgoType.taker t b e known fits =
      (e.order_manager, refl, Sends-refl client_id _ e.order_manager)
  algo_on_book-done AlgoType.random t b e known fits =
      (e.order_manager, refl, Sends-refl client_id _ e.order_manager)
  algo_on_book-done AlgoType.invalid t b e known fits =
      (e.order_manager, refl, Sends-refl client_id _ e.order_manager)
  algo_on_book-done AlgoType.max t b e known fits =
      (e.order_manager, refl, Sends-refl client_id _ e.order_manager)

  pub algo_on_trade-done :
      (a : AlgoType) (u : MarketUpdate) (b : Bbo) (e : TradeEngine R)
      → u.ticker_id < me_max_tickers
      → (m' : OrderManager) × (algo_on_trade_update client_id algo_type ticker_cfg a u b e
          ≡ done (record e { order_manager = m' }))
        × Sends client_id (risk_check ticker_cfg e.position_keeper) e.order_manager m'
  unfolding algo_on_trade_update
  algo_on_trade-done AlgoType.taker u b e known =
      let (m', ok, sends) =
        taker-Asks e.position_keeper e.order_manager u b e.feature_engine.agg_trade_qty_ratio
          known in
      (m', rw ok refl, sends)
  algo_on_trade-done AlgoType.maker u b e known =
      (e.order_manager, refl, Sends-refl client_id _ e.order_manager)
  algo_on_trade-done AlgoType.random u b e known =
      (e.order_manager, refl, Sends-refl client_id _ e.order_manager)
  algo_on_trade-done AlgoType.invalid u b e known =
      (e.order_manager, refl, Sends-refl client_id _ e.order_manager)
  algo_on_trade-done AlgoType.max u b e known =
      (e.order_manager, refl, Sends-refl client_id _ e.order_manager)

  pub algo_on_response-done :
      (a : AlgoType) (r : ClientResponse) (e : TradeEngine R)
      → r.ticker_id < me_max_tickers
      → (m' : OrderManager) × (algo_on_order_update client_id algo_type ticker_cfg a r e
          ≡ done (record e { order_manager = m' }))
        × (m'.sent ≡ e.order_manager.sent)
        × (m'.next_order_id ≡ e.order_manager.next_order_id)
  unfolding algo_on_order_update
  algo_on_response-done AlgoType.maker r e known =
      let (m', ok, sent, next) = on_order_update-done r e.order_manager known in
      (m', rw ok refl, sent, next)
  algo_on_response-done AlgoType.taker r e known =
      let (m', ok, sent, next) = on_order_update-done r e.order_manager known in
      (m', rw ok refl, sent, next)
  algo_on_response-done AlgoType.random r e known = (e.order_manager, refl, refl, refl)
  algo_on_response-done AlgoType.invalid r e known = (e.order_manager, refl, refl, refl)
  algo_on_response-done AlgoType.max r e known = (e.order_manager, refl, refl, refl)

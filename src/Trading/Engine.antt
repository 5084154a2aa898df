-- ===== src/Trading/Engine.antt =====
-- trading/strategy/trade_engine.cpp: what the books and the responses tell the positions, the features and
-- the algorithm.
pub mod Passive
pub mod Orders
mod Trades
pub mod Events
pub mod Runs
mod Passes
use hft_system.Base.{
  ℕ, Bool, List, [], ◌∷◌, ◌==◌, ltb, if◌then◌else◌, Outcome, done, exits, ◌>>=◌, assert, ◌>>◌,
}
use hft_system.Base.Int.{ℤ}
use hft_system.Common.Types.{Side, me_max_tickers}
use hft_system.Common.LfQueue.{LfQueue}
use hft_system.Common.LfQueue.Drain.{drain}
use hft_system.Common.AlgoTypes.{AlgoType}
use hft_system.MarketData.Updates.{MarketUpdate}
use hft_system.OrderFlow.Responses.{ClientResponseType, ClientResponse}
use hft_system.OrderBook.Market.{Bbo, MarketOrderBook, Notification, on_market_update}
use hft_system.Trading.OrderManager.{OrderManager, RiskCheckResult, on_order_update}
use hft_system.Trading.Doubles.{Doubles}
use hft_system.Trading.Positions.{
  PositionInfo, PositionKeeper, at_position, add_fill, position_update_bbo,
}
use hft_system.Trading.Risk.{check_pre_trade_risk}
use hft_system.Trading.Features.{FeatureEngine, update_mkt_price, update_agg_ratio}
use hft_system.Trading.Strategies.{
  TradeEngineCfg, maker_on_order_book_update, taker_on_trade_update,
}

-- The order manager keeps what `sendClientRequest` has written for the gateway.
pub record TradeEngine (R : Type 0) : Type 0 where
  pub ticker_order_book : ℕ → MarketOrderBook
  pub feature_engine : FeatureEngine R
  pub position_keeper : PositionKeeper R
  pub order_manager : OrderManager

module _ {R : Type 0} ⦃d : Doubles R⦄ (ticker_cfg : ℕ → TradeEngineCfg R) where
  -- `RiskManager::checkPreTradeRisk`, on the positions that its pointers lead to. The order manager asks it
  -- only of an instrument in range.
  abbrev pub risk_check : PositionKeeper R → ℕ → Side → ℕ → RiskCheckResult
  risk_check k ticker_id = check_pre_trade_risk (ticker_cfg ticker_id).risk_cfg (k ticker_id)

module _ {R : Type 0} ⦃d : Doubles R⦄ where
  unfoldable pub keep_fill :
      ClientResponseType → ClientResponse → PositionKeeper R → Outcome (PositionKeeper R)
  keep_fill ClientResponseType.filled r k = at_position r.ticker_id (add_fill r) k
  keep_fill ClientResponseType.accepted r k = done k
  keep_fill ClientResponseType.canceled r k = done k
  keep_fill ClientResponseType.cancel_rejected r k = done k
  keep_fill ClientResponseType.invalid r k = done k

-- The engine's constant members.
module _ {R : Type 0} ⦃d : Doubles R⦄ (client_id : ℕ) (algo_type : AlgoType)
    (ticker_cfg : ℕ → TradeEngineCfg R) where
  -- The callbacks that the algorithm's constructor installs.
  unfoldable pub algo_on_order_book_update :
      AlgoType → ℕ → Bbo → TradeEngine R → Outcome (TradeEngine R)
  algo_on_order_book_update AlgoType.maker ticker_id b e = do
    m ←
        maker_on_order_book_update client_id (risk_check ticker_cfg e.position_keeper) ticker_cfg
          ticker_id b e.feature_engine.mkt_price e.order_manager
    done (record e { order_manager = m })
  algo_on_order_book_update AlgoType.taker ticker_id b e = done e
  algo_on_order_book_update AlgoType.random ticker_id b e = done e
  algo_on_order_book_update AlgoType.invalid ticker_id b e = done e
  algo_on_order_book_update AlgoType.max ticker_id b e = done e

  unfoldable pub algo_on_trade_update :
      AlgoType → MarketUpdate → Bbo → TradeEngine R → Outcome (TradeEngine R)
  algo_on_trade_update AlgoType.taker u b e = do
    m ←
        taker_on_trade_update client_id (risk_check ticker_cfg e.position_keeper) ticker_cfg u b
          e.feature_engine.agg_trade_qty_ratio e.order_manager
    done (record e { order_manager = m })
  algo_on_trade_update AlgoType.maker u b e = done e
  algo_on_trade_update AlgoType.random u b e = done e
  algo_on_trade_update AlgoType.invalid u b e = done e
  algo_on_trade_update AlgoType.max u b e = done e

  abbrev pub follow : ClientResponse → TradeEngine R → Outcome (TradeEngine R)
  follow r e = on_order_update r e.order_manager >>= λ m. done (record e { order_manager = m })

  unfoldable pub algo_on_order_update :
      AlgoType → ClientResponse → TradeEngine R → Outcome (TradeEngine R)
  algo_on_order_update AlgoType.maker r e = follow r e
  algo_on_order_update AlgoType.taker r e = follow r e
  algo_on_order_update AlgoType.random r e = done e
  algo_on_order_update AlgoType.invalid r e = done e
  algo_on_order_update AlgoType.max r e = done e

  -- The price and the side of the update are only logged.
  unfoldable pub engine_on_order_book_update :
      ℕ → MarketOrderBook → TradeEngine R → Outcome (TradeEngine R)
  engine_on_order_book_update ticker_id book e = do
    k ← at_position ticker_id (position_update_bbo book.bbo) e.position_keeper
    f ← update_mkt_price book.bbo e.feature_engine
    algo_on_order_book_update algo_type ticker_id book.bbo
        (record e { position_keeper = k; feature_engine = f })

  unfoldable pub engine_on_trade_update :
      MarketUpdate → MarketOrderBook → TradeEngine R → Outcome (TradeEngine R)
  engine_on_trade_update u book e =
      algo_on_trade_update algo_type u book.bbo
        (record e { feature_engine = update_agg_ratio u book.bbo e.feature_engine })

  unfoldable pub engine_on_order_update : ClientResponse → TradeEngine R → Outcome (TradeEngine R)
  engine_on_order_update r e = do
    k ← keep_fill r.type r e.position_keeper
    algo_on_order_update algo_type r (record e { position_keeper = k })

  -- What a book calls, once it has changed.
  unfoldable pub notify : Notification → MarketOrderBook → TradeEngine R → Outcome (TradeEngine R)
  notify (Notification.trade_update u) book e = engine_on_trade_update u book e
  notify (Notification.order_book_update ticker_id price side) book e =
      engine_on_order_book_update ticker_id book e

  -- The body of the loop over market updates in `run`.
  unfoldable pub engine_on_market_update : MarketUpdate → TradeEngine R → Outcome (TradeEngine R)
  engine_on_market_update u e = do
    assert (ltb u.ticker_id me_max_tickers)
    (book, note) ← on_market_update u (e.ticker_order_book u.ticker_id)
    notify note book (record e {
      ticker_order_book = λ t. if t == u.ticker_id then book else e.ticker_order_book t;
    })

  -- One pass of the outer loop of `run`, over what its two queues hold when it comes to them.
  unfoldable pub run_once :
      LfQueue ClientResponse
      → LfQueue MarketUpdate
      → TradeEngine R
      → Outcome (LfQueue ClientResponse × LfQueue MarketUpdate × TradeEngine R)
  run_once incoming_responses incoming_updates e = do
    (responses, e₁) ← drain engine_on_order_update incoming_responses e
    (updates, e₂) ← drain engine_on_market_update incoming_updates e₁
    done (responses, updates, e₂)

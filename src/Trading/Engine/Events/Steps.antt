-- ===== src/Trading/Engine/Events/Steps.antt =====
-- trading/strategy/trade_engine.cpp: what one event does.
use hft_system.Base.{ℕ, ◌+◌, ◌^◌, ◌<◌, ◌≡◌, refl, sym, ◌∙◌, [], arith, append-nil, done}
use hft_system.Common.Types.{Side}
use hft_system.Common.AlgoTypes.{AlgoType}
use hft_system.Trading.Doubles.{Doubles}
use hft_system.Trading.Positions.{position_update_bbo}
use hft_system.Trading.Positions.Fills.{size}
use hft_system.Trading.Features.{update_agg_ratio}
use hft_system.Trading.Strategies.{TradeEngineCfg}
use hft_system.Trading.Engine.{
  TradeEngine, engine_on_order_book_update, engine_on_trade_update, engine_on_order_update,
}
use hft_system.Trading.Engine.Passive.{update_bbo-done, update_mkt_price-done, at_position-keeps}
use hft_system.Trading.Engine.Events.{
  Event, qty_of, IsHandled, on_event, Step, signed_qty-zero, keep_fill-done,
}
use hft_system.Trading.Engine.Events.Asks.{
  algo_on_book-done, algo_on_trade-done, algo_on_response-done,
}

module _ {R : Type 0} ⦃d : Doubles R⦄ (client_id : ℕ) (algo_type : AlgoType)
    (ticker_cfg : ℕ → TradeEngineCfg R) where
  -- An event with an instrument in range and values in 64 bits, whose position has a size below 2 ^ 31
  -- together with what is filled, is handled, whatever the algorithm.
  pub on_event-Step :
      (ev : Event) (e : TradeEngine R)
      → IsHandled ev
      → ((t : ℕ) → size (e.position_keeper t).position + qty_of t ev < 2 ^ 31)
      → (e' : TradeEngine R) × (on_event client_id algo_type ticker_cfg ev e ≡ done e')
        × Step client_id algo_type ticker_cfg ev e e'
  unfolding on_event engine_on_order_update engine_on_order_book_update engine_on_trade_update
  on_event-Step (Event.response r) e (known, priced) small =
      let (k, kept, moves) =
        keep_fill-done r.type r e.position_keeper known priced (small r.ticker_id) in
      let (m', ok, sent, next) =
        algo_on_response-done client_id algo_type ticker_cfg algo_type r
          (record e { position_keeper = k }) known in
      (
        record e { position_keeper = k; order_manager = m' },
        rw (kept, ok) refl,
        record {
          asks = record { requests = []; says = sent ∙ sym (append-nil _); numbered = next };
          moves = moves;
        },
      )
  on_event-Step (Event.book_update t book) e (known, fits) small =
      let (p, ok, same) =
        update_bbo-done book.bbo (e.position_keeper t) fits (ground (arith, small t)) in
      let (k, ok', keeps) =
        at_position-keeps t (position_update_bbo book.bbo) e.position_keeper p known ok
          same.position in
      let (f, ok₂) = update_mkt_price-done book.bbo e.feature_engine fits in
      let (m', sends, asks) =
        algo_on_book-done client_id algo_type ticker_cfg algo_type t book.bbo
          (record e { position_keeper = k; feature_engine = f }) known fits in
      (
        record e { position_keeper = k; feature_engine = f; order_manager = m' },
        rw (ok', ok₂, sends) refl,
        record {
          asks = asks;
          moves = λ u. keeps u ∙ signed_qty-zero (e.position_keeper u).position Side.invalid;
        },
      )
  on_event-Step (Event.trade u book) e known small =
      let f = update_agg_ratio u book.bbo e.feature_engine in
      let (m', sends, asks) =
        algo_on_trade-done client_id algo_type ticker_cfg algo_type u book.bbo
          (record e { feature_engine = f }) known in
      (
        record e { feature_engine = f; order_manager = m' },
        rw sends refl,
        record {
          asks = asks;
          moves = λ t. signed_qty-zero (e.position_keeper t).position Side.invalid;
        },
      )

-- ===== src/Trading/Engine/Events.antt =====
-- trading/strategy/trade_engine.cpp: what a response, a change of a book or a trade does to the requests
-- and the positions.
pub mod Asks
pub mod Steps
use hft_system.Base.{
  ℕ, ◌+◌, ◌^◌, ◌≤◌, ◌<◌, ◌≡◌, refl, sym, ap, ◌∙◌, subst, true, ◌&&◌, List, [], ◌∷◌, ◌++◌, arith,
  ltb, ◌==◌, if◌then◌else◌, append-nil, append_assoc, Bool-cases, inl, inr, Outcome, done, ◌>>=◌,
}
use hft_system.Base.Int.{ℤ, pos, ◌+ℤ◌, int_laws}
use hft_system.Common.Types.{Side, me_max_tickers, price_invalid}
use hft_system.Common.AlgoTypes.{AlgoType}
use hft_system.Common.Ring.{All}
use hft_system.MarketData.Updates.{MarketUpdate}
use hft_system.OrderFlow.Server.{ClientRequestType, ClientRequest}
use hft_system.OrderFlow.Responses.{ClientResponseType, ClientResponse}
use hft_system.OrderBook.Market.{Bbo, MarketOrderBook}
use hft_system.Trading.OrderManager.{OrderManager, RiskCheckResult}
use hft_system.Trading.OrderManager.Requests.{
  after, IsNumbered, Sends, Sends-refl, move_orders-Sends, on_order_update-done,
}
use hft_system.Trading.Doubles.{Doubles}
use hft_system.Trading.Positions.{
  PositionKeeper, PositionInfo, at_position, add_fill, position_update_bbo, both_valid,
}
use hft_system.Trading.Positions.Fills.{
  size, IsPriced, signed_qty, size-signed_qty, int64-done, add_fill-moves,
}
use hft_system.Trading.Features.{update_agg_ratio}
use hft_system.Trading.Strategies.{
  TradeEngineCfg, take_liquidity, maker_on_order_book_update, taker_on_trade_update,
}
use hft_system.Trading.Engine.{
  TradeEngine, risk_check, engine_on_order_book_update, engine_on_trade_update,
  engine_on_order_update, keep_fill, algo_on_order_book_update, algo_on_trade_update,
  algo_on_order_update,
}
use hft_system.Trading.Engine.Passive.{
  Fits, update_bbo-done, update_mkt_price-done, at_position-keeps, fits-step_back,
}

-- A call of one of the engine's three handlers.
pub data Event : Type 0 where
  response : ClientResponse → Event
  book_update : ℕ → MarketOrderBook → Event
  trade : MarketUpdate → MarketOrderBook → Event

abbrev filled_qty : ClientResponseType → ℕ → ClientResponse → ℕ
filled_qty ClientResponseType.filled t r = if t == r.ticker_id then r.exec_qty else 0
filled_qty ClientResponseType.accepted t r = 0
filled_qty ClientResponseType.canceled t r = 0
filled_qty ClientResponseType.cancel_rejected t r = 0
filled_qty ClientResponseType.invalid t r = 0

-- What an event fills of an instrument.
abbrev pub qty_of : ℕ → Event → ℕ
qty_of t (Event.response r) = filled_qty r.type t r
qty_of t (Event.book_update u book) = 0
qty_of t (Event.trade u book) = 0

abbrev pub traded_of : ℕ → List Event → ℕ
traded_of t [] = 0
traded_of t (ev ∷ evs) = qty_of t ev + traded_of t evs

abbrev pub side_of : Event → Side
side_of (Event.response r) = r.side
side_of (Event.book_update u book) = Side.invalid
side_of (Event.trade u book) = Side.invalid

-- What an event adds to the position of an instrument.
abbrev pub moved_of : ℕ → Event → ℤ
moved_of t ev = signed_qty (side_of ev) (qty_of t ev)

abbrev IsPricedAs : ClientResponseType → ClientResponse → Type 0
IsPricedAs ClientResponseType.filled r = IsPriced r
IsPricedAs ClientResponseType.accepted r = Unit
IsPricedAs ClientResponseType.canceled r = Unit
IsPricedAs ClientResponseType.cancel_rejected r = Unit
IsPricedAs ClientResponseType.invalid r = Unit

-- An instrument in range, and values in 64 bits.
abbrev pub IsHandled : Event → Type 0
IsHandled (Event.response r) = (r.ticker_id < me_max_tickers) × IsPricedAs r.type r
IsHandled (Event.book_update t book) = (t < me_max_tickers) × Fits book.bbo
IsHandled (Event.trade u book) = u.ticker_id < me_max_tickers

pub signed_qty-zero : (p : ℤ) (side : Side) → p ≡ p +ℤ signed_qty side 0
signed_qty-zero p Side.buy = omega (int_laws)
signed_qty-zero p Side.sell = omega (int_laws)
signed_qty-zero p Side.invalid = omega (int_laws)

module _ {R : Type 0} ⦃d : Doubles R⦄ where
  pub keep_fill-done :
      (type : ClientResponseType) (r : ClientResponse) (k : PositionKeeper R)
      → r.ticker_id < me_max_tickers
      → IsPricedAs type r
      → size (k r.ticker_id).position + filled_qty type r.ticker_id r < 2 ^ 31
      → (k' : PositionKeeper R) × (keep_fill type r k ≡ done k')
        × ((t : ℕ) → (k' t).position ≡ (k t).position +ℤ signed_qty r.side (filled_qty type t r))
  unfolding keep_fill at_position
  keep_fill-done ClientResponseType.filled r k known priced small =
      let found : ltb r.ticker_id me_max_tickers ≡ true = ground (arith, known) in
      let (p, ok, position, _, _, _) =
        add_fill-moves r (k r.ticker_id) (ground (arith, small)) priced in
      (
        λ u. if u == r.ticker_id then p else k u,
        rw (found, ok) refl,
        λ t. ground (arith, position, signed_qty-zero (k t).position r.side),
      )
  keep_fill-done ClientResponseType.accepted r k known priced small =
      (k, refl, λ t. signed_qty-zero (k t).position r.side)
  keep_fill-done ClientResponseType.canceled r k known priced small =
      (k, refl, λ t. signed_qty-zero (k t).position r.side)
  keep_fill-done ClientResponseType.cancel_rejected r k known priced small =
      (k, refl, λ t. signed_qty-zero (k t).position r.side)
  keep_fill-done ClientResponseType.invalid r k known priced small =
      (k, refl, λ t. signed_qty-zero (k t).position r.side)

module _ {R : Type 0} ⦃d : Doubles R⦄ (client_id : ℕ) (algo_type : AlgoType)
    (ticker_cfg : ℕ → TradeEngineCfg R) where
  -- One event, as its handler takes it.
  unfoldable pub on_event : Event → TradeEngine R → Outcome (TradeEngine R)
  on_event (Event.response r) e = engine_on_order_update client_id algo_type ticker_cfg r e
  on_event (Event.book_update t book) e =
      engine_on_order_book_update client_id algo_type ticker_cfg t book e
  on_event (Event.trade u book) e = engine_on_trade_update client_id algo_type ticker_cfg u book e

  -- What an event does: the requests it adds passed the risk check on the positions it leaves.
  pub record Step (ev : Event) (e e' : TradeEngine R) : Type 0 where
    pub asks :
        Sends client_id (risk_check ticker_cfg e'.position_keeper) e.order_manager e'.order_manager
    pub moves :
        (t : ℕ) → (e'.position_keeper t).position ≡ (e.position_keeper t).position +ℤ moved_of t ev

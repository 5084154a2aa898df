-- ===== src/Trading/Engine/Orders.antt =====
-- trading/strategy/trade_engine.cpp: what each call from a book or from the gateway sends, and what it
-- does to the positions.
use hft_system.Base.{
  ℕ, ◌+◌, ◌^◌, ◌≤◌, ◌<◌, ◌≡◌, refl, ap, true, ◌&&◌, List, ◌++◌, arith, ltb, ◌==◌, if◌then◌else◌,
  inl, inr, ◌⊎◌, done,
}
use hft_system.Base.Int.{pos, ◌+ℤ◌, ◌*ℤ◌}
use hft_system.Common.Types.{me_max_tickers, side_to_index}
use hft_system.Common.AlgoTypes.{AlgoType}
use hft_system.Common.Ring.{All}
use hft_system.OrderFlow.Server.{ClientRequest}
use hft_system.OrderFlow.Responses.{ClientResponseType, ClientResponse}
use hft_system.OrderBook.Market.{MarketOrderBook}
use hft_system.Trading.OrderManager.{OmOrder, on_order_update, filled, updated, set_slot}
use hft_system.Trading.Doubles.{Doubles}
use hft_system.Trading.Positions.{
  PositionKeeper, PositionInfo, at_position, add_fill, position_update_bbo,
}
use hft_system.Trading.Positions.Fills.{size, IsInt64, signed_qty, add_fill-moves}
use hft_system.Trading.Strategies.{TradeEngineCfg}
use hft_system.Trading.Engine.{
  TradeEngine, engine_on_order_book_update, engine_on_order_update, keep_fill,
  algo_on_order_book_update, algo_on_order_update,
}
use hft_system.Trading.Engine.Passive.{
  Fits, IsPassive, IsLimited, maker-Asks, update_bbo-done, update_mkt_price-done, at_position-keeps,
}

updated-filled :
    (type : ClientResponseType) (leaves_qty : ℕ) (o : OmOrder)
    → type ≡ ClientResponseType.filled
    → updated type leaves_qty o ≡ filled leaves_qty o
unfolding updated
updated-filled type leaves_qty o e = rw e refl

module _ {R : Type 0} ⦃d : Doubles R⦄ (client_id : ℕ) (ticker_cfg : ℕ → TradeEngineCfg R)
    (e : TradeEngine R) (book : MarketOrderBook) where
  -- With an instrument in range whose best prices and quantities keep the computed values in 64 bits, whose
  -- position has a size below 2 ^ 31, and a largest order below 2 ^ 31, the maker's engine returns from a
  -- change of the book. Each request that it adds is a cancel of this client or a new order of the
  -- instrument, for the configured quantity, at a price no better than the best one of its side, within the
  -- limits of the order's size, the position and the loss. No position changes.
  pub engine_on_order_book_update-IsPassive :
      (t : ℕ)
      → t < me_max_tickers
      → Fits book.bbo
      → size (e.position_keeper t).position < 2 ^ 31
      → (ticker_cfg t).risk_cfg.max_order_size < 2 ^ 31
      → (e' : TradeEngine R) × (rs : List ClientRequest) × (engine_on_order_book_update client_id
            AlgoType.maker ticker_cfg t book e
          ≡ done e')
        × (e'.order_manager.sent ≡ e.order_manager.sent ++ rs)
        × All
            (λ r. IsLimited client_id ticker_cfg e'.position_keeper t (IsPassive book.bbo) r.type r)
            rs
        × ((u : ℕ) → (e'.position_keeper u).position ≡ (e.position_keeper u).position)
  unfolding engine_on_order_book_update algo_on_order_book_update
  engine_on_order_book_update-IsPassive t known fits small short =
      let (p, ok, same) = update_bbo-done book.bbo (e.position_keeper t) fits small in
      let (k, ok', keeps) =
        at_position-keeps t (position_update_bbo book.bbo) e.position_keeper p known ok
          same.position in
      let (f, ok₂) = update_mkt_price-done book.bbo e.feature_engine fits in
      let small' : size (k t).position ≤ 2 ^ 31 = omega (arith, small, ap size (keeps t)) in
      let (m', rs, sends, says, all) =
        maker-Asks client_id ticker_cfg k t book.bbo e.order_manager known short small' f.mkt_price
          fits in
      (
        record e { position_keeper = k; feature_engine = f; order_manager = m' },
        rs,
        rw (ok', ok₂, sends) refl,
        says,
        all,
        keeps,
      )

module _ {R : Type 0} ⦃d : Doubles R⦄ (client_id : ℕ) (ticker_cfg : ℕ → TradeEngineCfg R)
    (e : TradeEngine R) where
  keep_fill-filled :
      (type : ClientResponseType) (r : ClientResponse) (p : PositionInfo R) (k : PositionKeeper R)
      → type ≡ ClientResponseType.filled
      → r.ticker_id < me_max_tickers
      → add_fill r (k r.ticker_id) ≡ done p
      → keep_fill type r k ≡ done (λ u. if u == r.ticker_id then p else k u)
  unfolding keep_fill at_position
  keep_fill-filled type r p k e known ok =
      let found : ltb r.ticker_id me_max_tickers ≡ true = ground (arith, known) in
      rw (e, found, ok) refl

  -- A fill for an instrument in range, of price times quantity in 64 bits, from a position whose size is
  -- below 2 ^ 31 together with the quantity, is taken by the maker's and the taker's engine. It adds the
  -- quantity with the side's sign to the position of the instrument and to no other. Of the orders it
  -- changes only that instrument's and side's: its quantity is what is left, and its state is dead if
  -- nothing is left and stays as it was otherwise. Nothing is sent.
  pub engine_on_order_update-fills :
      (algo_type : AlgoType) (r : ClientResponse)
      → (algo_type ≡ AlgoType.maker) ⊎ (algo_type ≡ AlgoType.taker)
      → r.type ≡ ClientResponseType.filled
      → r.ticker_id < me_max_tickers
      → size (e.position_keeper r.ticker_id).position + r.exec_qty < 2 ^ 31
      → IsInt64 (r.price *ℤ pos r.exec_qty)
      → (e' : TradeEngine R) × (engine_on_order_update client_id algo_type ticker_cfg r e ≡ done e')
        × ((u : ℕ)
            → (e'.position_keeper u).position ≡ (
                if u == r.ticker_id
                then (e.position_keeper u).position +ℤ signed_qty r.side r.exec_qty
                else (e.position_keeper u).position))
        × ((u i : ℕ)
            → e'.order_manager.ticker_side_order u i ≡ (
                if (u == r.ticker_id) && (i == side_to_index r.side)
                then filled r.leaves_qty
                    (e.order_manager.ticker_side_order r.ticker_id (side_to_index r.side))
                else e.order_manager.ticker_side_order u i))
        × (e'.order_manager.sent ≡ e.order_manager.sent)
  unfolding engine_on_order_update algo_on_order_update on_order_update
  engine_on_order_update-fills algo_type r kind type known small fits =
      let found : ltb r.ticker_id me_max_tickers ≡ true = ground (arith, known) in
      let t = r.ticker_id in
      let (p, ok, position, volume, real, total) =
        add_fill-moves r (e.position_keeper t) small fits in
      let i = side_to_index r.side in
      let k : PositionKeeper R = λ u. if u == t then p else e.position_keeper u in
      let o = e.order_manager.ticker_side_order t i in
      let becomes : updated r.type r.leaves_qty o ≡ filled r.leaves_qty o =
        updated-filled r.type r.leaves_qty o type in
      let kept = keep_fill-filled r.type r p e.position_keeper type known ok in
      let m =
        set_slot t i (filled r.leaves_qty (e.order_manager.ticker_side_order t i))
          e.order_manager in
      (
        record e { position_keeper = k; order_manager = m },
        elim kind [
          | inl maker ↦ rw (maker, kept, found, becomes) refl
          | inr taker ↦ rw (taker, kept, found, becomes) refl
        ],
        λ u. ground (arith, position),
        λ u j. refl,
        refl,
      )

-- ===== src/Trading/RunTests.antt =====
-- A maker that quotes, has its bid filled, and quotes again after it saw a trade.
use hft_system.Base.{ℕ, ◌+◌, ◌^◌, ◌<◌, ◌≡◌, List, [], ◌∷◌, ◌++◌, arith, done, Option}
use hft_system.Base.Int.{ℤ, pos, ◌+ℤ◌, ◌*ℤ◌}
use hft_system.Common.Types.{Side}
use hft_system.Common.AlgoTypes.{AlgoType}
use hft_system.MarketData.Updates.{MarketUpdateType, MarketUpdate}
use hft_system.OrderFlow.Server.{ClientRequest}
use hft_system.Trading.Engine.{TradeEngine}
use hft_system.Trading.Engine.Events.{Event, traded_of}
use hft_system.Trading.Engine.Runs.{net_of, run, Runs, run-IsNumbered}
use hft_system.Trading.EngineTests.{halves, cfg, quoted_book, engine, quoted_book-Fits, bid_filled}

abbrev sold : MarketUpdate
sold = record {
  type = MarketUpdateType.trade;
  order_id = 9;
  ticker_id = 2;
  side = Side.sell;
  price = pos 100;
  qty = 4;
  priority = 1;
}

abbrev events : List Event
events =
    Event.book_update 2 quoted_book
    ∷ Event.response bid_filled
    ∷ Event.trade sold quoted_book
    ∷ Event.book_update 2 quoted_book
    ∷ []

events-small : (t : ℕ) → 3 + traded_of t events < 2 ^ 31
events-small t = ground arith

run-IsNumbered_example :
    (e' : TradeEngine (Option ℤ)) × (rs : List ClientRequest) × (run 6 AlgoType.maker cfg events
        engine
      ≡ done e')
    × (e'.order_manager.sent ≡ [] ++ rs)
    × Runs 6 AlgoType.maker cfg events engine rs e'
    × ((t : ℕ) → (e'.position_keeper t).position ≡ pos 3 +ℤ net_of t events)
unfolding ◌*ℤ◌
run-IsNumbered_example =
    run-IsNumbered 6 AlgoType.maker cfg events engine
      (
        (omega arith, quoted_book-Fits),
        (
          (omega arith, (omega arith, omega arith)),
          (omega arith, ((omega arith, quoted_book-Fits), tt)),
        ),
      )
      events-small

-- ===== src/Exchange/Matching.antt =====
-- exchange/matcher/me_order_book.cpp: `match`, `checkForMatch`, `add` and `cancel`.
pub mod Steps
pub mod Fill
pub mod Loop
pub mod Enough
use hft_system.Base.{
  ℕ, zero, suc, ◌+◌, ◌-◌, ◌%◌, ◌^◌, ◌≡◌, Bool, true, false, ◌&&◌, Option, none, some, List, [], ◌∷◌,
  ◌++◌, ◌==◌, ltb, if◌then◌else◌, length, Outcome, done, exits, undefined, ◌>>=◌, defined,
}
use hft_system.Base.Int.{ℤ, ltb_ℤ}
use hft_system.Common.Types.{
  Side, me_max_num_clients, me_max_order_ids, order_id_invalid, price_invalid, qty_invalid,
  priority_invalid,
}
use hft_system.Common.MemPool.{MemPool, load, modify, allocate}
use hft_system.MarketData.Updates.{MarketUpdateType, MarketUpdate}
use hft_system.OrderFlow.Responses.{ClientResponseType, ClientResponse}
use hft_system.OrderBook.Levels.{OrdersAtPrice}
use hft_system.OrderBook.Orders.{Book}
use hft_system.Exchange.MeOrderBook.{
  MeOrder, MeOrderBook, generate_new_market_order_id, get_next_priority, me_add_order,
  me_remove_order, send_client_response, send_market_update, respond, publish,
}

-- The order that comes in, as `match` is told of it.
pub record Taker : Type 0 where
  pub ticker_id : ℕ
  pub client_id : ℕ
  pub side : Side
  pub client_order_id : ℕ
  pub new_market_order_id : ℕ

abbrev pub set_qty : ℕ → MeOrder → MeOrder
set_qty qty o = record o { qty = qty }

-- `std::min(*leaves_qty, order_qty)`
abbrev pub fill_of : ℕ → ℕ → ℕ
fill_of leaves_qty order_qty = if ltb order_qty leaves_qty then order_qty else leaves_qty

abbrev pub filled_taker : Taker → MeOrder → ℕ → ℕ → ClientResponse
filled_taker t order fill_qty leaves_qty = record {
  type = ClientResponseType.filled;
  client_id = t.client_id;
  ticker_id = t.ticker_id;
  client_order_id = t.client_order_id;
  market_order_id = t.new_market_order_id;
  side = t.side;
  price = order.price;
  exec_qty = fill_qty;
  leaves_qty = leaves_qty;
}

abbrev pub filled_order : Taker → MeOrder → ℕ → ℕ → ClientResponse
filled_order t order fill_qty leaves_qty = record {
  type = ClientResponseType.filled;
  client_id = order.client_id;
  ticker_id = t.ticker_id;
  client_order_id = order.client_order_id;
  market_order_id = order.market_order_id;
  side = order.side;
  price = order.price;
  exec_qty = fill_qty;
  leaves_qty = leaves_qty;
}

abbrev pub traded : Taker → MeOrder → ℕ → MarketUpdate
traded t order fill_qty = record {
  type = MarketUpdateType.trade;
  order_id = order_id_invalid;
  ticker_id = t.ticker_id;
  side = t.side;
  price = order.price;
  qty = fill_qty;
  priority = priority_invalid;
}

abbrev pub exhausted : Taker → MeOrder → ℕ → MarketUpdate
exhausted t order order_qty = record {
  type = MarketUpdateType.cancel;
  order_id = order.market_order_id;
  ticker_id = t.ticker_id;
  side = order.side;
  price = order.price;
  qty = order_qty;
  priority = priority_invalid;
}

abbrev pub reduced : Taker → MeOrder → ℕ → MarketUpdate
reduced t order rest = record {
  type = MarketUpdateType.modify;
  order_id = order.market_order_id;
  ticker_id = t.ticker_id;
  side = order.side;
  price = order.price;
  qty = rest;
  priority = order.priority;
}

-- The messages of a fill that both branches send.
abbrev pub report : Taker → MeOrder → ℕ → ℕ → ℕ → MeOrderBook → MeOrderBook
report t order fill_qty leaves_qty rest m = publish (traded t order fill_qty) (
    respond (filled_order t order fill_qty rest)
      (respond (filled_taker t order fill_qty leaves_qty) m))

-- What is left of the order that comes in, and the book after one fill.
unfoldable pub match_order : Taker → ℕ → ℕ → MeOrderBook → Outcome (ℕ × MeOrderBook)
match_order t itr leaves_qty m = do
  order ← load (some itr) m.book.order_pool
  let fill_qty = fill_of leaves_qty order.qty
  let left = leaves_qty - fill_qty
  let rest = order.qty - fill_qty
  p ← modify (some itr) (set_qty rest) m.book.order_pool
  let m₁ = report t order fill_qty left rest (record m { book = record m.book { order_pool = p } })
  if rest == 0
      then (do
        b ← me_remove_order itr m₁.book
        done (left, record (publish (exhausted t order order.qty) m₁) { book = b }))
      else done (left, publish (reduced t order rest) m₁)

-- `asks_by_price_` for an order to buy, `bids_by_price_` for one to sell.
abbrev pub facing : Side → Book MeOrder (ℕ × ℕ) → Option ℕ
facing Side.buy b = b.levels.asks_by_price
facing Side.sell b = b.levels.bids_by_price
facing Side.invalid b = none

-- Whether the best order of the other side is out of reach.
abbrev pub out_of_reach : Side → ℤ → ℤ → Bool
out_of_reach Side.buy price best = ltb_ℤ price best
out_of_reach Side.sell price best = ltb_ℤ best price
out_of_reach Side.invalid price best = true

-- The loop of a side. Each turn but the last takes an order out of the book, so that the pool has fuel
-- for all of them.
unfoldable pub match_loop : ℕ → Taker → ℤ → ℕ → MeOrderBook → Outcome (ℕ × MeOrderBook)
match_loop zero t price leaves_qty m = undefined
match_loop (suc fuel) t price leaves_qty m =
    if leaves_qty == 0 then done (leaves_qty, m) else elim (facing t.side m.book) [
      | none ↦ done (leaves_qty, m)
      | some best ↦ load (some best) m.book.levels.pool >>= λ level.
          defined level.first_order >>= λ itr. load (some itr) m.book.order_pool >>= λ order.
          if out_of_reach t.side price order.price
          then done (leaves_qty, m)
          else (match_order t itr leaves_qty m >>= λ r. match_loop fuel t price r.0 r.1)
    ]

-- The market's number for the new order is passed as a `Qty`, of 32 bits.
unfoldable pub check_for_match :
    ℕ → ℕ → ℕ → Side → ℤ → ℕ → ℕ → MeOrderBook → Outcome (ℕ × MeOrderBook)
check_for_match client_id client_order_id ticker_id side price qty new_market_order_id m =
    match_loop (suc (length m.book.order_pool.store))
      (record {
        ticker_id = ticker_id;
        client_id = client_id;
        side = side;
        client_order_id = client_order_id;
        new_market_order_id = new_market_order_id % 2 ^ 32;
      })
      price qty m

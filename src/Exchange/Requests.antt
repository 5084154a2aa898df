-- ===== src/Exchange/Requests.antt =====
-- exchange/matcher/me_order_book.cpp, `add` and `cancel`, and matching_engine.h,
-- `processClientRequest`: what a client's request does.
pub mod Cancel
pub mod Add
mod Passes
use hft_system.Base.{
  ℕ, ◌+◌, ◌%◌, ◌^◌, Bool, true, false, Option, none, some, List, [], ◌∷◌, ◌++◌, ◌==◌, ltb,
  if◌then◌else◌, Outcome, defined, done, exits, undefined, ◌>>=◌,
}
use hft_system.Base.Int.{ℤ}
use hft_system.Common.Types.{
  Side, me_max_tickers, me_max_num_clients, me_max_order_ids, order_id_invalid, price_invalid,
  qty_invalid,
}
use hft_system.Common.MemPool.{load, allocate}
use hft_system.MarketData.Updates.{MarketUpdateType, MarketUpdate}
use hft_system.OrderFlow.Server.{ClientRequestType, ClientRequest, assign}
use hft_system.OrderFlow.Responses.{ClientResponseType, ClientResponse}
use hft_system.OrderBook.Orders.{Book}
use hft_system.Exchange.MeOrderBook.{
  MeOrder, MeOrderBook, Sent, generate_new_market_order_id, get_next_priority, me_add_order,
  me_remove_order, send_client_response, send_market_update, respond, publish,
}
use hft_system.Exchange.Matching.{check_for_match}

-- What is left of a new order rests in the book. The update goes out twice, and between the two the order
-- `exchange_order` is removed. The source declares no such variable in `add`: it is a parameter.
unfoldable pub rest_order :
    Option ℕ → ℕ → ℕ → ℕ → ℕ → Side → ℤ → ℕ → MeOrderBook → Outcome MeOrderBook
rest_order exchange_order client_id client_order_id ticker_id market_order_id side price leaves_qty
      m =
    do
      priority ← get_next_priority price m.book
      (order, p) ←
          allocate
            (record {
              ticker_id = ticker_id;
              client_id = client_id;
              client_order_id = client_order_id;
              market_order_id = market_order_id;
              side = side;
              price = price;
              qty = leaves_qty;
              priority = priority;
              prev_order = none;
              next_order = none;
            })
            m.book.order_pool
      b ← me_add_order order (record m.book { order_pool = p })
      let m₁ =
          publish
            (record {
              type = MarketUpdateType.add;
              order_id = market_order_id;
              ticker_id = ticker_id;
              side = side;
              price = price;
              qty = leaves_qty;
              priority = priority;
            })
            (record m { book = b })
      i ← defined exchange_order
      b' ← me_remove_order i m₁.book
      done (send_market_update (record m₁ { book = b' }))

-- The last response made goes out once more at the end.
unfoldable pub add : Option ℕ → ℕ → ℕ → ℕ → Side → ℤ → ℕ → MeOrderBook → Outcome MeOrderBook
add exchange_order client_id client_order_id ticker_id side price qty m =
    let (market_order_id, m₁) = generate_new_market_order_id m in
    let m₂ =
      respond
        (record {
          type = ClientResponseType.accepted;
          client_id = client_id;
          ticker_id = ticker_id;
          client_order_id = client_order_id;
          market_order_id = market_order_id;
          side = side;
          price = price;
          exec_qty = 0;
          leaves_qty = qty;
        })
        m₁ in
    check_for_match client_id client_order_id ticker_id side price qty market_order_id m₂ >>= λ r.
    if r.0 == 0
    then done (send_client_response r.1)
    else (rest_order exchange_order client_id client_order_id ticker_id market_order_id side price
          r.0 r.1
        >>= λ m₃. done (send_client_response m₃))

-- The order of a client by its own number. A client beyond the array has none; an order number beyond
-- it throws, which ends a `noexcept` function's process.
unfoldable pub cancelable : ℕ → ℕ → Book MeOrder (ℕ × ℕ) → Outcome (Option ℕ)
cancelable client_id order_id b =
    if ltb client_id me_max_num_clients
    then (if ltb order_id me_max_order_ids
        then done (b.oid_to_order (client_id, order_id))
        else exits)
    else done none

abbrev pub cancel_rejected : ℕ → ℕ → ℕ → ClientResponse
cancel_rejected client_id order_id ticker_id = record {
  type = ClientResponseType.cancel_rejected;
  client_id = client_id;
  ticker_id = ticker_id;
  client_order_id = order_id;
  market_order_id = order_id_invalid;
  side = Side.invalid;
  price = price_invalid;
  exec_qty = qty_invalid;
  leaves_qty = qty_invalid;
}

abbrev pub canceled : ℕ → ℕ → ℕ → MeOrder → ClientResponse
canceled client_id order_id ticker_id order = record {
  type = ClientResponseType.canceled;
  client_id = client_id;
  ticker_id = ticker_id;
  client_order_id = order_id;
  market_order_id = order.market_order_id;
  side = order.side;
  price = order.price;
  exec_qty = qty_invalid;
  leaves_qty = order.qty;
}

abbrev pub withdrawn : ℕ → MeOrder → MarketUpdate
withdrawn ticker_id order = record {
  type = MarketUpdateType.cancel;
  order_id = order.market_order_id;
  ticker_id = ticker_id;
  side = order.side;
  price = order.price;
  qty = 0;
  priority = order.priority;
}

unfoldable pub cancel : ℕ → ℕ → ℕ → MeOrderBook → Outcome MeOrderBook
cancel client_id order_id ticker_id m = do
  exchange_order ← cancelable client_id order_id m.book
  elim exchange_order [
    | none ↦ done (respond (cancel_rejected client_id order_id ticker_id) m)
    | some i ↦ load (some i) m.book.order_pool >>= λ order. me_remove_order i m.book >>= λ b. done (
        respond (canceled client_id order_id ticker_id order)
          (publish (withdrawn ticker_id order) (record m { book = b })))
  ]

-- `ticker_order_book_`, a book for each instrument. An index beyond the array is undefined. What `add`
-- means by `exchange_order` is a parameter here too.
pub record MatchingEngine : Type 0 where
  pub ticker_order_book : ℕ → MeOrderBook

unfoldable pub process_client_request :
    (ClientRequest → MeOrderBook → Option ℕ)
    → ClientRequest
    → MatchingEngine
    → Outcome MatchingEngine
process_client_request exchange_order r e =
    let on_book : Outcome MeOrderBook → Outcome MatchingEngine = λ after. after >>= λ m.
    done (record { ticker_order_book = assign e.ticker_order_book r.ticker_id m }) in
    let m = e.ticker_order_book r.ticker_id in
    if ltb r.ticker_id me_max_tickers
    then elim r.type [
      | ClientRequestType.new ↦
          on_book
            (add (exchange_order r m) r.client_id r.order_id r.ticker_id r.side r.price r.qty m)
      | ClientRequestType.cancel ↦ on_book (cancel r.client_id r.order_id r.ticker_id m)
      | ClientRequestType.invalid ↦ exits
    ]
    else undefined

-- ===== src/Exchange/Tests.antt =====
-- A book of two asks at 103, one at 105 and a bid at 100.
use hft_system.Base.{ℕ, ◌+◌, ◌≡◌, ◌⊎◌, refl, none, some, List, [], ◌∷◌, ◌++◌, arith, done, false}
use hft_system.Base.Int.{pos}
use hft_system.Common.Types.{Side, order_id_invalid, price_invalid, qty_invalid}
use hft_system.MarketData.Updates.{MarketUpdateType}
use hft_system.OrderFlow.Responses.{ClientResponseType}
use hft_system.OrderBook.Orders.Queues.{Queue, IsOrderBook}
use hft_system.OrderBook.Orders.Remove.{Deletes}
use hft_system.Exchange.MeOrderBook.{MeOrder, me_order_node, client_order, MeOrderBook, Sent}
use hft_system.Exchange.Matching.{check_for_match}
use hft_system.Exchange.Matching.Steps.{Matches, crosses, depth}
use hft_system.Exchange.Matching.Enough.{taker, check_for_match-Matches}
use hft_system.Exchange.Requests.{add, cancel, canceled, withdrawn}
use hft_system.Exchange.Requests.Add.{new_order, accepted, added, next_priority, add-rests}
use hft_system.Exchange.Requests.Cancel.{cancel-cancels, cancel-refuses_again}
use hft_system.Exchange.Samples.{
  order, exchange_book, item, first_ask, second_ask, asks, bids, sell_valid, buy_valid,
  book-IsOrderBook,
}

check_for_match-Matches_example :
    (left : ℕ) × (m' : MeOrderBook) × (rest : List (Queue MeOrder)) × (sent : List Sent)
    × (check_for_match 5 9 3 Side.buy (pos 104) 6 24 exchange_book ≡ done (left, m'))
    × Matches (taker 5 9 3 Side.buy 24) (pos 104) 6 asks sent left rest
    × IsOrderBook m'.book Side.sell rest bids
    × (m'.sent ≡ [] ++ sent)
    × ((left ≡ 0) ⊎ (crosses (taker 5 9 3 Side.buy 24) (pos 104) rest ≡ false))
    × (6 + depth rest ≡ left + depth asks)
check_for_match-Matches_example =
    check_for_match-Matches 5 9 3 Side.buy (pos 104) 6 24 exchange_book asks bids buy_valid
      book-IsOrderBook

-- The first asks with the new order behind them.
abbrev with_new : Queue MeOrder
with_new = record first_ask {
  tail =
      first_ask.tail
      ++ item 4 (new_order 5 9 3 24 Side.sell (pos 103) 6 (next_priority first_ask)) ∷ [];
}

add-rests_example :
    (m' : MeOrderBook) × (add (some 1) 5 9 3 Side.sell (pos 103) 6 exchange_book ≡ done m')
    × IsOrderBook m'.book Side.sell
        (record first_ask {
          tail = item 4 (new_order 5 9 3 24 Side.sell (pos 103) 6 (next_priority first_ask)) ∷ [];
        }
          ∷ second_ask
          ∷ [])
        bids
    × (m'.next_market_order_id ≡ 25)
    × (let o = new_order 5 9 3 24 Side.sell (pos 103) 6 (next_priority first_ask) in
        m'.sent
        ≡ []
          ++ Sent.response (accepted o)
            ∷ Sent.update (added o)
            ∷ Sent.update (added o)
            ∷ Sent.response (accepted o)
            ∷ [])
add-rests_example =
    add-rests 5 9 3 Side.sell 6 exchange_book [] first_ask (second_ask ∷ []) bids _ (some 1)
      (item 1 (order 2 3 21 Side.sell 103 5)) sell_valid (omega arith) book-IsOrderBook refl refl
      (omega arith) (omega arith) (omega arith) refl
      (Deletes.inner [] with_new (second_ask ∷ []) [] (item 1 (order 2 3 21 Side.sell 103 5))
        (item 4 (new_order 5 9 3 24 Side.sell (pos 103) 6 (next_priority first_ask)) ∷ []) refl)

cancel-cancels_example :
    (m' : MeOrderBook) × (cancel 2 3 3 exchange_book ≡ done m')
    × IsOrderBook m'.book Side.sell (record first_ask { tail = [] } ∷ second_ask ∷ []) bids
    × (m'.book.oid_to_order (2, 3) ≡ none)
    × (m'.sent
        ≡ []
          ++ Sent.update (withdrawn 3 (order 2 3 21 Side.sell 103 5))
            ∷ Sent.response (canceled 2 3 3 (order 2 3 21 Side.sell 103 5))
            ∷ [])
cancel-cancels_example =
    cancel-cancels 3 exchange_book Side.sell asks _ bids (item 1 (order 2 3 21 Side.sell 103 5))
      sell_valid
      (Deletes.inner [] first_ask (second_ask ∷ []) [] (item 1 (order 2 3 21 Side.sell 103 5)) []
        refl)
      book-IsOrderBook

cancel-refuses_again_example :
    (m₁ m₂ : MeOrderBook) × (cancel 2 3 3 exchange_book ≡ done m₁)
    × (cancel 2 3 3 m₁ ≡ done m₂)
    × IsOrderBook m₂.book Side.sell (record first_ask { tail = [] } ∷ second_ask ∷ []) bids
    × (m₂.book ≡ m₁.book)
    × (m₂.sent
        ≡ []
          ++ Sent.update (record {
            type = MarketUpdateType.cancel;
            order_id = 21;
            ticker_id = 3;
            side = Side.sell;
            price = pos 103;
            qty = 0;
            priority = 1;
          })
            ∷ Sent.response (record {
              type = ClientResponseType.canceled;
              client_id = 2;
              ticker_id = 3;
              client_order_id = 3;
              market_order_id = 21;
              side = Side.sell;
              price = pos 103;
              exec_qty = qty_invalid;
              leaves_qty = 5;
            })
            ∷ Sent.response (record {
              type = ClientResponseType.cancel_rejected;
              client_id = 2;
              ticker_id = 3;
              client_order_id = 3;
              market_order_id = order_id_invalid;
              side = Side.invalid;
              price = price_invalid;
              exec_qty = qty_invalid;
              leaves_qty = qty_invalid;
            })
            ∷ [])
cancel-refuses_again_example =
    cancel-refuses_again 3 exchange_book Side.sell asks _ bids
      (item 1 (order 2 3 21 Side.sell 103 5)) sell_valid
      (Deletes.inner [] first_ask (second_ask ∷ []) [] (item 1 (order 2 3 21 Side.sell 103 5)) []
        refl)
      book-IsOrderBook

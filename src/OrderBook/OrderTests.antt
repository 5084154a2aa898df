-- ===== src/OrderBook/OrderTests.antt =====
-- A book of two bids at 100, one at 98 and an ask at 103, with one more order in the pool.
use hft_system.Base.{ℕ, ◌≡◌, refl, none, some, [], ◌∷◌, ◌++◌, arith, done, ◌==◌}
use hft_system.Base.Int.{pos}
use hft_system.Common.Types.{Side}
use hft_system.Common.MemPool.{live}
use hft_system.MarketData.Updates.{MarketUpdateType, MarketUpdate}
use hft_system.OrderBook.Levels.{get_orders_at_price, price_to_index}
use hft_system.OrderBook.Orders.{Book, entered, add_order, remove_order}
use hft_system.OrderBook.Orders.Queues.{IsOrderBook}
use hft_system.OrderBook.Orders.Away.{insert_queue}
use hft_system.OrderBook.Orders.Add.{add_order-behind}
use hft_system.OrderBook.Orders.Open.{add_order-opens}
use hft_system.OrderBook.Orders.Remove.{Deletes, remove_order-IsOrderBook}
use hft_system.OrderBook.Market.{
  MarketOrder, order_node, market_book_order, MarketOrderBook, Notification, on_market_update,
}
use hft_system.OrderBook.Orders.Changing.{Changes}
use hft_system.OrderBook.Market.Modifying.{on_market_update-modifies}
use hft_system.OrderBook.Market.Best.{shown}
use hft_system.OrderBook.Market.Refresh.{shows, IsMarketBook}
use hft_system.OrderBook.Market.Updates.{on_market_update-cancels}
use hft_system.OrderBook.Market.Adding.{
  placed_at, opened, shown_after, on_market_update-joins, on_market_update-opens,
}
use hft_system.OrderBook.Samples.{
  numbers, order, book, item, first_bid, second_bid, bids, asks, valid, book-IsOrderBook,
}

add_order-behind_example :
    (b' : Book MarketOrder ℕ) × (add_order 4 (book 98) ≡ done b')
    × IsOrderBook b' Side.buy
        (first_bid ∷ record second_bid { tail = item 4 (order 14 Side.buy 98 6) ∷ [] } ∷ [])
        asks
    × (b'.oid_to_order ≡ entered (λ j k. j == k) numbers 14 (some 4))
unfolding live
add_order-behind_example =
    add_order-behind (book 98) 4 (order 14 Side.buy 98 6) (first_bid ∷ []) second_bid [] asks valid
      (book-IsOrderBook 98) refl refl refl refl

add_order-opens_example :
    (b' : Book MarketOrder ℕ) × (add_order 4 (book 99) ≡ done b')
    × IsOrderBook b' Side.buy
        (insert_queue Side.buy
          (record { at = 3; price = pos 99; head = item 4 (order 14 Side.buy 99 6); tail = [] })
          bids)
        asks
    × (b'.oid_to_order ≡ entered (λ j k. j == k) numbers 14 (some 4))
unfolding live price_to_index get_orders_at_price
add_order-opens_example =
    add_order-opens (book 99) 4 (order 14 Side.buy 99 6) bids asks valid (book-IsOrderBook 99) refl
      (omega arith) refl (omega arith, (omega arith, tt)) (omega arith, tt) refl refl

remove_order-IsOrderBook_example :
    (b' : Book MarketOrder ℕ) × (remove_order 0 (book 98) ≡ done b')
    × IsOrderBook b' Side.buy
        (record first_bid { head = item 1 (order 11 Side.buy 100 7); tail = [] } ∷ second_bid ∷ [])
        asks
    × (live b'.order_pool 0 ≡ none)
    × (b'.oid_to_order ≡ entered (λ j k. j == k) numbers 10 none)
remove_order-IsOrderBook_example =
    remove_order-IsOrderBook (book 98) Side.buy bids _ asks first_bid.head valid
      (Deletes.head [] first_bid (second_bid ∷ []) (item 1 (order 11 Side.buy 100 7)) [] refl)
      (book-IsOrderBook 98)

abbrev market_book : MarketOrderBook
market_book = record {
  book = book 98;
  bbo = record { bid_price = pos 100; ask_price = pos 103; bid_qty = 12; ask_qty = 9 };
}

market_book-IsMarketBook : IsMarketBook market_book Side.buy bids asks
market_book-IsMarketBook = record {
  book = book-IsOrderBook 98;
  sizes = ((omega arith, (omega arith, tt)), ((omega arith, tt), tt));
  sizes_other = ((omega arith, tt), tt);
  best = refl;
  best_other = refl;
}

abbrev update : MarketUpdateType → ℕ → ℕ → ℕ → MarketUpdate
update type id price qty = record {
  type = type;
  order_id = id;
  ticker_id = 3;
  side = Side.buy;
  price = pos price;
  qty = qty;
  priority = 1;
}

on_market_update-cancels_example :
    (m' : MarketOrderBook) × (on_market_update (update MarketUpdateType.cancel 10 100 0) market_book
      ≡ done (m', Notification.order_book_update 3 (pos 100) Side.buy))
    × IsMarketBook m' Side.buy
        (record first_bid { head = item 1 (order 11 Side.buy 100 7); tail = [] } ∷ second_bid ∷ [])
        asks
on_market_update-cancels_example =
    on_market_update-cancels (update MarketUpdateType.cancel 10 100 0) market_book Side.buy bids _
      asks first_bid.head valid refl refl refl refl
      (Deletes.head [] first_bid (second_bid ∷ []) (item 1 (order 11 Side.buy 100 7)) [] refl)
      market_book-IsMarketBook

on_market_update-joins_example :
    (m' : MarketOrderBook) × (on_market_update (update MarketUpdateType.add 15 100 8) market_book
      ≡ done (m', Notification.order_book_update 3 (pos 100) Side.buy))
    × IsMarketBook m' Side.buy
        (record first_bid {
          tail = first_bid.tail ++ placed_at 5 (update MarketUpdateType.add 15 100 8) ∷ [];
        }
          ∷ second_bid
          ∷ [])
        asks
on_market_update-joins_example =
    on_market_update-joins (update MarketUpdateType.add 15 100 8) market_book [] first_bid
      (second_bid ∷ []) asks refl valid (omega arith) refl refl refl (omega arith)
      market_book-IsMarketBook

on_market_update-opens_example :
    (m' : MarketOrderBook) × (on_market_update (update MarketUpdateType.add 15 101 8) market_book
      ≡ done (m', Notification.order_book_update 3 (pos 101) Side.buy))
    × IsOrderBook m'.book Side.buy
        (insert_queue Side.buy (opened (update MarketUpdateType.add 15 101 8) market_book) bids)
        asks
    × (shows Side.buy m'.bbo
        ≡ shown_after bids
            (insert_queue Side.buy (opened (update MarketUpdateType.add 15 101 8) market_book) bids)
            (shows Side.buy market_book.bbo))
    × (shows Side.sell m'.bbo ≡ shown asks)
unfolding price_to_index get_orders_at_price
on_market_update-opens_example =
    on_market_update-opens (update MarketUpdateType.add 15 101 8) market_book bids asks refl valid
      (omega arith) refl (omega arith, (omega arith, tt)) (omega arith, tt) refl refl (omega arith)
      (omega arith) market_book-IsMarketBook

on_market_update-modifies_example :
    (m' : MarketOrderBook) × (on_market_update (update MarketUpdateType.modify 11 100 2) market_book
      ≡ done (m', Notification.order_book_update 3 (pos 100) Side.buy))
    × IsMarketBook m' Side.buy
        (record first_bid { tail = item 1 (order 11 Side.buy 100 2) ∷ [] } ∷ second_bid ∷ [])
        asks
on_market_update-modifies_example =
    on_market_update-modifies (update MarketUpdateType.modify 11 100 2) market_book Side.buy bids _
      asks (item 1 (order 11 Side.buy 100 7)) valid refl refl (omega arith) refl refl
      (Changes.inner [] first_bid (second_bid ∷ []) [] (item 1 (order 11 Side.buy 100 7)) [] refl)
      market_book-IsMarketBook

-- ===== src/OrderBook/Samples.antt =====
-- trading/strategy/market_order_book.h: a book with two bids at one price, one below it, and an ask.
use hft_system.Base.{
  ℕ, ◌≢◌, refl, Option, none, some, List, [], ◌∷◌, arith, ◌==◌, if◌then◌else◌, true, false,
}
use hft_system.Base.Int.{pos}
use hft_system.Common.Types.{Side}
use hft_system.Common.MemPool.{MemPool, ObjectBlock, live}
use hft_system.Common.MemPool.Access.{Untouched, two_left}
use hft_system.OrderBook.Levels.{
  OrdersAtPrice, Levels, best_of, get_orders_at_price, price_to_index,
}
use hft_system.OrderBook.Orders.{Book}
use hft_system.OrderBook.Orders.Queues.{Item, Queue, IsOrderBook}
use hft_system.OrderBook.Market.{MarketOrder, order_node, market_book_order}

abbrev pub order : ℕ → Side → ℕ → ℕ → MarketOrder
order id side price qty = record {
  order_id = id;
  side = side;
  price = pos price;
  qty = qty;
  priority = 1;
  prev_order = none;
  next_order = none;
}

abbrev linked : MarketOrder → ℕ → ℕ → ObjectBlock MarketOrder
linked o prev next = record {
  object = record o { prev_order = some prev; next_order = some next };
  is_free = false;
}

abbrev free_block : ObjectBlock MarketOrder
free_block = record { object = order 0 Side.invalid 0 0; is_free = true }

-- The order in the fifth block is in no queue yet.
abbrev pub orders : ℕ → MemPool MarketOrder
orders price = record {
  store =
      linked (order 10 Side.buy 100 5) 1 1
      ∷ linked (order 11 Side.buy 100 7) 0 0
      ∷ linked (order 12 Side.buy 98 4) 2 2
      ∷ linked (order 13 Side.sell 103 9) 3 3
      ∷ record { object = order 14 Side.buy price 6; is_free = false }
      ∷ free_block
      ∷ free_block
      ∷ [];
  next_free_index = 5;
}

abbrev pub level : Side → ℕ → Option ℕ → ℕ → ObjectBlock OrdersAtPrice
level side price first other = record {
  object = record {
    side = side;
    price = pos price;
    first_order = first;
    prev_entry = some other;
    next_entry = some other;
  };
  is_free = false;
}

abbrev free_level : ObjectBlock OrdersAtPrice
free_level = record { object = (level Side.invalid 0 none 0).object; is_free = true }

abbrev index : ℕ → Option ℕ
index i = if i == 100 then some 0 else if i == 98 then some 1 else if i == 103 then some 2 else none

abbrev pub numbers : ℕ → Option ℕ
numbers i =
    if i == 10
    then some 0
    else if i == 11
    then some 1
    else if i == 12
    then some 2
    else if i == 13
    then some 3
    else none

abbrev pub book : ℕ → Book MarketOrder ℕ
book price = record {
  levels = record {
    pool = record {
      store =
          level Side.buy 100 (some 0) 1
          ∷ level Side.buy 98 (some 2) 0
          ∷ level Side.sell 103 (some 3) 2
          ∷ free_level
          ∷ free_level
          ∷ [];
      next_free_index = 3;
    };
    bids_by_price = some 0;
    asks_by_price = some 2;
    price_orders_at_price = index;
  };
  order_pool = orders price;
  oid_to_order = numbers;
}

abbrev pub item : ℕ → MarketOrder → Item MarketOrder
item at o = record { at = at; order = o }

abbrev pub first_bid : Queue MarketOrder
first_bid = record {
  at = 0;
  price = pos 100;
  head = item 0 (order 10 Side.buy 100 5);
  tail = item 1 (order 11 Side.buy 100 7) ∷ [];
}

abbrev pub second_bid : Queue MarketOrder
second_bid = record { at = 1; price = pos 98; head = item 2 (order 12 Side.buy 98 4); tail = [] }

abbrev pub ask : Queue MarketOrder
ask = record { at = 2; price = pos 103; head = item 3 (order 13 Side.sell 103 9); tail = [] }

abbrev pub bids : List (Queue MarketOrder)
bids = first_bid ∷ second_bid ∷ []

abbrev pub asks : List (Queue MarketOrder)
asks = ask ∷ []

pub valid : Side.buy ≢ Side.invalid
valid e = absurd (ground arith)

levels-Untouched : (price : ℕ) → Untouched (book price).levels.pool
unfolding live
levels-Untouched price = record {
  next_in = omega arith;
  free_from = λ k from below. two_left (book price).levels.pool 3 k refl refl from below;
}

orders-Untouched : (price : ℕ) → Untouched (orders price)
unfolding live
orders-Untouched price = record {
  next_in = omega arith;
  free_from = λ k from below. two_left (orders price) 5 k refl refl from below;
}

pub book-IsOrderBook : (price : ℕ) → IsOrderBook (book price) Side.buy bids asks
unfolding live best_of price_to_index hft_system.OrderBook.Levels.is_worse
book-IsOrderBook price = record {
  levels = record {
    laid = record {
      levels = ((_, refl, refl, refl, refl), ((_, refl, refl, refl, refl), tt));
      threaded = ((refl, refl), (refl, refl));
      distinct = ((omega arith, tt), (tt, tt));
      sorted = ((refl, tt), (tt, tt));
    };
    laid_other = record {
      levels = ((_, refl, refl, refl, refl), tt);
      threaded = (refl, refl);
      distinct = (tt, tt);
      sorted = (tt, tt);
    };
    head = refl;
    head_other = refl;
    apart = ((omega arith, (omega arith, tt)), tt);
    known = (refl, (refl, tt));
    known_other = (refl, tt);
  };
  queues = (
    record {
      threaded = ((refl, refl), (refl, refl));
      distinct = ((omega arith, tt), (tt, tt));
      items = ((refl, refl, refl, refl, refl), ((refl, refl, refl, refl, refl), tt));
    },
    (
      record {
        threaded = (refl, refl);
        distinct = (tt, tt);
        items = ((refl, refl, refl, refl, refl), tt);
      },
      tt,
    ),
  );
  queues_other = (
    record {
      threaded = (refl, refl);
      distinct = (tt, tt);
      items = ((refl, refl, refl, refl, refl), tt);
    },
    tt,
  );
  level_pool = levels-Untouched price;
  order_pool = orders-Untouched price;
}

-- ===== src/Exchange/Samples.antt =====
-- exchange/matcher/me_order_book.h: a book with asks at two prices and a bid.
use hft_system.Base.{
  ℕ, ◌≢◌, refl, Option, none, some, List, [], ◌∷◌, arith, ◌==◌, if◌then◌else◌, true, false,
}
use hft_system.Base.Int.{pos}
use hft_system.Common.Types.{Side}
use hft_system.Common.MemPool.{ObjectBlock, live}
use hft_system.Common.MemPool.Access.{Untouched, two_left}
use hft_system.MarketData.Updates.{MarketUpdateType, MarketUpdate}
use hft_system.OrderFlow.Responses.{ClientResponseType, ClientResponse}
use hft_system.OrderBook.Levels.{OrdersAtPrice, Levels, best_of, price_to_index}
use hft_system.OrderBook.Orders.{Book}
use hft_system.OrderBook.Orders.Queues.{Item, Queue, IsOrderBook}
use hft_system.Exchange.MeOrderBook.{MeOrder, me_order_node, client_order, same_pair, MeOrderBook}

abbrev pub order : ℕ → ℕ → ℕ → Side → ℕ → ℕ → MeOrder
order client id market side price qty = record {
  ticker_id = 3;
  client_id = client;
  client_order_id = id;
  market_order_id = market;
  side = side;
  price = pos price;
  qty = qty;
  priority = 1;
  prev_order = none;
  next_order = none;
}

abbrev linked : MeOrder → ℕ → ℕ → ObjectBlock MeOrder
linked o prev next = record {
  object = record o { prev_order = some prev; next_order = some next };
  is_free = false;
}

abbrev free_block : ObjectBlock MeOrder
free_block = record { object = order 0 0 0 Side.invalid 0 0; is_free = true }

abbrev pub level : Side → ℕ → Option ℕ → ℕ → ObjectBlock OrdersAtPrice
level side price first other = record {
  object = record {
    side = side;
    price = pos price;
    first_order = first;
    prev_entry = some other;
    next_entry = some other;
  };
  is_free = false;
}

abbrev free_level : ObjectBlock OrdersAtPrice
free_level = record { object = (level Side.invalid 0 none 0).object; is_free = true }

abbrev index : ℕ → Option ℕ
index i =
    if i == 103 then some 0 else if i == 105 then some 1 else if i == 100 then some 2 else none

abbrev numbers : ℕ × ℕ → Option ℕ
numbers k =
    if same_pair k (1, 7)
    then some 0
    else if same_pair k (2, 3)
    then some 1
    else if same_pair k (1, 8)
    then some 2
    else if same_pair k (4, 1)
    then some 3
    else none

abbrev pub book : Book MeOrder (ℕ × ℕ)
book = record {
  levels = record {
    pool = record {
      store =
          level Side.sell 103 (some 0) 1
          ∷ level Side.sell 105 (some 2) 0
          ∷ level Side.buy 100 (some 3) 2
          ∷ free_level
          ∷ free_level
          ∷ [];
      next_free_index = 3;
    };
    bids_by_price = some 2;
    asks_by_price = some 0;
    price_orders_at_price = index;
  };
  order_pool = record {
    store =
        linked (order 1 7 20 Side.sell 103 4) 1 1
        ∷ linked (order 2 3 21 Side.sell 103 5) 0 0
        ∷ linked (order 1 8 22 Side.sell 105 9) 2 2
        ∷ linked (order 4 1 23 Side.buy 100 6) 3 3
        ∷ free_block
        ∷ free_block
        ∷ [];
    next_free_index = 4;
  };
  oid_to_order = numbers;
}

abbrev pub no_response : ClientResponse
no_response = record {
  type = ClientResponseType.invalid;
  client_id = 0;
  ticker_id = 0;
  client_order_id = 0;
  market_order_id = 0;
  side = Side.invalid;
  price = pos 0;
  exec_qty = 0;
  leaves_qty = 0;
}

abbrev pub no_update : MarketUpdate
no_update = record {
  type = MarketUpdateType.invalid;
  order_id = 0;
  ticker_id = 0;
  side = Side.invalid;
  price = pos 0;
  qty = 0;
  priority = 0;
}

abbrev pub exchange_book : MeOrderBook
exchange_book = record {
  book = book;
  client_response = no_response;
  market_update = no_update;
  next_market_order_id = 24;
  sent = [];
}

abbrev pub item : ℕ → MeOrder → Item MeOrder
item at o = record { at = at; order = o }

abbrev pub first_ask : Queue MeOrder
first_ask = record {
  at = 0;
  price = pos 103;
  head = item 0 (order 1 7 20 Side.sell 103 4);
  tail = item 1 (order 2 3 21 Side.sell 103 5) ∷ [];
}

abbrev pub second_ask : Queue MeOrder
second_ask = record {
  at = 1;
  price = pos 105;
  head = item 2 (order 1 8 22 Side.sell 105 9);
  tail = [];
}

abbrev pub bid : Queue MeOrder
bid = record { at = 2; price = pos 100; head = item 3 (order 4 1 23 Side.buy 100 6); tail = [] }

abbrev pub asks : List (Queue MeOrder)
asks = first_ask ∷ second_ask ∷ []

abbrev pub bids : List (Queue MeOrder)
bids = bid ∷ []

pub sell_valid : Side.sell ≢ Side.invalid
sell_valid e = absurd (ground arith)

pub buy_valid : Side.buy ≢ Side.invalid
buy_valid e = absurd (ground arith)

levels-Untouched : Untouched book.levels.pool
unfolding live
levels-Untouched = record {
  next_in = omega arith;
  free_from = λ k from below. two_left book.levels.pool 3 k refl refl from below;
}

orders-Untouched : Untouched book.order_pool
unfolding live
orders-Untouched = record {
  next_in = omega arith;
  free_from = λ k from below. two_left book.order_pool 4 k refl refl from below;
}

pub book-IsOrderBook : IsOrderBook book Side.sell asks bids
unfolding live best_of price_to_index hft_system.OrderBook.Levels.is_worse
book-IsOrderBook = record {
  levels = record {
    laid = record {
      levels = ((_, refl, refl, refl, refl), ((_, refl, refl, refl, refl), tt));
      threaded = ((refl, refl), (refl, refl));
      distinct = ((omega arith, tt), (tt, tt));
      sorted = ((refl, tt), (tt, tt));
    };
    laid_other = record {
      levels = ((_, refl, refl, refl, refl), tt);
      threaded = (refl, refl);
      distinct = (tt, tt);
      sorted = (tt, tt);
    };
    head = refl;
    head_other = refl;
    apart = ((omega arith, (omega arith, tt)), tt);
    known = (refl, (refl, tt));
    known_other = (refl, tt);
  };
  queues = (
    record {
      threaded = ((refl, refl), (refl, refl));
      distinct = ((omega arith, tt), (tt, tt));
      items = ((refl, refl, refl, refl, refl), ((refl, refl, refl, refl, refl), tt));
    },
    (
      record {
        threaded = (refl, refl);
        distinct = (tt, tt);
        items = ((refl, refl, refl, refl, refl), tt);
      },
      tt,
    ),
  );
  queues_other = (
    record {
      threaded = (refl, refl);
      distinct = (tt, tt);
      items = ((refl, refl, refl, refl, refl), tt);
    },
    tt,
  );
  level_pool = levels-Untouched;
  order_pool = orders-Untouched;
}

-- An order to buy 6 at up to 104 takes the oldest ask whole and the next in part.

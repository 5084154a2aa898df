-- ===== src/Exchange/MeOrderBook.antt =====
-- exchange/matcher/me_order.h and me_order_book.h: the exchange's book of an instrument. It holds its
-- orders the way the participants' books do, in an array by client and by the client's order number.
use hft_system.Base.{
  ℕ, ◌+◌, ◌%◌, ◌^◌, ◌≡◌, refl, Bool, true, ◌&&◌, Option, none, some, List, [], ◌∷◌, ◌++◌, ◌==◌, ltb,
  arith, Outcome, done, ◌>>=◌,
}
use hft_system.Base.Int.{ℤ}
use hft_system.Common.Types.{Side, me_max_num_clients, me_max_order_ids}
use hft_system.Common.MemPool.{load}
use hft_system.Common.Node.{Node}
use hft_system.MarketData.Updates.{MarketUpdate}
use hft_system.OrderFlow.Responses.{ClientResponse}
use hft_system.OrderBook.Levels.{
  Levels, get_orders_at_price, add_orders_at_price, remove_orders_at_price,
}
use hft_system.OrderBook.Orders.{BookOrder, Book, add_order, remove_order}

pub record MeOrder : Type 0 where
  pub ticker_id : ℕ
  pub client_id : ℕ
  pub client_order_id : ℕ
  pub market_order_id : ℕ
  pub side : Side
  pub price : ℤ
  pub qty : ℕ
  pub priority : ℕ
  pub prev_order : Option ℕ
  pub next_order : Option ℕ

instance abbrev pub me_order_node : Node MeOrder
me_order_node = record {
  next = λ t. t.next_order;
  prev = λ t. t.prev_order;
  with_next = λ v t. record t { next_order = v };
  with_prev = λ v t. record t { prev_order = v };
  payload = λ t. record t { prev_order = none; next_order = none };
  next-with_next = λ v t. refl;
  next-with_prev = λ v t. refl;
  prev-with_next = λ v t. refl;
  prev-with_prev = λ v t. refl;
  payload-with_next = λ v t. refl;
  payload-with_prev = λ v t. refl;
}

abbrev pub same_pair : ℕ × ℕ → ℕ × ℕ → Bool
same_pair j k = (j.0 == k.0) && (j.1 == k.1)

pub same_pair_refl : (k : ℕ × ℕ) → same_pair k k ≡ true
same_pair_refl (a, b) = ground arith

pub same_pair_eq : (j k : ℕ × ℕ) → same_pair j k ≡ true → j ≡ k
same_pair_eq (a, b) (c, d) h =
    let first : a ≡ c = ground (arith, h) in
    let second : b ≡ d = ground (arith, h) in rw (first, second)

-- `ClientOrderHashMap`, an array of arrays.
instance abbrev pub client_order : BookOrder MeOrder (ℕ × ℕ) me_order_node
client_order = record {
  side = λ t. t.side;
  price = λ t. t.price;
  key = λ t. (t.client_id, t.client_order_id);
  in_range = λ k. ltb k.0 me_max_num_clients && ltb k.1 me_max_order_ids;
  same = same_pair;
  side-payload = λ t. refl;
  price-payload = λ t. refl;
  key-payload = λ t. refl;
  same-refl = same_pair_refl;
  same-eq = same_pair_eq;
}

-- What the matching engine is given to send, in order.
pub data Sent : Type 0 where
  response : ClientResponse → Sent
  update : MarketUpdate → Sent

pub record MeOrderBook : Type 0 where
  pub book : Book MeOrder (ℕ × ℕ)
  pub client_response : ClientResponse
  pub market_update : MarketUpdate
  pub next_market_order_id : ℕ
  pub sent : List Sent

unfoldable pub generate_new_market_order_id : MeOrderBook → ℕ × MeOrderBook
generate_new_market_order_id m = (
  m.next_market_order_id,
  record m { next_market_order_id = (m.next_market_order_id + 1) % 2 ^ 64 },
)

-- One more than the priority of the last order of the level, or 1 at a new level.
unfoldable pub priority_behind : Option ℕ → Book MeOrder (ℕ × ℕ) → Outcome ℕ
priority_behind none b = done 1
priority_behind (some level) b = do
  l ← load (some level) b.levels.pool
  first ← load l.first_order b.order_pool
  final ← load first.prev_order b.order_pool
  done ((final.priority + 1) % 2 ^ 64)

unfoldable pub get_next_priority : ℤ → Book MeOrder (ℕ × ℕ) → Outcome ℕ
get_next_priority price b = priority_behind (get_orders_at_price price b.levels) b

-- The assignments to the levels and to the queues are those of the participants' book, line by line.
unfoldable pub me_add_orders_at_price : ℕ → Levels → Outcome Levels
me_add_orders_at_price = add_orders_at_price

unfoldable pub me_remove_orders_at_price : Side → ℤ → Levels → Outcome Levels
me_remove_orders_at_price = remove_orders_at_price

unfoldable pub me_add_order : ℕ → Book MeOrder (ℕ × ℕ) → Outcome (Book MeOrder (ℕ × ℕ))
me_add_order = add_order

unfoldable pub me_remove_order : ℕ → Book MeOrder (ℕ × ℕ) → Outcome (Book MeOrder (ℕ × ℕ))
me_remove_order = remove_order

unfoldable pub send_client_response : MeOrderBook → MeOrderBook
send_client_response m = record m { sent = m.sent ++ Sent.response m.client_response ∷ [] }

unfoldable pub send_market_update : MeOrderBook → MeOrderBook
send_market_update m = record m { sent = m.sent ++ Sent.update m.market_update ∷ [] }

-- `client_response_ = {...}; sendClientResponse(&client_response_)`
abbrev pub respond : ClientResponse → MeOrderBook → MeOrderBook
respond r m = send_client_response (record m { client_response = r })

abbrev pub publish : MarketUpdate → MeOrderBook → MeOrderBook
publish u m = send_market_update (record m { market_update = u })

-- ===== src/OrderBook/Market.antt =====
-- trading/market_data/market_order.h, trading/strategy/market_order_book.h and .cpp: the book that a
-- participant keeps for an instrument, with its best bid and offer, as the market updates change it.
pub mod Best
pub mod Refresh
pub mod Updates
pub mod Adding
pub mod Modifying
use hft_system.Base.{
  ℕ, zero, suc, ◌+◌, ◌%◌, ◌^◌, ◌≡◌, refl, Bool, true, false, not, ◌&&◌, Option, none, some, List,
  [], ◌∷◌, ◌++◌, ◌==◌, ltb, if◌then◌else◌, arith, length, Outcome, done, exits, undefined, ◌>>=◌,
  defined,
}
use hft_system.Base.Int.{ℤ, pos, ltb_ℤ}
use hft_system.Common.Types.{Side, me_max_order_ids, price_invalid, qty_invalid}
use hft_system.Common.MemPool.{MemPool, load, modify, allocate, deallocate}
use hft_system.Common.Node.{Node}
use hft_system.MarketData.Updates.{MarketUpdateType, MarketUpdate}
use hft_system.OrderBook.Levels.{OrdersAtPrice, level_node, Levels, is_at}
use hft_system.OrderBook.Orders.{BookOrder, Book, entered, set_order, add_order, remove_order}

pub record MarketOrder : Type 0 where
  pub order_id : ℕ
  pub side : Side
  pub price : ℤ
  pub qty : ℕ
  pub priority : ℕ
  pub prev_order : Option ℕ
  pub next_order : Option ℕ

instance abbrev pub order_node : Node MarketOrder
order_node = record {
  next = λ t. t.next_order;
  prev = λ t. t.prev_order;
  with_next = λ v t. record t { next_order = v };
  with_prev = λ v t. record t { prev_order = v };
  payload = λ t. record t { prev_order = none; next_order = none };
  next-with_next = λ v t. refl;
  next-with_prev = λ v t. refl;
  prev-with_next = λ v t. refl;
  prev-with_prev = λ v t. refl;
  payload-with_next = λ v t. refl;
  payload-with_prev = λ v t. refl;
}

pub ==-refl : (k : ℕ) → (k == k) ≡ true
==-refl k = ground arith

pub ==-eq : (j k : ℕ) → (j == k) ≡ true → j ≡ k
==-eq j k h = ground arith

-- `OrderHashMap` is an array of ME_MAX_ORDER_IDS entries, by the order's number.
instance abbrev pub market_book_order : BookOrder MarketOrder ℕ order_node
market_book_order = record {
  side = λ t. t.side;
  price = λ t. t.price;
  key = λ t. t.order_id;
  in_range = λ k. ltb k me_max_order_ids;
  same = λ j k. j == k;
  side-payload = λ t. refl;
  price-payload = λ t. refl;
  key-payload = λ t. refl;
  same-refl = ==-refl;
  same-eq = ==-eq;
}

-- `BBO`
pub record Bbo : Type 0 where
  pub bid_price : ℤ
  pub ask_price : ℤ
  pub bid_qty : ℕ
  pub ask_qty : ℕ

pub record MarketOrderBook : Type 0 where
  pub book : Book MarketOrder ℕ
  pub bbo : Bbo

-- The loop from `order` on until it is back at the first order; `Qty` wraps. The pool has fuel for
-- every order.
unfoldable pub sum_qty : ℕ → Option ℕ → ℕ → ℕ → MemPool MarketOrder → Outcome ℕ
sum_qty zero order first qty p = undefined
sum_qty (suc fuel) order first qty p =
    if is_at order first
    then done qty
    else (load order p >>= λ o. sum_qty fuel o.next_order first ((qty + o.qty) % 2 ^ 32) p)

-- The price and the quantity of the best level of a side.
unfoldable pub best_level : Option ℕ → Book MarketOrder ℕ → Outcome (ℤ × ℕ)
best_level none b = done (price_invalid, qty_invalid)
best_level (some level) b = do
  l ← load (some level) b.levels.pool
  first ← defined l.first_order
  o ← load (some first) b.order_pool
  qty ← sum_qty (suc (length b.order_pool.store)) o.next_order first o.qty b.order_pool
  done (l.price, qty)

unfoldable pub update_bid : Bool → MarketOrderBook → Outcome MarketOrderBook
update_bid false m = done m
update_bid true m = do
  (price, qty) ← best_level m.book.levels.bids_by_price m.book
  done (record m { bbo = record m.bbo { bid_price = price; bid_qty = qty } })

unfoldable pub update_ask : Bool → MarketOrderBook → Outcome MarketOrderBook
update_ask false m = done m
update_ask true m = do
  (price, qty) ← best_level m.book.levels.asks_by_price m.book
  done (record m { bbo = record m.bbo { ask_price = price; ask_qty = qty } })

unfoldable pub update_bbo : Bool → Bool → MarketOrderBook → Outcome MarketOrderBook
update_bbo bid ask m = update_bid bid m >>= update_ask ask

abbrev is_buy : Side → Bool
is_buy Side.buy = true
is_buy Side.sell = false
is_buy Side.invalid = false

abbrev is_sell : Side → Bool
is_sell Side.buy = false
is_sell Side.sell = true
is_sell Side.invalid = false

-- A side that has a best price, an update of that side, and its price against the best one.
unfoldable pub touches : Option ℕ → Bool → (ℤ → Bool) → Levels → Outcome Bool
touches none of_side test ls = done false
touches (some best) false test ls = done false
touches (some best) true test ls = do l ← load (some best) ls.pool; done (test l.price)

unfoldable pub bid_updated : MarketUpdate → Levels → Outcome Bool
bid_updated u ls = touches ls.bids_by_price (is_buy u.side) (λ best. not (ltb_ℤ u.price best)) ls

unfoldable pub ask_updated : MarketUpdate → Levels → Outcome Bool
ask_updated u ls = touches ls.asks_by_price (is_sell u.side) (λ best. not (ltb_ℤ best u.price)) ls

-- `oid_to_order_.at(order_id)`; an index out of range throws, which ends a `noexcept` function's process.
unfoldable pub order_of : ℕ → Book MarketOrder ℕ → Outcome (Option ℕ)
order_of order_id b =
    if ltb order_id me_max_order_ids then done (b.oid_to_order order_id) else exits

-- `for (auto &order: oid_to_order_)`, over `count` entries from `index` on.
unfoldable pub clear_orders :
    ℕ → ℕ → (ℕ → Option ℕ) → MemPool MarketOrder → Outcome (MemPool MarketOrder)
clear_orders zero index oids p = done p
clear_orders (suc count) index oids p = elim (oids index) [
  | none ↦ clear_orders count (suc index) oids p
  | some order ↦ deallocate (pos order) p >>= clear_orders count (suc index) oids
]

-- The levels from `level` on until the loop is back at the best one. The step reads the pointer of a
-- level just given back. The pool has fuel for every level.
unfoldable pub free_levels :
    ℕ → Option ℕ → ℕ → MemPool OrdersAtPrice → Outcome (MemPool OrdersAtPrice)
free_levels zero level best p = undefined
free_levels (suc fuel) level best p =
    if is_at level best
    then done p
    else (defined level >>= λ i.
        deallocate (pos i) p >>= λ p'. load level p' >>= λ l. free_levels fuel l.next_entry best p')

unfoldable pub free_side : Option ℕ → MemPool OrdersAtPrice → Outcome (MemPool OrdersAtPrice)
free_side none p = done p
free_side (some best) p = do
  l ← load (some best) p
  p' ← free_levels (suc (length p.store)) l.next_entry best p
  deallocate (pos best) p'

-- The array of levels by price keeps its pointers.
unfoldable pub clear : Book MarketOrder ℕ → Outcome (Book MarketOrder ℕ)
clear b = do
  p ← clear_orders me_max_order_ids 0 b.oid_to_order b.order_pool
  lp ← free_side b.levels.bids_by_price b.levels.pool
  lp' ← free_side b.levels.asks_by_price lp
  done (record {
    levels = record b.levels { pool = lp'; bids_by_price = none; asks_by_price = none };
    order_pool = p;
    oid_to_order = λ k. none;
  })

unfoldable pub apply_add : MarketUpdate → Book MarketOrder ℕ → Outcome (Book MarketOrder ℕ)
apply_add u b = do
  (order, p) ←
      allocate
        (record {
          order_id = u.order_id;
          side = u.side;
          price = u.price;
          qty = u.qty;
          priority = u.priority;
          prev_order = none;
          next_order = none;
        })
        b.order_pool
  add_order order (record b { order_pool = p })

unfoldable pub apply_modify : MarketUpdate → Book MarketOrder ℕ → Outcome (Book MarketOrder ℕ)
apply_modify u b = do
  order ← order_of u.order_id b
  p ← modify order (λ o. record o { qty = u.qty }) b.order_pool
  done (record b { order_pool = p })

unfoldable pub apply_cancel : MarketUpdate → Book MarketOrder ℕ → Outcome (Book MarketOrder ℕ)
apply_cancel u b = do order ← order_of u.order_id b; i ← defined order; remove_order i b

-- The change that an update of each type makes to the book; a trade makes none.
unfoldable pub apply :
    MarketUpdateType → MarketUpdate → Book MarketOrder ℕ → Outcome (Book MarketOrder ℕ)
apply MarketUpdateType.add u b = apply_add u b
apply MarketUpdateType.modify u b = apply_modify u b
apply MarketUpdateType.cancel u b = apply_cancel u b
apply MarketUpdateType.clear u b = clear b
apply MarketUpdateType.trade u b = done b
apply MarketUpdateType.invalid u b = done b
apply MarketUpdateType.snapshot_start u b = done b
apply MarketUpdateType.snapshot_end u b = done b

-- The calls of the trade engine.
pub data Notification : Type 0 where
  trade_update : MarketUpdate → Notification
  order_book_update : ℕ → ℤ → Side → Notification

abbrev pub is_trade : MarketUpdateType → Bool
is_trade MarketUpdateType.trade = true
is_trade MarketUpdateType.invalid = false
is_trade MarketUpdateType.clear = false
is_trade MarketUpdateType.add = false
is_trade MarketUpdateType.modify = false
is_trade MarketUpdateType.cancel = false
is_trade MarketUpdateType.snapshot_start = false
is_trade MarketUpdateType.snapshot_end = false

-- Whether the sides' best levels are read again is settled before the book changes.
unfoldable pub on_market_update :
    MarketUpdate → MarketOrderBook → Outcome (MarketOrderBook × Notification)
on_market_update u m = do
  bid ← bid_updated u m.book.levels
  ask ← ask_updated u m.book.levels
  if is_trade u.type then done (m, trade_update u) else (do
    b ← apply u.type u m.book
    m' ← update_bbo bid ask (record m { book = b })
    done (m', order_book_update u.ticker_id u.price u.side))

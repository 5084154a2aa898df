-- ===== src/OrderBook/Market/Refresh.antt =====
-- trading/strategy/market_order_book.cpp, `onMarketUpdate`: which of the sides is read again, and what
-- the best bid and offer are then.
use hft_system.Base.{
  ℕ, ◌^◌, ◌<◌, ◌≡◌, ◌≢◌, refl, ap, ◌∙◌, Bool, true, false, not, Option, none, some, List, [], ◌∷◌,
  if◌then◌else◌, done,
}
use hft_system.Base.Int.{ℤ, ltb_ℤ}
use hft_system.Common.Types.{Side}
use hft_system.Common.MemPool.Access.{load-live}
use hft_system.Common.Ring.{All}
use hft_system.MarketData.Updates.{MarketUpdate}
use hft_system.OrderBook.Levels.{Levels, best_of, is_worse}
use hft_system.OrderBook.Levels.Rows.{opposite}
use hft_system.OrderBook.Levels.Book.{IsBook}
use hft_system.OrderBook.Orders.{Book}
use hft_system.OrderBook.Orders.Queues.{Item, Queue, rows, IsOrderBook}
use hft_system.OrderBook.Market.{
  MarketOrder, order_node, market_book_order, Bbo, MarketOrderBook, best_level, update_bid,
  update_ask, update_bbo, touches, bid_updated, ask_updated, apply, Notification, is_trade,
  on_market_update,
}
use hft_system.OrderBook.Market.Best.{shown, best_level_lem}

abbrev pub shows : Side → Bbo → ℤ × ℕ
shows Side.buy o = (o.bid_price, o.bid_qty)
shows Side.sell o = (o.ask_price, o.ask_qty)
shows Side.invalid o = (o.ask_price, o.ask_qty)

-- Quantities are 32-bit numbers.
abbrev pub IsSized : Queue MarketOrder → Type 0
IsSized q = All (λ (x : Item MarketOrder). x.order.qty < 2 ^ 32) (q.head ∷ q.tail)

-- The book holds the queues, and the best bid and offer are those of the first queues.
pub record IsMarketBook (m : MarketOrderBook) (side : Side) (mine theirs : List (Queue MarketOrder))
    : Type 0 where
  pub book : IsOrderBook m.book side mine theirs
  pub sizes : All IsSized mine
  pub sizes_other : All IsSized theirs
  pub best : shows side m.bbo ≡ shown mine
  pub best_other : shows (opposite side) m.bbo ≡ shown theirs

-- Whether an update of a side at a price has that side read again.
abbrev pub refreshed : Side → ℤ → List (Queue MarketOrder) → Bool
refreshed side price [] = false
refreshed side price (q ∷ qs) = not (is_worse side price q.price)

abbrev if_buy : Side → Bool → Bool
if_buy Side.buy f = f
if_buy Side.sell f = false
if_buy Side.invalid f = false

abbrev if_sell : Side → Bool → Bool
if_sell Side.buy f = false
if_sell Side.sell f = f
if_sell Side.invalid f = false

touches-off :
    (best : Option ℕ) (test : ℤ → Bool) (ls : Levels) → touches best false test ls ≡ done false
unfolding touches
touches-off none test ls = refl
touches-off (some best) test ls = refl

touches-best :
    (side : Side) (price : ℤ) (ls : Levels) (mine theirs : List (Queue MarketOrder))
    (test : ℤ → Bool)
    → ((best : ℤ) → test best ≡ not (is_worse side price best))
    → IsBook ls side (rows mine) (rows theirs)
    → touches (best_of side ls) true test ls ≡ done (refreshed side price mine)
unfolding touches
touches-best side price ls [] theirs test h book = rw book.head
touches-best side price ls (q ∷ qs) theirs test h book =
    let (l, at, _, same, _) = book.laid.levels.0 in
    rw (book.head, load-live ls.pool q.at at, same) (ap done (h q.price))

updated_lem :
    (u : MarketUpdate) (side : Side) (ls : Levels) (mine theirs : List (Queue MarketOrder))
    → side ≢ Side.invalid
    → u.side ≡ side
    → IsBook ls side (rows mine) (rows theirs)
    → (bid_updated u ls ≡ done (if_buy side (refreshed side u.price mine)))
      × (ask_updated u ls ≡ done (if_sell side (refreshed side u.price mine)))
unfolding bid_updated ask_updated best_of is_worse
updated_lem u Side.buy ls mine theirs sided of book = (
  rw of (
      touches-best Side.buy u.price ls mine theirs (λ best. not (ltb_ℤ u.price best)) (λ best. refl)
        book),
  rw of (touches-off ls.asks_by_price _ ls),
)
updated_lem u Side.sell ls mine theirs sided of book = (
  rw of (touches-off ls.bids_by_price _ ls),
  rw of (
      touches-best Side.sell u.price ls mine theirs (λ best. not (ltb_ℤ best u.price))
        (λ best. refl) book),
)
updated_lem u Side.invalid ls mine theirs sided of book = absurd (sided refl)

-- The best level of a side is its first queue.
best_shown :
    (b : Book MarketOrder ℕ) (side : Side) (mine theirs : List (Queue MarketOrder))
    → IsOrderBook b side mine theirs
    → All IsSized mine
    → best_level (best_of side b.levels) b ≡ done (shown mine)
unfolding best_level
best_shown b side [] theirs book sizes = rw book.levels.head
best_shown b side (q ∷ qs) theirs book sizes =
    ap (λ v. best_level v b) book.levels.head
    ∙ best_level_lem b side q book.queues.0 book.levels.laid.levels.0 sizes.0.0

record Refreshes (m m' : MarketOrderBook) (side : Side) (f : Bool) (mine : List (Queue MarketOrder))
    : Type 0 where
  book_kept : m'.book ≡ m.book
  reads : shows side m'.bbo ≡ (if f then shown mine else shows side m.bbo)
  other : shows (opposite side) m'.bbo ≡ shows (opposite side) m.bbo

refresh_lem :
    (m : MarketOrderBook) (side : Side) (f : Bool) (mine theirs : List (Queue MarketOrder))
    → side ≢ Side.invalid
    → IsOrderBook m.book side mine theirs
    → All IsSized mine
    → (m' : MarketOrderBook) × (update_bbo (if_buy side f) (if_sell side f) m ≡ done m')
      × Refreshes m m' side f mine
unfolding update_bbo update_bid update_ask best_of
refresh_lem m Side.buy false mine theirs sided book sizes =
    (m, refl, record { book_kept = refl; reads = refl; other = refl })
refresh_lem m Side.sell false mine theirs sided book sizes =
    (m, refl, record { book_kept = refl; reads = refl; other = refl })
refresh_lem m Side.buy true mine theirs sided book sizes = (
  record m { bbo = record m.bbo { bid_price = (shown mine).0; bid_qty = (shown mine).1 } },
  rw (best_shown m.book Side.buy mine theirs book sizes),
  record { book_kept = refl; reads = refl; other = refl },
)
refresh_lem m Side.sell true mine theirs sided book sizes = (
  record m { bbo = record m.bbo { ask_price = (shown mine).0; ask_qty = (shown mine).1 } },
  rw (best_shown m.book Side.sell mine theirs book sizes),
  record { book_kept = refl; reads = refl; other = refl },
)
refresh_lem m Side.invalid f mine theirs sided book sizes = absurd (sided refl)

-- An update whose change to the book is known.
pub on_market_update_lem :
    (u : MarketUpdate) (m : MarketOrderBook) (side : Side)
    (mine mine' theirs : List (Queue MarketOrder)) (b : Book MarketOrder ℕ)
    → side ≢ Side.invalid
    → u.side ≡ side
    → is_trade u.type ≡ false
    → IsBook m.book.levels side (rows mine) (rows theirs)
    → apply u.type u m.book ≡ done b
    → IsOrderBook b side mine' theirs
    → All IsSized mine'
    → (m' : MarketOrderBook) × (on_market_update u m
        ≡ done (m', Notification.order_book_update u.ticker_id u.price u.side))
      × (m'.book ≡ b)
      × (shows side m'.bbo
          ≡ (if refreshed side u.price mine then shown mine' else shows side m.bbo))
      × (shows (opposite side) m'.bbo ≡ shows (opposite side) m.bbo)
unfolding on_market_update
on_market_update_lem u m side mine mine' theirs b sided of plain book applied book' sizes =
    let (bid, ask) = updated_lem u side m.book.levels mine theirs sided of book in
    let (m', ok, r) =
      refresh_lem (record m { book = b }) side (refreshed side u.price mine) mine' theirs sided
        book' sizes in
    (m', rw (bid, ask, plain, applied, ok), r.book_kept, r.reads, r.other)

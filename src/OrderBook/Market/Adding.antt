-- ===== src/OrderBook/Market/Adding.antt =====
-- trading/strategy/market_order_book.cpp, `onMarketUpdate`: an order that is added joins the level of its
-- price or opens one, and what is shown afterwards.
use hft_system.Base.{
  ℕ, ◌^◌, ◌<◌, ◌≡◌, ◌≢◌, refl, sym, ◌∙◌, subst, true, false, none, some, List, [], ◌∷◌, ◌++◌, arith,
  if◌then◌else◌, done, Bool-cases, inl, inr, ltb,
}
use hft_system.Base.Int.{ℤ}
use hft_system.Common.Types.{Side, me_max_order_ids}
use hft_system.Common.MemPool.{live}
use hft_system.Common.MemPool.Access.{HasSpare, allocate-Untouched}
use hft_system.Common.Ring.{All-append}
use hft_system.MarketData.Updates.{MarketUpdateType, MarketUpdate}
use hft_system.OrderBook.Levels.{is_worse, get_orders_at_price}
use hft_system.OrderBook.Levels.Book.{IsUnindexed}
use hft_system.OrderBook.Levels.Rows.{opposite}
use hft_system.OrderBook.Orders.Queues.{Item, Queue, rows, IsOrderBook}
use hft_system.OrderBook.Orders.Sides.{allocated-IsOrderBook}
use hft_system.OrderBook.Orders.Add.{add_order-behind}
use hft_system.OrderBook.Orders.Away.{insert_queue, insert_queue-All}
use hft_system.OrderBook.Orders.Open.{add_order-opens}
use hft_system.OrderBook.Market.{
  MarketOrder, order_node, market_book_order, MarketOrderBook, apply_add, apply, Notification,
  on_market_update,
}
use hft_system.OrderBook.Market.Best.{shown}
use hft_system.OrderBook.Market.Refresh.{
  shows, IsSized, IsMarketBook, refreshed, on_market_update_lem,
}
use hft_system.OrderBook.Market.Updates.{settled, behind-shown, replaced-All}

-- The order that an update describes.
abbrev pub described : MarketUpdate → MarketOrder
described u = record {
  order_id = u.order_id;
  side = u.side;
  price = u.price;
  qty = u.qty;
  priority = u.priority;
  prev_order = none;
  next_order = none;
}

abbrev pub placed_at : ℕ → MarketUpdate → Item MarketOrder
placed_at i u = record { at = i; order = described u }

-- An add at a price that a level has, of a 32-bit quantity, of an order whose side is valid and whose
-- number is in range and unknown, in a book whose rings lay out two sorted sides of queues and whose best bid and offer are
-- theirs, with room for one order more: it succeeds, the order is the last of that queue, the best bid and
-- offer are those of the queues again, and the trade engine is told of the side and the price.
pub on_market_update-joins :
    (u : MarketUpdate) (m : MarketOrderBook) (before : List (Queue MarketOrder))
    (q : Queue MarketOrder) (behind theirs : List (Queue MarketOrder))
    → u.type ≡ MarketUpdateType.add
    → u.side ≢ Side.invalid
    → u.qty < 2 ^ 32
    → u.price ≡ q.price
    → (ltb u.order_id me_max_order_ids ≡ true)
    → m.book.oid_to_order u.order_id ≡ none
    → HasSpare m.book.order_pool
    → IsMarketBook m u.side (before ++ q ∷ behind) theirs
    → (m' : MarketOrderBook) × (on_market_update u m
        ≡ done (m', Notification.order_book_update u.ticker_id u.price u.side))
      × IsMarketBook m' u.side
          (before
            ++ record q { tail = q.tail ++ placed_at m.book.order_pool.next_free_index u ∷ [] }
              ∷ behind)
          theirs
unfolding apply apply_add
on_market_update-joins u m before q behind theirs type sided small price ranged fresh spare h =
    let i = m.book.order_pool.next_free_index in
    let new = placed_at i u in
    let q' : Queue MarketOrder = record q { tail = q.tail ++ new ∷ [] } in
    let mine = before ++ q ∷ behind in
    let mine' = before ++ q' ∷ behind in
    let (p, allocated, untouched, dead, lives, _, _) =
      allocate-Untouched (described u) m.book.order_pool h.book.order_pool spare in
    let at : live p i ≡ some (described u) = lives i ∙ ground arith in
    let (b, ok, book, _) =
      add_order-behind (record m.book { order_pool = p }) i (described u) before q behind theirs
        sided
        (allocated-IsOrderBook m.book p i (described u) dead lives u.side mine theirs sided
          untouched h.book)
        at (sym price) fresh ranged in
    let applied : apply u.type u m.book ≡ done b = rw (type, allocated, ok) in
    let sizes = replaced-All IsSized before q behind (q' ∷ behind) h.sizes (λ here rest. (
      (
        here.0,
        All-append (λ (x : Item MarketOrder). x.order.qty < 2 ^ 32) q.tail (new ∷ []) here.1
            (small, tt),
      ),
      rest,
    )) in
    let (m', run, same, read, other) =
      on_market_update_lem u m u.side mine mine' theirs b sided refl (rw type refl) h.book.levels
        applied book sizes in
    (
      m',
      run,
      record {
        book = subst (λ c. IsOrderBook c u.side mine' theirs) (sym same) book;
        sizes = sizes;
        sizes_other = h.sizes_other;
        best =
            settled (shown mine) (shown mine') _ (refreshed u.side u.price mine) _ read h.best
              (λ f. behind-shown u.side u.price before q behind (q' ∷ behind) price f);
        best_other = other ∙ h.best_other;
      },
    )

opened-shown :
    (side : Side) (new : Queue MarketOrder) (q : Queue MarketOrder) (qs : List (Queue MarketOrder))
    → refreshed side new.price (q ∷ qs) ≡ false
    → shown (insert_queue side new (q ∷ qs)) ≡ shown (q ∷ qs)
unfolding insert_queue
opened-shown side new q qs f = elim (Bool-cases (is_worse side new.price q.price)) [
  | inl worse ↦ rw worse
  | inr better ↦ absurd (ground (arith, f, better))
]

-- What a side shows after an order opened a level, by whether the side had one.
abbrev pub shown_after : List (Queue MarketOrder) → List (Queue MarketOrder) → ℤ × ℕ → ℤ × ℕ
shown_after [] mine' before = before
shown_after (q ∷ qs) mine' before = shown mine'

abbrev pub opened : MarketUpdate → MarketOrderBook → Queue MarketOrder
opened u m = record {
  at = m.book.levels.pool.next_free_index;
  price = u.price;
  head = placed_at m.book.order_pool.next_free_index u;
  tail = [];
}

opened-shows :
    (side : Side) (new : Queue MarketOrder) (qs : List (Queue MarketOrder)) (before read : ℤ × ℕ)
    → read ≡ (if refreshed side new.price qs then shown (insert_queue side new qs) else before)
    → before ≡ shown qs
    → read ≡ shown_after qs (insert_queue side new qs) before
opened-shows side new [] before read e k = e
opened-shows side new (q ∷ qs) before read e k =
    settled (shown (q ∷ qs)) _ _ (refreshed side new.price (q ∷ qs)) _ e k
      (λ f. opened-shown side new q qs f)

-- An add at a price whose array entry is empty and whose index no level has, of a 32-bit quantity, of an
-- order whose side is valid and whose number is in range and unknown, in a book whose rings lay out two sorted sides of
-- queues and whose best bid and offer are theirs, with room for one level and one order more: it
-- succeeds and the order is alone in a new queue at its place in the side. Where the side had a level,
-- the best bid and offer are those of the queues again; where it had none, what is shown stays as it was.
pub on_market_update-opens :
    (u : MarketUpdate) (m : MarketOrderBook) (mine theirs : List (Queue MarketOrder))
    → u.type ≡ MarketUpdateType.add
    → u.side ≢ Side.invalid
    → u.qty < 2 ^ 32
    → get_orders_at_price u.price m.book.levels ≡ none
    → IsUnindexed u.price (rows mine)
    → IsUnindexed u.price (rows theirs)
    → (ltb u.order_id me_max_order_ids ≡ true)
    → m.book.oid_to_order u.order_id ≡ none
    → HasSpare m.book.order_pool
    → HasSpare m.book.levels.pool
    → IsMarketBook m u.side mine theirs
    → (m' : MarketOrderBook) × (on_market_update u m
        ≡ done (m', Notification.order_book_update u.ticker_id u.price u.side))
      × IsOrderBook m'.book u.side (insert_queue u.side (opened u m) mine) theirs
      × (shows u.side m'.bbo
          ≡ shown_after mine (insert_queue u.side (opened u m) mine) (shows u.side m.bbo))
      × (shows (opposite u.side) m'.bbo ≡ shown theirs)
unfolding apply apply_add
on_market_update-opens u m mine theirs type sided small absent index index_other ranged fresh spare
      spare_level h =
    let i = m.book.order_pool.next_free_index in
    let new = opened u m in
    let mine' = insert_queue u.side new mine in
    let (p, allocated, untouched, dead, lives, _, _) =
      allocate-Untouched (described u) m.book.order_pool h.book.order_pool spare in
    let at : live p i ≡ some (described u) = lives i ∙ ground arith in
    let (b, ok, book, _) =
      add_order-opens (record m.book { order_pool = p }) i (described u) mine theirs sided
        (allocated-IsOrderBook m.book p i (described u) dead lives u.side mine theirs sided
          untouched h.book)
        at spare_level absent index index_other fresh ranged in
    let applied : apply u.type u m.book ≡ done b = rw (type, allocated, ok) in
    let sizes = insert_queue-All IsSized u.side new mine (small, tt) h.sizes in
    let (m', run, same, read, other) =
      on_market_update_lem u m u.side mine mine' theirs b sided refl (rw type refl) h.book.levels
        applied book sizes in
    (
      m',
      run,
      subst (λ c. IsOrderBook c u.side mine' theirs) (sym same) book,
      opened-shows u.side new mine (shows u.side m.bbo) (shows u.side m'.bbo) read h.best,
      other ∙ h.best_other,
    )

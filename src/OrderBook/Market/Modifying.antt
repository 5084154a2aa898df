-- ===== src/OrderBook/Market/Modifying.antt =====
-- trading/strategy/market_order_book.cpp, `onMarketUpdate`: an order's quantity changes in its place.
use hft_system.Base.{
  ℕ, ◌^◌, ◌<◌, ◌≡◌, ◌≢◌, refl, sym, ap, ◌∙◌, subst, false, List, ◌∷◌, done, Option,
}
use hft_system.Base.Int.{ℤ}
use hft_system.Common.Types.{Side}
use hft_system.Common.MemPool.{MemPool}
use hft_system.Common.Ring.{All, All-left, All-right, All-append}
use hft_system.MarketData.Updates.{MarketUpdateType, MarketUpdate}
use hft_system.OrderBook.Orders.{Book}
use hft_system.OrderBook.Orders.Queues.{Item, Queue, IsItem, IsQueue, IsOrderBook}
use hft_system.OrderBook.Orders.Apart.{changed}
use hft_system.OrderBook.Orders.Changing.{Changes, Keeps, modify-IsOrderBook}
use hft_system.OrderBook.Market.{
  MarketOrder, order_node, market_book_order, MarketOrderBook, order_of, apply_modify, apply,
  Notification, on_market_update,
}
use hft_system.OrderBook.Market.Best.{shown}
use hft_system.OrderBook.Market.Refresh.{IsSized, IsMarketBook, refreshed, on_market_update_lem}
use hft_system.OrderBook.Market.Updates.{settled, behind-shown, replaced-All}

abbrev pub with_qty : ℕ → MarketOrder → MarketOrder
with_qty qty o = record o { qty = qty }

with_qty-Keeps : (qty : ℕ) → Keeps market_book_order (with_qty qty)
with_qty-Keeps qty = record {
  next-change = λ t. refl;
  prev-change = λ t. refl;
  payload-change = λ t. refl;
  side-change = λ t. refl;
  price-change = λ t. refl;
  key-change = λ t. refl;
}

module _ (p : MemPool MarketOrder) (oids : ℕ → Option ℕ) (side : Side)
    (change : MarketOrder → MarketOrder) where
  -- The order is one of the side's, and a change of it behind the best price is not shown.
  Changes-shown :
      (x : Item MarketOrder) (mine mine' : List (Queue MarketOrder))
      → Changes change x mine mine'
      → All (IsQueue p oids side) mine
      → (price : ℤ) × IsItem p oids side price x
        × (refreshed side x.order.price mine ≡ false → shown mine' ≡ shown mine)
  Changes-shown x _ _ (Changes.head before q behind) h =
      let mine = (All-right (IsQueue p oids side) before (q ∷ behind) h).0.items.0 in
      (q.price, mine, behind-shown side q.head.order.price before q behind _ mine.2)
  Changes-shown x _ _ (Changes.inner before q behind xs x' ys shape) h =
      let at = (All-right (IsQueue p oids side) before (q ∷ behind) h).0 in
      let items = subst (λ zs. All (IsItem p oids side q.price) zs) shape at.items.1 in
      let mine = (All-right (IsItem p oids side q.price) xs (x' ∷ ys) items).0 in
      (q.price, mine, behind-shown side x'.order.price before q behind _ mine.2)

abbrev IsSmall : Item MarketOrder → Type 0
IsSmall x = x.order.qty < 2 ^ 32

Changes-IsSized :
    (qty : ℕ) (x : Item MarketOrder) (mine mine' : List (Queue MarketOrder))
    → qty < 2 ^ 32
    → Changes (with_qty qty) x mine mine'
    → All IsSized mine
    → All IsSized mine'
Changes-IsSized qty x _ _ small (Changes.head before q behind) h =
    replaced-All IsSized before q behind _ h (λ here rest. ((small, here.1), rest))
Changes-IsSized qty x _ _ small (Changes.inner before q behind xs x' ys shape) h =
    replaced-All IsSized before q behind _ h (λ here rest.
      let items = subst (λ zs. All IsSmall zs) shape here.1 in
      (
        (
          here.0,
          All-append IsSmall xs (changed (with_qty qty) x' ∷ ys)
              (All-left IsSmall xs (x' ∷ ys) items)
              (small, (All-right IsSmall xs (x' ∷ ys) items).1),
        ),
        rest,
      ))

-- A modify to a 32-bit quantity that repeats its order's side and price, in a book whose rings lay out two sorted sides of
-- queues and whose best bid and offer are theirs: it succeeds, the order has the new quantity in its old
-- place, the best bid and offer are those of the queues again, and the trade engine is told of the side
-- and the price.
pub on_market_update-modifies :
    (u : MarketUpdate) (m : MarketOrderBook) (side : Side)
    (mine mine' theirs : List (Queue MarketOrder)) (x : Item MarketOrder)
    → side ≢ Side.invalid
    → u.type ≡ MarketUpdateType.modify
    → u.side ≡ side
    → u.qty < 2 ^ 32
    → u.price ≡ x.order.price
    → u.order_id ≡ x.order.order_id
    → Changes (with_qty u.qty) x mine mine'
    → IsMarketBook m side mine theirs
    → (m' : MarketOrderBook) × (on_market_update u m
        ≡ done (m', Notification.order_book_update u.ticker_id u.price u.side))
      × IsMarketBook m' side mine' theirs
unfolding apply apply_modify order_of
on_market_update-modifies u m side mine mine' theirs x sided type of small price id changes h =
    let (_, item, unseen) =
      Changes-shown m.book.order_pool m.book.oid_to_order side (with_qty u.qty) x mine mine' changes
        h.book.queues in
    let (p, ok, book) =
      modify-IsOrderBook (with_qty u.qty) m.book side mine mine' theirs x (with_qty-Keeps u.qty)
        sided changes h.book in
    let b : Book MarketOrder ℕ = record m.book { order_pool = p } in
    let applied : apply u.type u m.book ≡ done b = rw (type, id, item.4, item.3, ok) in
    let sizes = Changes-IsSized u.qty x mine mine' small changes h.sizes in
    let (m', run, same, read, other) =
      on_market_update_lem u m side mine mine' theirs b sided of (rw type refl) h.book.levels
        applied book sizes in
    (
      m',
      run,
      record {
        book = subst (λ c. IsOrderBook c side mine' theirs) (sym same) book;
        sizes = sizes;
        sizes_other = h.sizes_other;
        best =
            settled (shown mine) (shown mine') _ (refreshed side u.price mine) _ read h.best
              (λ f. unseen (ap (λ v. refreshed side v mine) (sym price) ∙ f));
        best_other = other ∙ h.best_other;
      },
    )

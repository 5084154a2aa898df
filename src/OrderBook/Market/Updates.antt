-- ===== src/OrderBook/Market/Updates.antt =====
-- trading/strategy/market_order_book.cpp, `onMarketUpdate`: adding and cancelling orders keeps the best
-- bid and offer those of the queues.
use hft_system.Base.{
  ℕ, ◌^◌, ◌<◌, ◌≡◌, ◌≢◌, refl, sym, ap, ◌∙◌, subst, Bool, true, false, not, Option, List, [], ◌∷◌,
  ◌++◌, arith, if◌then◌else◌, done,
}
use hft_system.Base.Int.{ℤ}
use hft_system.Common.Types.{Side}
use hft_system.Common.MemPool.{MemPool}
use hft_system.Common.Ring.{All, All-left, All-right, All-append}
use hft_system.MarketData.Updates.{MarketUpdateType, MarketUpdate}
use hft_system.OrderBook.Orders.Queues.{is_worse_irrefl, Item, Queue, IsItem, IsQueue, IsOrderBook}
use hft_system.OrderBook.Orders.Remove.{Deletes, Deletes-IsItem, remove_order-IsOrderBook}
use hft_system.OrderBook.Market.{
  MarketOrder, order_node, market_book_order, MarketOrderBook, order_of, apply_cancel, apply,
  Notification, on_market_update,
}
use hft_system.OrderBook.Market.Best.{shown}
use hft_system.OrderBook.Market.Refresh.{IsSized, IsMarketBook, refreshed, on_market_update_lem}

-- What is read of the sides when the ones that an update touches are read again.
pub settled :
    (old new before : ℤ × ℕ) (f : Bool) (read : ℤ × ℕ)
    → read ≡ (if f then new else before)
    → before ≡ old
    → (f ≡ false → new ≡ old)
    → read ≡ new
settled old new before true read e h k = e
settled old new before false read e h k = e ∙ h ∙ sym (k refl)

-- The first queue of a side.
abbrev first_queue : List (Queue MarketOrder) → List (Queue MarketOrder)
first_queue [] = []
first_queue (q ∷ qs) = q ∷ []

not-false : (b : Bool) → not b ≡ false → b ≡ true
not-false true h = refl
not-false false h = ground (arith, h)

-- A queue at a price behind the best one may be replaced unseen.
pub behind-shown :
    (side : Side) (price : ℤ) (before : List (Queue MarketOrder)) (q : Queue MarketOrder)
    (behind new : List (Queue MarketOrder))
    → price ≡ q.price
    → refreshed side price (before ++ q ∷ behind) ≡ false
    → shown (before ++ new) ≡ shown (before ++ q ∷ behind)
behind-shown side price [] q behind new same f =
    absurd (is_worse_irrefl side price q.price (not-false _ f) same)
behind-shown side price (r ∷ rs) q behind new same f = refl

module _ (p : MemPool MarketOrder) (oids : ℕ → Option ℕ) (side : Side) where
  Deletes-shown :
      (x : Item MarketOrder) (mine mine' : List (Queue MarketOrder))
      → Deletes x mine mine'
      → All (IsQueue p oids side) mine
      → refreshed side x.order.price mine ≡ false
      → shown mine' ≡ shown mine
  Deletes-shown x _ _ (Deletes.only before q behind shape) h f =
      let at = (All-right (IsQueue p oids side) before (q ∷ behind) h).0 in
      behind-shown side q.head.order.price before q behind behind at.items.0.2 f
  Deletes-shown x _ _ (Deletes.head before q behind t ts shape) h f =
      let at = (All-right (IsQueue p oids side) before (q ∷ behind) h).0 in
      behind-shown side q.head.order.price before q behind
        (record q { head = t; tail = ts } ∷ behind) at.items.0.2 f
  Deletes-shown x _ _ (Deletes.inner before q behind xs x' ys shape) h f =
      let at = (All-right (IsQueue p oids side) before (q ∷ behind) h).0 in
      let items = subst (λ zs. All (IsItem p oids side q.price) zs) shape at.items.1 in
      let mine = (All-right (IsItem p oids side q.price) xs (x' ∷ ys) items).0 in
      behind-shown side x'.order.price before q behind (record q { tail = xs ++ ys } ∷ behind)
        mine.2 f

abbrev IsSmall : Item MarketOrder → Type 0
IsSmall x = x.order.qty < 2 ^ 32

pub replaced-All {κ} :
    {A : Type 0} (P : A → Type κ) (before : List A) (q : A) (behind new : List A)
    → All P (before ++ q ∷ behind)
    → (P q → All P behind → All P new)
    → All P (before ++ new)
replaced-All P before q behind new h k =
    let (here, rest) = All-right P before (q ∷ behind) h in
    All-append P before new (All-left P before (q ∷ behind) h) (k here rest)

Deletes-IsSized :
    (x : Item MarketOrder) (mine mine' : List (Queue MarketOrder))
    → Deletes x mine mine'
    → All IsSized mine
    → All IsSized mine'
Deletes-IsSized x _ _ (Deletes.only before q behind shape) h =
    replaced-All IsSized before q behind behind h (λ here rest. rest)
Deletes-IsSized x _ _ (Deletes.head before q behind t ts shape) h =
    replaced-All IsSized before q behind _ h
      (λ here rest. (subst (λ zs. All IsSmall zs) shape here.1, rest))
Deletes-IsSized x _ _ (Deletes.inner before q behind xs x' ys shape) h =
    replaced-All IsSized before q behind _ h (λ here rest.
      let items = subst (λ zs. All IsSmall zs) shape here.1 in
      (
        (
          here.0,
          All-append IsSmall xs ys (All-left IsSmall xs (x' ∷ ys) items)
              (All-right IsSmall xs (x' ∷ ys) items).1,
        ),
        rest,
      ))

-- A cancel that repeats its order's side and price, in a book whose rings lay out two sorted sides of
-- queues and whose best bid and offer are theirs: it succeeds, the queues lose that order, the best bid
-- and offer are those of the queues again, and the trade engine is told of the side and the price.
pub on_market_update-cancels :
    (u : MarketUpdate) (m : MarketOrderBook) (side : Side)
    (mine mine' theirs : List (Queue MarketOrder)) (x : Item MarketOrder)
    → side ≢ Side.invalid
    → u.type ≡ MarketUpdateType.cancel
    → u.side ≡ side
    → u.price ≡ x.order.price
    → u.order_id ≡ x.order.order_id
    → Deletes x mine mine'
    → IsMarketBook m side mine theirs
    → (m' : MarketOrderBook) × (on_market_update u m
        ≡ done (m', Notification.order_book_update u.ticker_id u.price u.side))
      × IsMarketBook m' side mine' theirs
unfolding apply apply_cancel order_of
on_market_update-cancels u m side mine mine' theirs x sided type of price id deletes h =
    let (_, item) =
      Deletes-IsItem m.book.order_pool m.book.oid_to_order side x mine mine' deletes
        h.book.queues in
    let (b, ok, book, _, _) =
      remove_order-IsOrderBook m.book side mine mine' theirs x sided deletes h.book in
    let applied : apply u.type u m.book ≡ done b = rw (type, id, item.4, item.3) ok in
    let sizes = Deletes-IsSized x mine mine' deletes h.sizes in
    let (m', run, same, read, other) =
      on_market_update_lem u m side mine mine' theirs b sided of (rw type refl) h.book.levels
        applied book sizes in
    (
      m',
      run,
      record {
        book = subst (λ c. IsOrderBook c side mine' theirs) (sym same) book;
        sizes = sizes;
        sizes_other = h.sizes_other;
        best =
            settled (shown mine) (shown mine') _ (refreshed side u.price mine) _ read h.best (λ f.
              Deletes-shown m.book.order_pool m.book.oid_to_order side x mine mine' deletes
                h.book.queues (ap (λ v. refreshed side v mine) (sym price) ∙ f));
        best_other = other ∙ h.best_other;
      },
    )

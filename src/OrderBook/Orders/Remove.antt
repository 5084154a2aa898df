-- ===== src/OrderBook/Orders/Remove.antt =====
-- trading/strategy/market_order_book.h, `removeOrder`: the whole operation on a book.
use hft_system.Base.{ℕ, ◌≡◌, ◌≢◌, subst, Option, none, List, [], ◌∷◌, ◌++◌, done}
use hft_system.Base.Int.{ℤ}
use hft_system.Common.Types.{Side}
use hft_system.Common.MemPool.{MemPool, live}
use hft_system.Common.Node.{Node}
use hft_system.Common.Ring.{All, All-right}
use hft_system.OrderBook.Levels.{level_node}
use hft_system.OrderBook.Orders.{BookOrder, Book, entered, remove_order}
use hft_system.OrderBook.Orders.Queues.{Item, Queue, IsItem, IsQueue, IsOrderBook}
use hft_system.OrderBook.Orders.Unqueue.{closes, moves_up, closes_up}

-- An order is taken out of the queues of a side. A level goes with its last order.
pub data Deletes {T : Type 0} : Item T → List (Queue T) → List (Queue T) → Type 0 where
  only :
      (before : List (Queue T)) (q : Queue T) (behind : List (Queue T))
      → q.tail ≡ []
      → Deletes q.head (before ++ q ∷ behind) (before ++ behind)
  head :
      (before : List (Queue T)) (q : Queue T) (behind : List (Queue T)) (t : Item T)
      (ts : List (Item T))
      → q.tail ≡ t ∷ ts
      → Deletes q.head (before ++ q ∷ behind) (before ++ record q { head = t; tail = ts } ∷ behind)
  inner :
      (before : List (Queue T)) (q : Queue T) (behind : List (Queue T)) (xs : List (Item T))
      (x : Item T) (ys : List (Item T))
      → q.tail ≡ xs ++ x ∷ ys
      → Deletes x (before ++ q ∷ behind) (before ++ record q { tail = xs ++ ys } ∷ behind)

module _ {T K : Type 0} ⦃node : Node T⦄ ⦃order : BookOrder T K node⦄ where
  -- The order that leaves is one of the side's.
  pub Deletes-IsItem :
      (p : MemPool T) (oids : K → Option ℕ) (side : Side) (x : Item T) (mine mine' : List (Queue T))
      → Deletes x mine mine'
      → All (IsQueue p oids side) mine
      → (price : ℤ) × IsItem p oids side price x
  Deletes-IsItem p oids side x _ _ (Deletes.only before q behind shape) h =
      (q.price, (All-right (IsQueue p oids side) before (q ∷ behind) h).0.items.0)
  Deletes-IsItem p oids side x _ _ (Deletes.head before q behind t ts shape) h =
      (q.price, (All-right (IsQueue p oids side) before (q ∷ behind) h).0.items.0)
  Deletes-IsItem p oids side x _ _ (Deletes.inner before q behind xs x' ys shape) h =
      let at = (All-right (IsQueue p oids side) before (q ∷ behind) h).0 in
      let items = subst (λ zs. All (IsItem p oids side q.price) zs) shape at.items.1 in
      (q.price, (All-right (IsItem p oids side q.price) xs (x' ∷ ys) items).0)

  -- Of a book whose rings lay out two sorted sides of queues, an order wherever it stands is removed
  -- without fault: the queues are those without it, in their order, its level is gone if it was the last
  -- one there, its block is given back, and its number leads nowhere.
  pub remove_order-IsOrderBook :
      (b : Book T K) (side : Side) (mine mine' theirs : List (Queue T)) (x : Item T)
      → side ≢ Side.invalid
      → Deletes x mine mine'
      → IsOrderBook b side mine theirs
      → (b' : Book T K) × (remove_order x.at b ≡ done b')
        × IsOrderBook b' side mine' theirs
        × (live b'.order_pool x.at ≡ none)
        × (b'.oid_to_order ≡ entered order.same b.oid_to_order (order.key x.order) none)
  remove_order-IsOrderBook b side mine mine' theirs x sided (only before q behind shape) book =
      closes b side before q behind theirs sided book shape
  remove_order-IsOrderBook b side mine mine' theirs x sided (head before q behind t ts shape) book =
      moves_up b side before q behind theirs sided book t ts shape
  remove_order-IsOrderBook b side mine mine' theirs x sided (inner before q behind xs x' ys shape)
        book =
      closes_up b side before q behind theirs sided book xs x' ys shape

-- ===== src/OrderBook/Orders.antt =====
-- trading/strategy/market_order_book.h and exchange/matcher/me_order_book.h, which share the code:
-- the orders of a level form a ring, the oldest first, and an array leads to an order by its number.
pub mod Links
pub mod Queues
pub mod Joining
pub mod Leaving
pub mod Dropping
pub mod Away
pub mod Sides
pub mod Add
pub mod Open
mod Unlinked
pub mod Unqueue
pub mod Remove
pub mod Apart
pub mod Changing
use hft_system.Base.{
  ℕ, ◌≡◌, Bool, true, false, Option, none, some, ◌==◌, if◌then◌else◌, Outcome, done, exits,
  undefined, ◌>>=◌, defined,
}
use hft_system.Base.Int.{ℤ, pos}
use hft_system.Common.Types.{Side}
use hft_system.Common.MemPool.{MemPool, load, modify, allocate, deallocate}
use hft_system.Common.Node.{Node, link_last, link_self, clear_links}
use hft_system.OrderBook.Levels.{
  OrdersAtPrice, level_node, Levels, is_at, get_orders_at_price, add_orders_at_price,
  remove_orders_at_price,
}
use hft_system.OrderBook.Levels.Heads.{with_first}

-- What the code reads of an order. `K` are the indices of its array, which `in_range` holds those of.
pub record BookOrder (T : Type 0) (K : Type 0) (node : Node T) : Type 0 where
  pub side : T → Side
  pub price : T → ℤ
  pub key : T → K
  pub in_range : K → Bool
  pub same : K → K → Bool
  pub side-payload : (t : T) → side (node.payload t) ≡ side t
  pub price-payload : (t : T) → price (node.payload t) ≡ price t
  pub key-payload : (t : T) → key (node.payload t) ≡ key t
  pub same-refl : (k : K) → same k k ≡ true
  pub same-eq : (j k : K) → same j k ≡ true → j ≡ k

-- The members of `MarketOrderBook` and of `MEOrderBook` that hold orders.
pub record Book (T K : Type 0) : Type 0 where
  pub levels : Levels
  pub order_pool : MemPool T
  pub oid_to_order : K → Option ℕ

-- The array with one entry changed.
abbrev pub entered : {K : Type 0} → (K → K → Bool) → (K → Option ℕ) → K → Option ℕ → K → Option ℕ
entered same oids k v j = if same j k then v else oids j

module _ {T : Type 0} ⦃node : Node T⦄ where
  -- `order_before->next_order_ = order_after; order_after->prev_order_ = order_before;`
  unfoldable pub pass_over : Option ℕ → Option ℕ → MemPool T → Outcome (MemPool T)
  pass_over order_before order_after p = do
    p₁ ← modify order_before (node.with_next order_after) p
    modify order_after (node.with_prev order_before) p₁

-- The next order takes the place of the first one.
unfoldable pub replace_first : ℕ → Option ℕ → Option ℕ → Levels → Outcome Levels
replace_first i order_after level ls = do
  l ← load level ls.pool
  if is_at l.first_order i
      then (do lp ← modify level (with_first order_after) ls.pool; done (record ls { pool = lp }))
      else done ls

module _ {T K : Type 0} ⦃node : Node T⦄ ⦃order : BookOrder T K node⦄ where
  -- `array.at(key) = order`; an index out of range throws, which ends a `noexcept` function's process.
  unfoldable pub set_order : K → Option ℕ → Book T K → Outcome (Book T K)
  set_order k v b =
      if order.in_range k
      then done (record b { oid_to_order = entered order.same b.oid_to_order k v })
      else exits

  -- Into a new level, or at the end of the queue of the one there is.
  unfoldable pub queue_order : ℕ → T → Option ℕ → Book T K → Outcome (Book T K)
  queue_order i o none b = do
    p ← link_self i b.order_pool
    (level, lp) ←
        allocate
          (record {
            side = order.side o;
            price = order.price o;
            first_order = some i;
            prev_entry = none;
            next_entry = none;
          })
          b.levels.pool
    ls ← add_orders_at_price level (record b.levels { pool = lp })
    done (record b { levels = ls; order_pool = p })
  queue_order i o (some level) b = do
    l ← load (some level) b.levels.pool
    first_order ← defined l.first_order
    p ← link_last first_order i b.order_pool
    done (record b { order_pool = p })

  unfoldable pub add_order : ℕ → Book T K → Outcome (Book T K)
  add_order i b = do
    o ← load (some i) b.order_pool
    b' ← queue_order i o (get_orders_at_price (order.price o) b.levels) b
    set_order (order.key o) (some i) b'

  unfoldable pub unqueue_order : ℕ → T → Book T K → Outcome (Book T K)
  unqueue_order i o b =
      if is_at (node.prev o) i
      then (remove_orders_at_price (order.side o) (order.price o) b.levels >>= λ ls.
          done (record b { levels = ls }))
      else (do
        p ← pass_over (node.prev o) (node.next o) b.order_pool
        ls ← replace_first i (node.next o) (get_orders_at_price (order.price o) b.levels) b.levels
        p' ← clear_links i p
        done (record b { levels = ls; order_pool = p' }))

  unfoldable pub remove_order : ℕ → Book T K → Outcome (Book T K)
  remove_order i b = do
    o ← load (some i) b.order_pool
    b₁ ← unqueue_order i o b
    b₂ ← set_order (order.key o) none b₁
    p ← deallocate (pos i) b₂.order_pool
    done (record b₂ { order_pool = p })

-- ===== src/OrderBook/Orders/Unlinked.antt =====
-- trading/strategy/market_order_book.cpp, removeOrder: the branches of the code, from what it reads.
use hft_system.Base.{ℕ, ◌≡◌, ◌≢◌, sym, ap, ◌∙◌, true, false, Option, none, some, ◌==◌, arith, done}
use hft_system.Base.Int.{ℤ, pos}
use hft_system.Common.Types.{Side}
use hft_system.Common.MemPool.{MemPool, live, modify, deallocate}
use hft_system.Common.MemPool.Access.{load-live}
use hft_system.Common.Node.{Node, read_payload, clear_links}
use hft_system.OrderBook.Levels.{
  OrdersAtPrice, level_node, Levels, remove_orders_at_price, price_to_index,
}
use hft_system.OrderBook.Levels.Heads.{with_first}
use hft_system.OrderBook.Orders.{
  BookOrder, Book, entered, set_order, pass_over, replace_first, unqueue_order, remove_order,
}
use hft_system.OrderBook.Orders.Queues.{Item, IsItem}
use hft_system.OrderBook.Orders.Leaving.{IsLive-payload}
use hft_system.OrderBook.Orders.Add.{get_known}

pub replace_first-kept :
    (i : ℕ) (y : Option ℕ) (level first : ℕ) (ls : Levels) (l : OrdersAtPrice)
    → live ls.pool level ≡ some l
    → l.first_order ≡ some first
    → first ≢ i
    → replace_first i y (some level) ls ≡ done ls
unfolding replace_first
replace_first-kept i y level first ls l at heads ne =
    let other : (first == i) ≡ false = ground (arith, ne) in
    rw (load-live ls.pool level at, heads, other)

pub replace_first-moved :
    (i : ℕ) (y : Option ℕ) (level : ℕ) (ls : Levels) (l : OrdersAtPrice)
    (lp : MemPool OrdersAtPrice)
    → live ls.pool level ≡ some l
    → l.first_order ≡ some i
    → modify (some level) (with_first y) ls.pool ≡ done lp
    → replace_first i y (some level) ls ≡ done (record ls { pool = lp })
unfolding replace_first
replace_first-moved i y level ls l lp at heads ok =
    let same : (i == i) ≡ true = ground arith in rw (load-live ls.pool level at, heads, same, ok)

module _ {T K : Type 0} ⦃node : Node T⦄ ⦃order : BookOrder T K node⦄ where
  -- What the code reads of an order of a queue.
  pub record Reads (b : Book T K) (side : Side) (price : ℤ) (x : Item T) : Type 0 where
    pub o : T
    pub at : live b.order_pool x.at ≡ some o
    pub of_side : order.side o ≡ side
    pub of_price : order.price o ≡ price
    pub of_key : order.key o ≡ order.key x.order
    pub ranged : order.in_range (order.key x.order) ≡ true

  pub reads :
      (b : Book T K) (side : Side) (price : ℤ) (x : Item T)
      → IsItem b.order_pool b.oid_to_order side price x
      → Reads b side price x
  reads b side price x h =
      let (o, at) = IsLive-payload b.order_pool x.at x.order h.0 in
      let same : node.payload o ≡ x.order = ground (arith, ap read_payload at, h.0) in
      record {
        o = o;
        at = at;
        of_side = sym (order.side-payload o) ∙ ap order.side same ∙ h.1;
        of_price = sym (order.price-payload o) ∙ ap order.price same ∙ h.2;
        of_key = sym (order.key-payload o) ∙ ap order.key same;
        ranged = h.4;
      }

  pub unqueue_alone :
      (i : ℕ) (o : T) (b : Book T K) (side : Side) (price : ℤ) (ls : Levels)
      → node.prev o ≡ some i
      → order.side o ≡ side
      → order.price o ≡ price
      → remove_orders_at_price side price b.levels ≡ done ls
      → unqueue_order i o b ≡ done (record b { levels = ls })
  unfolding unqueue_order
  unqueue_alone i o b side price ls prev s v ok =
      let same : (i == i) ≡ true = ground arith in rw (prev, same, s, v, ok)

  pub unqueue_linked :
      (i : ℕ) (o : T) (b : Book T K) (price : ℤ) (l y level : ℕ) (p₁ p₂ : MemPool T) (ls : Levels)
      → node.prev o ≡ some l
      → node.next o ≡ some y
      → i ≢ l
      → order.price o ≡ price
      → b.levels.price_orders_at_price (price_to_index price) ≡ some level
      → pass_over (some l) (some y) b.order_pool ≡ done p₁
      → replace_first i (some y) (some level) b.levels ≡ done ls
      → clear_links i p₁ ≡ done p₂
      → unqueue_order i o b ≡ done (record b { levels = ls; order_pool = p₂ })
  unfolding unqueue_order
  unqueue_linked i o b price l y level p₁ p₂ ls prev next ne v found ok₁ ok₂ ok₃ =
      let other : (l == i) ≡ false = ground (arith, ne) in
      rw (prev, other, next, ok₁, v, get_known price b.levels (some level) found, ok₂, ok₃)

  pub remove_order_lem :
      (i : ℕ) (o : T) (k : K) (b b₁ : Book T K) (p : MemPool T)
      → live b.order_pool i ≡ some o
      → order.key o ≡ k
      → order.in_range k ≡ true
      → unqueue_order i o b ≡ done b₁
      → deallocate (pos i) b₁.order_pool ≡ done p
      → remove_order i b
        ≡ done
            (record b₁ { oid_to_order = entered order.same b₁.oid_to_order k none; order_pool = p })
  unfolding remove_order set_order
  remove_order_lem i o k b b₁ p at key ranged ok ok' =
      rw (load-live b.order_pool i at, ok, key, ranged, ok')

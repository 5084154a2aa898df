-- ===== src/OrderBook/Orders/Add.antt =====
-- trading/strategy/market_order_book.h, `addOrder`: the whole operation on a book.
use hft_system.Base.{
  ℕ, ◌≡◌, ◌≢◌, refl, sym, ap, ◌∙◌, subst, true, Option, none, some, List, [], ◌∷◌, ◌++◌, done,
}
use hft_system.Base.Int.{ℤ}
use hft_system.Common.Types.{Side}
use hft_system.Common.MemPool.{MemPool, live, allocate}
use hft_system.Common.MemPool.Access.{load-live}
use hft_system.Common.Node.{Node, link_last, link_self}
use hft_system.Common.Node.Writes.{Edits-Untouched}
use hft_system.Common.Ring.{All, All-map, All-left, All-right, All-append}
use hft_system.OrderBook.Levels.{
  OrdersAtPrice, level_node, Levels, get_orders_at_price, add_orders_at_price, price_to_index,
}
use hft_system.OrderBook.Levels.Rows.{IsLevel, opposite}
use hft_system.OrderBook.Levels.Book.{IsBook, IsKnown}
use hft_system.OrderBook.Orders.{BookOrder, Book, entered, set_order, queue_order, add_order}
use hft_system.OrderBook.Orders.Queues.{
  Queue, row_of, rows, rows-append, IsQueue, IsOrderBook, Spares-queues, Elsewhere,
}
use hft_system.OrderBook.Orders.Joining.{join_behind}
use hft_system.OrderBook.Orders.Away.{IsSorted-Elsewhere, opposite-Elsewhere}

pub get_known :
    (price : ℤ) (ls : Levels) (v : Option ℕ)
    → ls.price_orders_at_price (price_to_index price) ≡ v
    → get_orders_at_price price ls ≡ v
unfolding get_orders_at_price
get_known price ls v h = h

module _ {T : Type 0} where
  pub rows-same :
      (before : List (Queue T)) (q q' : Queue T) (behind : List (Queue T))
      → row_of q' ≡ row_of q
      → rows (before ++ q' ∷ behind) ≡ rows (before ++ q ∷ behind)
  rows-same [] q q' behind e = ap (λ r. r ∷ rows behind) e
  rows-same (x ∷ xs) q q' behind e = ap (◌∷◌ (row_of x)) (rows-same xs q q' behind e)

module _ {T K : Type 0} ⦃node : Node T⦄ ⦃order : BookOrder T K node⦄ where
  queue_behind :
      (i : ℕ) (o : T) (level first : ℕ) (b : Book T K) (l : OrdersAtPrice) (p : MemPool T)
      → live b.levels.pool level ≡ some l
      → l.first_order ≡ some first
      → link_last first i b.order_pool ≡ done p
      → queue_order i o (some level) b ≡ done (record b { order_pool = p })
  unfolding queue_order
  queue_behind i o level first b l p at heads ok = rw (load-live b.levels.pool level at, heads, ok)

  pub queue_alone :
      (i : ℕ) (o : T) (b : Book T K) (p : MemPool T) (level : ℕ) (lp : MemPool OrdersAtPrice)
      (ls : Levels)
      → link_self i b.order_pool ≡ done p
      → allocate
          (record {
            side = order.side o;
            price = order.price o;
            first_order = some i;
            prev_entry = none;
            next_entry = none;
          })
          b.levels.pool
        ≡ done (level, lp)
      → add_orders_at_price level (record b.levels { pool = lp }) ≡ done ls
      → queue_order i o none b ≡ done (record b { levels = ls; order_pool = p })
  unfolding queue_order
  queue_alone i o b p level lp ls ok₁ ok₂ ok₃ = rw (ok₁, ok₂, ok₃)

  pub add_order_lem :
      (i : ℕ) (o : T) (b b₁ : Book T K) (level : Option ℕ)
      → live b.order_pool i ≡ some o
      → b.levels.price_orders_at_price (price_to_index (order.price o)) ≡ level
      → queue_order i o level b ≡ done b₁
      → order.in_range (order.key o) ≡ true
      → add_order i b
        ≡ done
            (record b₁ { oid_to_order = entered order.same b₁.oid_to_order (order.key o) (some i) })
  unfolding add_order set_order
  add_order_lem i o b b₁ level at found ok ranged =
      rw (load-live b.order_pool i at, get_known (order.price o) b.levels level found, ok, ranged)

  -- A book whose rings lay out two sorted sides of queues, at a price that one of them has: an order in use,
  -- of a valid side and with a number in range that the array does not know, becomes the last of that queue,
  -- and is found by its number.
  pub add_order-behind :
      (b : Book T K) (i : ℕ) (o : T) (before : List (Queue T)) (q : Queue T)
      (behind theirs : List (Queue T))
      → order.side o ≢ Side.invalid
      → IsOrderBook b (order.side o) (before ++ q ∷ behind) theirs
      → live b.order_pool i ≡ some o
      → q.price ≡ order.price o
      → b.oid_to_order (order.key o) ≡ none
      → order.in_range (order.key o) ≡ true
      → (b' : Book T K) × (add_order i b ≡ done b')
        × IsOrderBook b'
            (order.side o)
            (before
              ++ record q { tail = q.tail ++ record { at = i; order = node.payload o } ∷ [] }
                ∷ behind)
            theirs
        × (b'.oid_to_order ≡ entered order.same b.oid_to_order (order.key o) (some i))
  add_order-behind b i o before q behind theirs sided book at same_price fresh ranged =
      let side = order.side o in
      let q' : Queue T = record q {
        tail = q.tail ++ record { at = i; order = node.payload o } ∷ [];
      } in
      let oids' = entered order.same b.oid_to_order (order.key o) (some i) in
      let h =
        (All-right (IsQueue b.order_pool b.oid_to_order side) before (q ∷ behind) book.queues).0 in
      let (p, ok, e, mine, s) =
        join_behind b.order_pool b.oid_to_order o i at fresh ranged q h same_price in
      let (away_before, away_behind) =
        IsSorted-Elsewhere side before q behind book.levels.laid.sorted in
      let to_price =
        λ (r : Queue T) (k : Elsewhere side r.price side q.price)
            (f : (side ≡ side) × (r.price ≡ order.price o)).
          k (f.0, f.1 ∙ sym same_price) in
      let split = rows-append before (q ∷ behind) in
      let known : b.levels.price_orders_at_price (price_to_index (order.price o)) ≡ some q.at =
        ap (λ v. b.levels.price_orders_at_price (price_to_index v)) (sym same_price)
        ∙ (All-right _ (rows before) (row_of q ∷ rows behind)
            (subst (λ rs. IsKnown b.levels.price_orders_at_price rs) split book.levels.known)).0 in
      let level =
        (All-right _ (rows before) (row_of q ∷ rows behind)
          (subst (λ rs. All (IsLevel b.levels.pool side) rs) split book.levels.laid.levels)).0 in
      let b₁ : Book T K = record b { order_pool = p } in
      (
        record b₁ { oid_to_order = oids' },
        add_order_lem i o b b₁ (some q.at) at known
            (queue_behind i o q.at q.head.at b level.0 p level.1 level.4 ok) ranged,
        record {
          levels =
              subst (λ rs. IsBook b.levels side rs (rows theirs))
                (sym (rows-same before q q' behind refl)) book.levels;
          queues =
              All-append (IsQueue p oids' side) before (q' ∷ behind)
                (Spares-queues b.order_pool p b.oid_to_order oids' side side (order.price o) before
                  s (All-map _ _ before to_price away_before)
                  (All-left (IsQueue b.order_pool b.oid_to_order side) before (q ∷ behind)
                    book.queues))
                (
                  mine,
                  Spares-queues b.order_pool p b.oid_to_order oids' side side (order.price o) behind
                      s (All-map _ _ behind to_price away_behind)
                      (All-right (IsQueue b.order_pool b.oid_to_order side) before (q ∷ behind)
                        book.queues).1,
                );
          queues_other =
              Spares-queues b.order_pool p b.oid_to_order oids' side (opposite side) (order.price o)
                theirs s (opposite-Elsewhere side (order.price o) theirs sided) book.queues_other;
          level_pool = book.level_pool;
          order_pool = Edits-Untouched e book.order_pool;
        },
        refl,
      )

-- ===== src/OrderBook/Orders/Open.antt =====
-- trading/strategy/market_order_book.h, `addOrder`: an order at a new price opens a level.
use hft_system.Base.{
  ℕ, ◌≡◌, ◌≢◌, refl, sym, ap, ◌∙◌, subst, true, none, some, List, [], ◌∷◌, ◌==◌, arith,
  if◌then◌else◌, done,
}
use hft_system.Base.Int.{ℤ}
use hft_system.Common.Types.{Side}
use hft_system.Common.MemPool.{MemPool, live, allocate}
use hft_system.Common.MemPool.Access.{Untouched, HasSpare, allocate-Untouched}
use hft_system.Common.Node.{Node}
use hft_system.Common.Node.Writes.{Edits-Untouched}
use hft_system.Common.Ring.{All}
use hft_system.OrderBook.Levels.{
  OrdersAtPrice, level_node, Levels, get_orders_at_price, add_orders_at_price, price_to_index,
}
use hft_system.OrderBook.Levels.Rows.{Row, places, IsLevel, insert_row, opposite}
use hft_system.OrderBook.Levels.Placed.{best_of-pool}
use hft_system.OrderBook.Levels.Book.{IsBook, IsUnindexed}
use hft_system.OrderBook.Levels.Add.{add_orders_at_price-IsBook}
use hft_system.OrderBook.Levels.Remove.{same_objects}
use hft_system.OrderBook.Orders.{BookOrder, Book, entered, add_order}
use hft_system.OrderBook.Orders.Queues.{Queue, rows, IsQueue, IsOrderBook, Spares-queues, Elsewhere}
use hft_system.OrderBook.Orders.Joining.{join_alone}
use hft_system.OrderBook.Orders.Add.{queue_alone, add_order_lem}
use hft_system.OrderBook.Orders.Away.{
  opposite-Elsewhere, insert_queue, rows-insert_queue, insert_queue-All,
}

-- A book of levels in a pool with one object more.
module _ (ls : Levels) (lp : MemPool OrdersAtPrice) (n : ℕ) (new : OrdersAtPrice)
    (dead : live ls.pool n ≡ none)
    (lives : (j : ℕ) → live lp j ≡ (if j == n then some new else live ls.pool j)) where
  same_levels :
      (side : Side) (rs : List Row)
      → All (IsLevel ls.pool side) rs
      → All (λ j. live lp j ≡ live ls.pool j) (places rs) × All (λ j. n ≢ j) (places rs)
  same_levels side [] h = (tt, tt)
  same_levels side (r ∷ rs) h =
      let (s, ne) = same_levels side rs h.1 in
      let off : n ≢ r.at = λ e. ground (arith, h.0.1, dead, ap (live ls.pool) e) in
      ((lives r.at ∙ ground (arith, off), s), (off, ne))

  grown-IsBook :
      (side : Side) (mine theirs : List Row)
      → IsBook ls side mine theirs
      → IsBook (record ls { pool = lp }) side mine theirs
  grown-IsBook side mine theirs book = record {
    laid = same_objects ls.pool lp side mine (same_levels side mine book.laid.levels).0 book.laid;
    laid_other =
        same_objects ls.pool lp (opposite side) theirs
          (same_levels (opposite side) theirs book.laid_other.levels).0 book.laid_other;
    head = best_of-pool side ls lp ∙ book.head;
    head_other = best_of-pool (opposite side) ls lp ∙ book.head_other;
    apart = book.apart;
    known = book.known;
    known_other = book.known_other;
  }

-- A level from the pool is added to the levels.
record Opened (ls : Levels) (side : Side) (price : ℤ) (i : ℕ) (mine theirs : List Row)
    : Type 0 where
  lp : MemPool OrdersAtPrice
  after : Levels
  allocates :
      allocate
        (record {
          side = side;
          price = price;
          first_order = some i;
          prev_entry = none;
          next_entry = none;
        })
        ls.pool
      ≡ done (ls.pool.next_free_index, lp)
  adds : add_orders_at_price ls.pool.next_free_index (record ls { pool = lp }) ≡ done after
  book :
      IsBook after side
        (insert_row side
          (record { at = ls.pool.next_free_index; price = price; first_order = some i })
          mine)
        theirs
  untouched : Untouched after.pool

open_level :
    (ls : Levels) (side : Side) (price : ℤ) (i : ℕ) (mine theirs : List Row)
    → side ≢ Side.invalid
    → IsBook ls side mine theirs
    → Untouched ls.pool
    → HasSpare ls.pool
    → IsUnindexed price mine
    → IsUnindexed price theirs
    → Opened ls side price i mine theirs
open_level ls side price i mine theirs sided book u spare index index_other =
    let new : OrdersAtPrice = record {
      side = side;
      price = price;
      first_order = some i;
      prev_entry = none;
      next_entry = none;
    } in
    let n = ls.pool.next_free_index in
    let (lp, ok, u', dead, lives, _, _) = allocate-Untouched new ls.pool u spare in
    let here : live lp n ≡ some new = lives n ∙ ground arith in
    let (after, ok', book', _, e) =
      add_orders_at_price-IsBook (record ls { pool = lp }) side mine theirs
        (record { at = n; price = price; first_order = some i }) sided
        (grown-IsBook ls lp n new dead lives side mine theirs book) (new, here, refl, refl, refl)
        (same_levels ls lp n new dead lives side mine book.laid.levels).1
        (same_levels ls lp n new dead lives (opposite side) theirs book.laid_other.levels).1 index
        index_other in
    record {
      lp = lp;
      after = after;
      allocates = ok;
      adds = ok';
      book = book';
      untouched = Edits-Untouched e u';
    }

module _ {T : Type 0} where
  -- Rows with other indices have other prices.
  IsUnindexed-Elsewhere :
      (side : Side) (price : ℤ) (qs : List (Queue T))
      → IsUnindexed price (rows qs)
      → All (λ (q : Queue T). Elsewhere side q.price side price) qs
  IsUnindexed-Elsewhere side price [] h = tt
  IsUnindexed-Elsewhere side price (q ∷ qs) h =
      ((λ e. h.0 (ap price_to_index (sym e.1))), IsUnindexed-Elsewhere side price qs h.1)

module _ {T K : Type 0} ⦃node : Node T⦄ ⦃order : BookOrder T K node⦄ where
  -- A book whose rings lay out two sorted sides of queues, with room for one level more, at a price whose
  -- array entry is empty and whose index no level has: an order in use, of a valid side and with a number in
  -- range that the array does not know, opens a level at its place in the side, and is found by its number.
  pub add_order-opens :
      (b : Book T K) (i : ℕ) (o : T) (mine theirs : List (Queue T))
      → order.side o ≢ Side.invalid
      → IsOrderBook b (order.side o) mine theirs
      → live b.order_pool i ≡ some o
      → HasSpare b.levels.pool
      → get_orders_at_price (order.price o) b.levels ≡ none
      → IsUnindexed (order.price o) (rows mine)
      → IsUnindexed (order.price o) (rows theirs)
      → b.oid_to_order (order.key o) ≡ none
      → order.in_range (order.key o) ≡ true
      → (b' : Book T K) × (add_order i b ≡ done b')
        × IsOrderBook b'
            (order.side o)
            (insert_queue
              (order.side o)
              (record {
                at = b.levels.pool.next_free_index;
                price = order.price o;
                head = record { at = i; order = node.payload o };
                tail = [];
              })
              mine)
            theirs
        × (b'.oid_to_order ≡ entered order.same b.oid_to_order (order.key o) (some i))
  unfolding get_orders_at_price
  add_order-opens b i o mine theirs sided book at spare absent index index_other fresh ranged =
      let side = order.side o in
      let oids' = entered order.same b.oid_to_order (order.key o) (some i) in
      let n = b.levels.pool.next_free_index in
      let new : Queue T = record {
        at = n;
        price = order.price o;
        head = record { at = i; order = node.payload o };
        tail = [];
      } in
      let (p, ok, e, alone, s) = join_alone b.order_pool b.oid_to_order o i at fresh ranged n in
      let w =
        open_level b.levels side (order.price o) i (rows mine) (rows theirs) sided book.levels
          book.level_pool spare index index_other in
      let b₁ : Book T K = record b { levels = w.after; order_pool = p } in
      (
        record b₁ { oid_to_order = oids' },
        add_order_lem i o b b₁ none at absent
            (queue_alone i o b p n w.lp w.after ok w.allocates w.adds) ranged,
        record {
          levels =
              subst (λ rs. IsBook w.after side rs (rows theirs))
                (sym (rows-insert_queue side new mine)) w.book;
          queues = insert_queue-All (IsQueue p oids' side) side new mine alone (
              Spares-queues b.order_pool p b.oid_to_order oids' side side (order.price o) mine s
                (IsUnindexed-Elsewhere side (order.price o) mine index) book.queues);
          queues_other =
              Spares-queues b.order_pool p b.oid_to_order oids' side (opposite side) (order.price o)
                theirs s (opposite-Elsewhere side (order.price o) theirs sided) book.queues_other;
          level_pool = w.untouched;
          order_pool = Edits-Untouched e book.order_pool;
        },
        refl,
      )

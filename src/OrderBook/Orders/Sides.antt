-- ===== src/OrderBook/Orders/Sides.antt =====
-- trading/strategy/market_order_book.h: a book seen from the other side, and with one order more in its pool.
use hft_system.Base.{
  ℕ, ◌≡◌, ◌≢◌, refl, ap, ◌∙◌, none, some, List, [], ◌∷◌, ◌==◌, arith, if◌then◌else◌, Bool-cases,
  inl, inr,
}
use hft_system.Base.Int.{pos}
use hft_system.Common.Types.{Side}
use hft_system.Common.MemPool.{MemPool, live}
use hft_system.Common.MemPool.Access.{Untouched}
use hft_system.Common.Node.{Node, payload_at, read_payload, read_next, read_prev}
use hft_system.Common.Ring.{All}
use hft_system.Common.Ring.Edit.{Apart-sym}
use hft_system.OrderBook.Levels.{Levels}
use hft_system.OrderBook.Levels.Book.{IsBook}
use hft_system.OrderBook.Levels.Rows.{Row, places, opposite}
use hft_system.OrderBook.Orders.{BookOrder, Book}
use hft_system.OrderBook.Orders.Queues.{Queue, rows, IsOrderBook, Spares, Spares-queues, Elsewhere}

pub opposite-valid : (side : Side) → side ≢ Side.invalid → opposite side ≢ Side.invalid
opposite-valid Side.buy h e = ground (arith, e)
opposite-valid Side.sell h e = ground (arith, e)
opposite-valid Side.invalid h e = h refl

nowhere :
    {T : Type 0} (side : Side) (qs : List (Queue T))
    → side ≢ Side.invalid
    → All (λ (q : Queue T). Elsewhere side q.price Side.invalid (pos 0)) qs
nowhere side [] h = tt
nowhere side (q ∷ qs) h = ((λ e. h e.0), nowhere side qs h)

module _ {T K : Type 0} ⦃node : Node T⦄ ⦃order : BookOrder T K node⦄ (b : Book T K) (p : MemPool T)
    (n : ℕ) (o : T) (dead : live b.order_pool n ≡ none)
    (lives : (j : ℕ) → live p j ≡ (if j == n then some o else live b.order_pool j)) where
  kept : (j : ℕ) (t : T) → payload_at b.order_pool j ≡ some t → live p j ≡ live b.order_pool j
  kept j t h = elim (Bool-cases (j == n)) [
    | inl here ↦
        let same : j ≡ n = ground (arith, here) in
        absurd (ground (arith, h, ap (λ i. payload_at b.order_pool i) same, ap read_payload dead))
    | inr there ↦ lives j ∙ rw there
  ]

  spares : Spares b.order_pool p b.oid_to_order b.oid_to_order Side.invalid (pos 0)
  spares = record {
    payloads = λ j t away h. ap read_payload (kept j t h) ∙ h;
    nexts = λ j t away h. ap read_next (kept j t h);
    prevs = λ j t away h. ap read_prev (kept j t h);
    known = λ j t away h k. k;
  }

  -- The queues stay where the pool has one order more.
  pub allocated-IsOrderBook :
      (side : Side) (mine theirs : List (Queue T))
      → side ≢ Side.invalid
      → Untouched p
      → IsOrderBook b side mine theirs
      → IsOrderBook (record b { order_pool = p }) side mine theirs
  allocated-IsOrderBook side mine theirs sided untouched h = record {
    levels = h.levels;
    queues =
        Spares-queues b.order_pool p b.oid_to_order b.oid_to_order Side.invalid side (pos 0) mine
          spares (nowhere side mine sided) h.queues;
    queues_other =
        Spares-queues b.order_pool p b.oid_to_order b.oid_to_order Side.invalid (opposite side)
          (pos 0) theirs spares (nowhere (opposite side) theirs (opposite-valid side sided))
          h.queues_other;
    level_pool = h.level_pool;
    order_pool = untouched;
  }

IsBook-opposite :
    (b : Levels) (side : Side) (mine theirs : List Row)
    → side ≢ Side.invalid
    → IsBook b side mine theirs
    → IsBook b (opposite side) theirs mine
IsBook-opposite b Side.buy mine theirs sided h = record {
  laid = h.laid_other;
  laid_other = h.laid;
  head = h.head_other;
  head_other = h.head;
  apart = Apart-sym (places theirs) (places mine) h.apart;
  known = h.known_other;
  known_other = h.known;
}
IsBook-opposite b Side.sell mine theirs sided h = record {
  laid = h.laid_other;
  laid_other = h.laid;
  head = h.head_other;
  head_other = h.head;
  apart = Apart-sym (places theirs) (places mine) h.apart;
  known = h.known_other;
  known_other = h.known;
}
IsBook-opposite b Side.invalid mine theirs sided h = absurd (sided refl)

module _ {T K : Type 0} ⦃node : Node T⦄ ⦃order : BookOrder T K node⦄ where
  -- The same book from its other side.
  pub IsOrderBook-opposite :
      (b : Book T K) (side : Side) (mine theirs : List (Queue T))
      → side ≢ Side.invalid
      → IsOrderBook b side mine theirs
      → IsOrderBook b (opposite side) theirs mine
  IsOrderBook-opposite b Side.buy mine theirs sided h = record {
    levels = IsBook-opposite b.levels Side.buy (rows mine) (rows theirs) sided h.levels;
    queues = h.queues_other;
    queues_other = h.queues;
    level_pool = h.level_pool;
    order_pool = h.order_pool;
  }
  IsOrderBook-opposite b Side.sell mine theirs sided h = record {
    levels = IsBook-opposite b.levels Side.sell (rows mine) (rows theirs) sided h.levels;
    queues = h.queues_other;
    queues_other = h.queues;
    level_pool = h.level_pool;
    order_pool = h.order_pool;
  }
  IsOrderBook-opposite b Side.invalid mine theirs sided h = absurd (sided refl)

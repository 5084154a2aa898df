-- ===== src/OrderBook/Market/Best.antt =====
-- trading/strategy/market_order_book.h, `updateBBO`: the best bid and offer are those of the queues.
use hft_system.Base.{
  ℕ, zero, suc, ◌+◌, ◌%◌, ◌^◌, ◌<◌, ◌≡◌, ◌≢◌, refl, ap, ◌∙◌, true, false, Option, some, List, [],
  ◌∷◌, ◌==◌, arith, length, done,
}
use hft_system.Base.Int.{ℤ}
use hft_system.Common.Types.{Side, price_invalid, qty_invalid}
use hft_system.Common.MemPool.{MemPool, live}
use hft_system.Common.MemPool.Access.{load-live, lt-live}
use hft_system.Common.Node.{next_at, prev_at, read_payload}
use hft_system.Common.Ring.{All, Chain}
use hft_system.Common.Ring.Edit.{first}
use hft_system.Common.Ring.Bound.{length-Distinct}
use hft_system.OrderBook.Levels.Search.{Chain-next}
use hft_system.OrderBook.Levels.Rows.{IsLevel}
use hft_system.OrderBook.Orders.{Book}
use hft_system.OrderBook.Orders.Queues.{Item, Queue, spots, row_of, IsItem, IsQueue}
use hft_system.OrderBook.Orders.Leaving.{IsLive-payload}
use hft_system.OrderBook.Market.{MarketOrder, order_node, market_book_order, sum_qty, best_level}

abbrev pub quantity : List (Item MarketOrder) → ℕ
quantity [] = 0
quantity (x ∷ xs) = x.order.qty + quantity xs

-- What a side shows: the price and the quantity of its first queue, in 32 bits.
abbrev pub shown : List (Queue MarketOrder) → ℤ × ℕ
shown [] = (price_invalid, qty_invalid)
shown (q ∷ qs) = (q.price, quantity (q.head ∷ q.tail) % 2 ^ 32)

step_mod : (a b c : ℕ) → ((a + b) % 2 ^ 32 + c) % 2 ^ 32 ≡ (a + (b + c)) % 2 ^ 32
step_mod a b c = omega arith

item_order :
    (p : MemPool MarketOrder) (oids : ℕ → Option ℕ) (side : Side) (price : ℤ) (x : Item MarketOrder)
    → IsItem p oids side price x
    → (o : MarketOrder) × (live p x.at ≡ some o) × (o.qty ≡ x.order.qty)
item_order p oids side price x h =
    let (o, at) = IsLive-payload p x.at x.order h.0 in
    (o, at, ground (arith, ap read_payload at, h.0))

next_order_of :
    (p : MemPool MarketOrder) (o : MarketOrder) (i n : ℕ)
    → live p i ≡ some o
    → next_at p i ≡ some n
    → o.next_order ≡ some n
next_order_of p o i n at e = ground (arith, at, e)

sum_qty_lem :
    (p : MemPool MarketOrder) (oids : ℕ → Option ℕ) (side : Side) (price : ℤ) (head qty : ℕ)
    (fuel a : ℕ) (xs : List (Item MarketOrder))
    → All (IsItem p oids side price) xs
    → Chain (next_at p) (prev_at p) a (spots xs) head
    → All (λ y. head ≢ y) (spots xs)
    → length xs < fuel
    → qty < 2 ^ 32
    → sum_qty fuel (some (first head (spots xs))) head qty p ≡ done ((qty + quantity xs) % 2 ^ 32)
unfolding sum_qty
sum_qty_lem p oids side price head qty zero a xs items c d h small = absurd (omega arith)
sum_qty_lem p oids side price head qty (suc fuel) a [] items c d h small =
    let here : (head == head) ≡ true = ground arith in rw here (ap done (omega arith))
sum_qty_lem p oids side price head qty (suc fuel) a (x ∷ xs) items c d h small =
    let (o, at, same) = item_order p oids side price x items.0 in
    let elsewhere : (x.at == head) ≡ false = ground (arith, d.0) in
    let next =
      next_order_of p o x.at (first head (spots xs)) at
        (Chain-next (next_at p) (prev_at p) x.at (spots xs) head c.1) in
    let rest =
      sum_qty_lem p oids side price head ((qty + x.order.qty) % 2 ^ 32) fuel x.at xs items.1 c.1 d.1
        (omega arith) (omega arith) in
    rw (elsewhere, load-live p x.at at, next, same)
      (rest ∙ ap done (step_mod qty x.order.qty (quantity xs)))

length-spots : (xs : List (Item MarketOrder)) → length (spots xs) ≡ length xs
length-spots [] = refl
length-spots (x ∷ xs) = ap suc (length-spots xs)

in_pool :
    (p : MemPool MarketOrder) (oids : ℕ → Option ℕ) (side : Side) (price : ℤ)
    (xs : List (Item MarketOrder))
    → All (IsItem p oids side price) xs
    → All (λ y. y < length p.store) (spots xs)
in_pool p oids side price [] h = tt
in_pool p oids side price (x ∷ xs) h =
    let (o, at, _) = item_order p oids side price x h.0 in
    (lt-live p x.at at, in_pool p oids side price xs h.1)

pub best_level_lem :
    (b : Book MarketOrder ℕ) (side : Side) (q : Queue MarketOrder)
    → IsQueue b.order_pool b.oid_to_order side q
    → IsLevel b.levels.pool side (row_of q)
    → q.head.order.qty < 2 ^ 32
    → best_level (some q.at) b ≡ done (q.price, quantity (q.head ∷ q.tail) % 2 ^ 32)
unfolding best_level
best_level_lem b side q h (l, level, _, price, heads) small =
    let p = b.order_pool in
    let (o, at, same) = item_order p b.oid_to_order side q.price q.head h.items.0 in
    let bound =
      length-Distinct (length p.store) (q.head.at ∷ spots q.tail) h.distinct
        (in_pool p b.oid_to_order side q.price (q.head ∷ q.tail) h.items) in
    let size = length-spots q.tail in
    let next =
      next_order_of p o q.head.at (first q.head.at (spots q.tail)) at
        (Chain-next (next_at p) (prev_at p) q.head.at (spots q.tail) q.head.at h.threaded) in
    let sum =
      sum_qty_lem p b.oid_to_order side q.price q.head.at q.head.order.qty (suc (length p.store))
        q.head.at q.tail h.items.1 h.threaded h.distinct.0 (omega arith) small in
    rw (load-live b.levels.pool q.at level, heads, load-live p q.head.at at, next, same, sum, price)

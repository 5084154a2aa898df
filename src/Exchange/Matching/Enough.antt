-- ===== src/Exchange/Matching/Enough.antt =====
-- exchange/matcher/me_order_book.cpp, `checkForMatch`: the fuel of the loop is enough for every order of
-- a side.
use hft_system.Base.{
  ℕ, suc, ◌+◌, ◌%◌, ◌^◌, ◌≤◌, ◌<◌, ◌≡◌, ◌≢◌, ◌⊎◌, refl, sym, ap, ◌∙◌, true, false, Option, List, [],
  ◌∷◌, ◌++◌, arith, done, length,
}
use hft_system.Base.Int.{ℤ}
use hft_system.Common.Types.{Side}
use hft_system.Common.MemPool.{MemPool}
use hft_system.Common.MemPool.Access.{lt-live}
use hft_system.Common.Ring.{All, Distinct, All-append}
use hft_system.Common.Ring.Edit.{Distinct-append}
use hft_system.Common.Ring.Bound.{length-Distinct}
use hft_system.OrderBook.Levels.{is_worse}
use hft_system.OrderBook.Levels.Rows.{Row, opposite, IsSorted}
use hft_system.OrderBook.Orders.{Book}
use hft_system.OrderBook.Orders.Queues.{
  is_worse_irrefl, Item, Queue, spots, rows, IsItem, IsQueue, IsOrderBook,
}
use hft_system.OrderBook.Orders.Leaving.{IsLive-payload}
use hft_system.Exchange.MeOrderBook.{MeOrder, me_order_node, client_order, MeOrderBook, Sent}
use hft_system.Exchange.Matching.{Taker, check_for_match}
use hft_system.Exchange.Matching.Steps.{Matches, crosses, depth, Matches-ends, Matches-depth}
use hft_system.Exchange.Matching.Loop.{count, match_loop-Matched}

-- The places of the orders of a side.
abbrev places_of : List (Queue MeOrder) → List ℕ
places_of [] = []
places_of (q ∷ qs) = q.head.at ∷ spots q.tail ++ places_of qs

length-spots :
    (xs : List (Item MeOrder)) (js : List ℕ) → length (spots xs ++ js) ≡ length xs + length js
length-spots [] js = omega arith
length-spots (x ∷ xs) js = let rest = length-spots xs js in omega arith

length-places_of : (qs : List (Queue MeOrder)) → length (places_of qs) ≡ count qs
length-places_of [] = refl
length-places_of (q ∷ qs) =
    let rest = length-places_of qs in let here = length-spots q.tail (places_of qs) in omega arith

module _ (p : MemPool MeOrder) (oids : ℕ × ℕ → Option ℕ) (side : Side) where
  -- An order is not where an order at another price is.
  apart_item :
      (price other : ℤ) (x y : Item MeOrder)
      → other ≢ price
      → IsItem p oids side price x
      → IsItem p oids side other y
      → x.at ≢ y.at
  apart_item price other x y ne h k e =
      let same : y.order ≡ x.order =
        ground (arith, h.0, k.0, ap (hft_system.Common.Node.payload_at p) e) in
      ne (sym k.2 ∙ ap (λ (o : MeOrder). o.price) same ∙ h.2)

  apart_items :
      (price other : ℤ) (x : Item MeOrder) (ys : List (Item MeOrder))
      → other ≢ price
      → IsItem p oids side price x
      → All (IsItem p oids side other) ys
      → All (λ j. x.at ≢ j) (spots ys)
  apart_items price other x [] ne h k = tt
  apart_items price other x (y ∷ ys) ne h k =
      (apart_item price other x y ne h k.0, apart_items price other x ys ne h k.1)

  apart_queues :
      (price : ℤ) (x : Item MeOrder) (qs : List (Queue MeOrder))
      → All (λ (r : Row). is_worse side r.price price ≡ true) (rows qs)
      → IsItem p oids side price x
      → All (IsQueue p oids side) qs
      → All (λ j. x.at ≢ j) (places_of qs)
  apart_queues price x [] w h k = tt
  apart_queues price x (q ∷ qs) w h k =
      let mine =
        apart_items price q.price x (q.head ∷ q.tail) (is_worse_irrefl side q.price price w.0) h
          k.0.items in
      (
        mine.0,
        All-append (λ j. x.at ≢ j) (spots q.tail) (places_of qs) mine.1
            (apart_queues price x qs w.1 h k.1),
      )

  apart-All :
      (price : ℤ) (xs : List (Item MeOrder)) (qs : List (Queue MeOrder))
      → All (λ (r : Row). is_worse side r.price price ≡ true) (rows qs)
      → All (IsItem p oids side price) xs
      → All (IsQueue p oids side) qs
      → All (λ i. All (λ j. i ≢ j) (places_of qs)) (spots xs)
  apart-All price [] qs w h k = tt
  apart-All price (x ∷ xs) qs w h k =
      (apart_queues price x qs w h.0 k, apart-All price xs qs w h.1 k)

  Distinct-places_of :
      (qs : List (Queue MeOrder))
      → IsSorted side (rows qs)
      → All (IsQueue p oids side) qs
      → Distinct (places_of qs)
  Distinct-places_of [] w h = tt
  Distinct-places_of (q ∷ qs) w h =
      Distinct-append (q.head.at ∷ spots q.tail) (places_of qs) h.0.distinct
        (Distinct-places_of qs w.1 h.1) (apart-All q.price (q.head ∷ q.tail) qs w.0 h.0.items h.1)

  items_below :
      (price : ℤ) (xs : List (Item MeOrder))
      → All (IsItem p oids side price) xs
      → All (λ j. j < length p.store) (spots xs)
  items_below price [] h = tt
  items_below price (x ∷ xs) h =
      let (o, at) = IsLive-payload p x.at x.order h.0.0 in
      (lt-live p x.at at, items_below price xs h.1)

  below :
      (qs : List (Queue MeOrder))
      → All (IsQueue p oids side) qs
      → All (λ j. j < length p.store) (places_of qs)
  below [] h = tt
  below (q ∷ qs) h =
      All-append (λ j. j < length p.store) (q.head.at ∷ spots q.tail) (places_of qs)
        (items_below q.price (q.head ∷ q.tail) h.0.items) (below qs h.1)

-- A side has no more orders than the pool has blocks.
count_bound :
    (b : Book MeOrder (ℕ × ℕ)) (side : Side) (mine theirs : List (Queue MeOrder))
    → IsOrderBook b side mine theirs
    → count mine ≤ length b.order_pool.store
count_bound b side mine theirs h =
    let bound =
      length-Distinct (length b.order_pool.store) (places_of mine)
        (Distinct-places_of b.order_pool b.oid_to_order side mine h.levels.laid.sorted h.queues)
        (below b.order_pool b.oid_to_order side mine h.queues) in
    let same = length-places_of mine in omega arith

-- The order that `checkForMatch` matches.
abbrev pub taker : ℕ → ℕ → ℕ → Side → ℕ → Taker
taker client_id client_order_id ticker_id side new_market_order_id = record {
  ticker_id = ticker_id;
  client_id = client_id;
  side = side;
  client_order_id = client_order_id;
  new_market_order_id = new_market_order_id % 2 ^ 32;
}

-- In a book whose rings lay out two sorted sides of queues, the check for a match of an order with a valid
-- side returns: it fills the order against the queues of the other side step by step, the best price first
-- and the oldest order first, sends what those steps send and nothing else, and leaves the rest of the
-- queues. The order is then complete, or nothing is left in its reach, and it has lost as much as the
-- queues have.
pub check_for_match-Matches :
    (client_id client_order_id ticker_id : ℕ) (side : Side) (price : ℤ)
    (qty new_market_order_id : ℕ) (m : MeOrderBook) (mine theirs : List (Queue MeOrder))
    → side ≢ Side.invalid
    → IsOrderBook m.book (opposite side) mine theirs
    → (left : ℕ) × (m' : MeOrderBook) × (rest : List (Queue MeOrder)) × (sent : List Sent)
      × (check_for_match client_id client_order_id ticker_id side price qty new_market_order_id m
          ≡ done (left, m'))
      × Matches
          (taker client_id client_order_id ticker_id side new_market_order_id)
          price
          qty
          mine
          sent
          left
          rest
      × IsOrderBook m'.book (opposite side) rest theirs
      × (m'.sent ≡ m.sent ++ sent)
      × ((left ≡ 0)
          ⊎ (crosses (taker client_id client_order_id ticker_id side new_market_order_id) price rest
              ≡ false))
      × (qty + depth rest ≡ left + depth mine)
unfolding check_for_match
check_for_match-Matches client_id client_order_id ticker_id side price qty new_market_order_id m
      mine theirs sided h =
    let t = taker client_id client_order_id ticker_id side new_market_order_id in
    let bound = count_bound m.book (opposite side) mine theirs h in
    let r =
      match_loop-Matched t price theirs sided (suc (length m.book.order_pool.store)) qty m mine
        (omega arith) h in
    (
      r.left,
      r.after,
      r.rest,
      r.sent,
      r.returns,
      r.steps,
      r.fills.book,
      r.fills.says,
      Matches-ends t price qty r.left mine r.rest r.sent r.steps,
      Matches-depth t price qty r.left mine r.rest r.sent r.steps,
    )

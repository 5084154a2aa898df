-- ===== src/Exchange/Requests/Add.antt =====
-- exchange/matcher/me_order_book.cpp, `add`: an order with nothing in its reach rests in the book.
use hft_system.Base.{
  ℕ, ◌+◌, ◌%◌, ◌^◌, ◌<◌, ◌≡◌, ◌≢◌, refl, sym, ap, ◌∙◌, subst, false, Option, none, some, List, [],
  ◌∷◌, ◌++◌, ◌==◌, arith, done, length,
}
use hft_system.Base.Int.{ℤ}
use hft_system.Common.Types.{Side, me_max_num_clients, me_max_order_ids}
use hft_system.Common.MemPool.{live}
use hft_system.Common.MemPool.Access.{HasSpare, allocate-Untouched, load-live}
use hft_system.Common.Node.{next_at, prev_at, read_prev}
use hft_system.Common.Ring.{All, All-right, last, Chain-end}
use hft_system.MarketData.Updates.{MarketUpdateType, MarketUpdate}
use hft_system.OrderFlow.Responses.{ClientResponseType, ClientResponse}
use hft_system.OrderBook.Levels.Book.{IsKnown}
use hft_system.OrderBook.Levels.Rows.{IsLevel}
use hft_system.OrderBook.Orders.{Book}
use hft_system.OrderBook.Orders.Queues.{
  spots, Item, Queue, row_of, rows, rows-append, IsItem, IsQueue, IsOrderBook,
}
use hft_system.OrderBook.Orders.Add.{get_known, add_order-behind}
use hft_system.OrderBook.Orders.Remove.{Deletes, remove_order-IsOrderBook}
use hft_system.OrderBook.Orders.Sides.{allocated-IsOrderBook, IsOrderBook-opposite}
use hft_system.Exchange.MeOrderBook.{
  MeOrder, me_order_node, client_order, MeOrderBook, Sent, generate_new_market_order_id,
  priority_behind, get_next_priority, me_add_order, me_remove_order, send_client_response,
  send_market_update, respond, publish,
}
use hft_system.Exchange.Matching.{check_for_match}
use hft_system.Exchange.Matching.Steps.{crosses}
use hft_system.Exchange.Matching.Fill.{four_sent, resting}
use hft_system.Exchange.Matching.Loop.{match_loop_idle}
use hft_system.Exchange.Matching.Enough.{taker}
use hft_system.Exchange.Requests.{rest_order, add}

-- The newest order of a queue.
abbrev pub newest : Item MeOrder → List (Item MeOrder) → Item MeOrder
newest x [] = x
newest x (y ∷ ys) = newest y ys

newest-last :
    (x : Item MeOrder) (ys : List (Item MeOrder)) → last x.at (spots ys) ≡ (newest x ys).at
newest-last x [] = refl
newest-last x (y ∷ ys) = newest-last y ys

newest-All :
    (P : Item MeOrder → Type 0) (x : Item MeOrder) (ys : List (Item MeOrder))
    → P x
    → All P ys
    → P (newest x ys)
newest-All P x [] h k = h
newest-All P x (y ∷ ys) h k = newest-All P y ys k.0 k.1

-- The priority behind a queue.
abbrev pub next_priority : Queue MeOrder → ℕ
next_priority q = ((newest q.head q.tail).order.priority + 1) % 2 ^ 64

module _ (b : Book MeOrder (ℕ × ℕ)) (side : Side) (before : List (Queue MeOrder))
    (q : Queue MeOrder) (behind theirs : List (Queue MeOrder))
    (h : IsOrderBook b side (before ++ q ∷ behind) theirs) where
  get_next_priority_lem : get_next_priority q.price b ≡ done (next_priority q)
  unfolding get_next_priority priority_behind
  get_next_priority_lem =
      let split = rows-append before (q ∷ behind) in
      let known =
        (All-right _ (rows before) (row_of q ∷ rows behind)
          (subst (λ rs. IsKnown b.levels.price_orders_at_price rs) split h.levels.known)).0 in
      let (l, level, _, _, heads) =
        (All-right _ (rows before) (row_of q ∷ rows behind)
          (subst (λ rs. All (IsLevel b.levels.pool side) rs) split h.levels.laid.levels)).0 in
      let here =
        (All-right (IsQueue b.order_pool b.oid_to_order side) before (q ∷ behind) h.queues).0 in
      let first = resting b.order_pool b.oid_to_order side q.price q.head here.items.0 in
      let final = resting b.order_pool b.oid_to_order side q.price (newest q.head q.tail) (
        newest-All (IsItem b.order_pool b.oid_to_order side q.price) q.head q.tail here.items.0
          here.items.1) in
      let back =
        (Chain-end (next_at b.order_pool) (prev_at b.order_pool) q.head.at (spots q.tail) q.head.at
          here.threaded).1 in
      let prev : first.order.prev_order ≡ some (newest q.head q.tail).at =
        sym (ap read_prev first.at) ∙ back ∙ ap some (newest-last q.head q.tail) in
      let order = ap (λ (o : MeOrder). o.priority) final.same in
      ap (λ v. priority_behind v b) (get_known q.price b.levels (some q.at) known)
      ∙ rw (
        load-live b.levels.pool q.at level,
        heads,
        load-live b.order_pool q.head.at first.at,
        prev,
        load-live b.order_pool (newest q.head q.tail).at final.at,
        order,
      )

-- The order that comes to rest.
abbrev pub new_order : ℕ → ℕ → ℕ → ℕ → Side → ℤ → ℕ → ℕ → MeOrder
new_order client_id client_order_id ticker_id market_order_id side price qty priority = record {
  ticker_id = ticker_id;
  client_id = client_id;
  client_order_id = client_order_id;
  market_order_id = market_order_id;
  side = side;
  price = price;
  qty = qty;
  priority = priority;
  prev_order = none;
  next_order = none;
}

abbrev pub accepted : MeOrder → ClientResponse
accepted o = record {
  type = ClientResponseType.accepted;
  client_id = o.client_id;
  ticker_id = o.ticker_id;
  client_order_id = o.client_order_id;
  market_order_id = o.market_order_id;
  side = o.side;
  price = o.price;
  exec_qty = 0;
  leaves_qty = o.qty;
}

abbrev pub added : MeOrder → MarketUpdate
added o = record {
  type = MarketUpdateType.add;
  order_id = o.market_order_id;
  ticker_id = o.ticker_id;
  side = o.side;
  price = o.price;
  qty = o.qty;
  priority = o.priority;
}

-- In a book whose rings lay out two sorted sides of queues, with room for one order more, an order with a
-- valid side, something to fill, and a number in range that its client does not use, at a price that a
-- level of its side has and from which nothing on the other side is in reach, where `exchange_order` points
-- at an order of the side as it then is, which may be the new one: it is accepted under the next market
-- number and becomes the last of its queue with the next priority there, the order that `exchange_order`
-- points at is then taken out of its queue, and the client's acceptance and the market's update each go out
-- twice.
pub add-rests :
    (client_id client_order_id ticker_id : ℕ) (side : Side) (qty : ℕ) (m : MeOrderBook)
    (before : List (Queue MeOrder)) (q : Queue MeOrder) (behind theirs mine : List (Queue MeOrder))
    (exchange_order : Option ℕ) (x : Item MeOrder)
    → side ≢ Side.invalid
    → 0 < qty
    → IsOrderBook m.book side (before ++ q ∷ behind) theirs
    → crosses (taker client_id client_order_id ticker_id side m.next_market_order_id) q.price theirs
      ≡ false
    → m.book.oid_to_order (client_id, client_order_id) ≡ none
    → client_id < me_max_num_clients
    → client_order_id < me_max_order_ids
    → HasSpare m.book.order_pool
    → exchange_order ≡ some x.at
    → Deletes x
        (before
          ++ record q {
            tail =
                q.tail
                ++ record {
                  at = m.book.order_pool.next_free_index;
                  order =
                      new_order client_id client_order_id ticker_id m.next_market_order_id side
                        q.price qty
                        (next_priority q);
                }
                  ∷ [];
          }
            ∷ behind)
        mine
    → (m' : MeOrderBook) × (add exchange_order client_id client_order_id ticker_id side q.price qty
          m
        ≡ done m')
      × IsOrderBook m'.book side mine theirs
      × (m'.next_market_order_id ≡ (m.next_market_order_id + 1) % 2 ^ 64)
      × (let o =
            new_order client_id client_order_id ticker_id m.next_market_order_id side q.price qty
              (next_priority q) in
          m'.sent
          ≡ m.sent
            ++ Sent.response (accepted o)
              ∷ Sent.update (added o)
              ∷ Sent.update (added o)
              ∷ Sent.response (accepted o)
              ∷ [])
unfolding add rest_order generate_new_market_order_id me_add_order me_remove_order check_for_match
    send_client_response send_market_update
add-rests client_id client_order_id ticker_id side qty m before q behind theirs mine exchange_order
      x sided something h far fresh client number spare points deletes =
    let i = m.book.order_pool.next_free_index in
    let o =
      new_order client_id client_order_id ticker_id m.next_market_order_id side q.price qty
        (next_priority q) in
    let t = taker client_id client_order_id ticker_id side m.next_market_order_id in
    let (p, allocated, untouched, dead, lives, _, _) =
      allocate-Untouched o m.book.order_pool h.order_pool spare in
    let at : live p i ≡ some o = lives i ∙ ground arith in
    let (b, ok, book, _) =
      add_order-behind (record m.book { order_pool = p }) i o before q behind theirs sided
        (allocated-IsOrderBook m.book p i o dead lives side (before ++ q ∷ behind) theirs sided
          untouched h)
        at refl fresh (ground (arith, client, number)) in
    let (b', gone, left, _, _) =
      remove_order-IsOrderBook b side _ mine theirs x sided deletes book in
    let more : (qty == 0) ≡ false = ground (arith, something) in
    let m₁ =
      respond (accepted o)
        (record m { next_market_order_id = (m.next_market_order_id + 1) % 2 ^ 64 }) in
    let idle =
      match_loop_idle t q.price (before ++ q ∷ behind) sided (length m.book.order_pool.store) qty m₁
        theirs more far (IsOrderBook-opposite m.book side (before ++ q ∷ behind) theirs sided h) in
    let m₂ =
      send_client_response
        (send_market_update (record (publish (added o) (record m₁ { book = b })) { book = b' })) in
    (
      m₂,
      rw (
        idle,
        more,
        get_next_priority_lem m.book side before q behind theirs h,
        allocated,
        ok,
        points,
        gone,
      ),
      left,
      refl,
      four_sent m.sent _ _ _ _,
    )

-- ===== src/Exchange/Requests/Cancel.antt =====
-- exchange/matcher/me_order_book.cpp, `cancel`: a cancel, and the same cancel once more.
use hft_system.Base.{
  ℕ, ◌<◌, ◌≡◌, ◌≢◌, refl, ap, ◌∙◌, true, none, List, [], ◌∷◌, ◌++◌, arith, done, ltb,
}
use hft_system.Common.Types.{
  Side, me_max_num_clients, me_max_order_ids, order_id_invalid, price_invalid, qty_invalid,
}
use hft_system.MarketData.Updates.{MarketUpdateType}
use hft_system.OrderFlow.Responses.{ClientResponseType}
use hft_system.Common.MemPool.Access.{load-live}
use hft_system.OrderBook.Orders.Queues.{Item, Queue, IsOrderBook}
use hft_system.OrderBook.Orders.Remove.{Deletes, Deletes-IsItem, remove_order-IsOrderBook}
use hft_system.Exchange.MeOrderBook.{
  MeOrder, me_order_node, client_order, MeOrderBook, Sent, me_remove_order, send_client_response,
  send_market_update, respond, publish,
}
use hft_system.Exchange.Matching.Fill.{resting}
use hft_system.Exchange.Requests.{cancelable, cancel, cancel_rejected, canceled, withdrawn}

two_sent : (s : List Sent) (a b : Sent) → (s ++ a ∷ []) ++ b ∷ [] ≡ s ++ a ∷ b ∷ []
two_sent [] a b = refl
two_sent (x ∷ s) a b = ap (◌∷◌ x) (two_sent s a b)

-- In a book whose rings lay out two sorted sides of queues, the cancel of an order of a valid side by its
-- client's number takes it out of its queue wherever it stands, and sends the market the cancel and then
-- the client the response, with what was left of the order.
pub cancel-cancels :
    (ticker_id : ℕ) (m : MeOrderBook) (side : Side) (mine mine' theirs : List (Queue MeOrder))
    (x : Item MeOrder)
    → side ≢ Side.invalid
    → Deletes x mine mine'
    → IsOrderBook m.book side mine theirs
    → (m' : MeOrderBook) × (cancel x.order.client_id x.order.client_order_id ticker_id m ≡ done m')
      × IsOrderBook m'.book side mine' theirs
      × (m'.book.oid_to_order (x.order.client_id, x.order.client_order_id) ≡ none)
      × (m'.sent
          ≡ m.sent
            ++ Sent.update (withdrawn ticker_id x.order)
              ∷ Sent.response (canceled x.order.client_id x.order.client_order_id ticker_id x.order)
              ∷ [])
unfolding cancel cancelable me_remove_order send_client_response send_market_update
cancel-cancels ticker_id m side mine mine' theirs x sided deletes h =
    let (price, item) =
      Deletes-IsItem m.book.order_pool m.book.oid_to_order side x mine mine' deletes h.queues in
    let (b, ok, book, _, known) =
      remove_order-IsOrderBook m.book side mine mine' theirs x sided deletes h in
    let r = resting m.book.order_pool m.book.oid_to_order side price x item in
    let client : ltb x.order.client_id me_max_num_clients ≡ true = ground (arith, item.4) in
    let number : ltb x.order.client_order_id me_max_order_ids ≡ true = ground (arith, item.4) in
    (
      respond (canceled x.order.client_id x.order.client_order_id ticker_id r.order)
          (publish (withdrawn ticker_id r.order) (record m { book = b })),
      rw (client, number, item.3, load-live m.book.order_pool x.at r.at, ok),
      book,
      ap (λ f. f (x.order.client_id, x.order.client_order_id)) known ∙ ground arith,
      two_sent m.sent _ _
          ∙ ap
              (λ (v : MeOrder).
                m.sent
                ++ Sent.update (withdrawn ticker_id v)
                  ∷ Sent.response (canceled x.order.client_id x.order.client_order_id ticker_id v)
                  ∷ [])
              r.same,
    )

-- The three messages of a cancel that comes twice.
three_sent : (s : List Sent) (a b c : Sent) → (s ++ a ∷ b ∷ []) ++ c ∷ [] ≡ s ++ a ∷ b ∷ c ∷ []
three_sent [] a b c = refl
three_sent (x ∷ s) a b c = ap (◌∷◌ x) (three_sent s a b c)

cancel-again :
    (client_id order_id ticker_id : ℕ) (m : MeOrderBook)
    → client_id < me_max_num_clients
    → order_id < me_max_order_ids
    → m.book.oid_to_order (client_id, order_id) ≡ none
    → cancel client_id order_id ticker_id m
      ≡ done (respond (cancel_rejected client_id order_id ticker_id) m)
unfolding cancel cancelable
cancel-again client_id order_id ticker_id m client number gone =
    let in_clients : ltb client_id me_max_num_clients ≡ true = ground (arith, client) in
    let in_orders : ltb order_id me_max_order_ids ≡ true = ground (arith, number) in
    rw (in_clients, in_orders, gone)

-- In a book whose rings lay out two sorted sides of queues, the cancel of an order of a valid side that
-- comes twice takes the order out of its queue the first time, and the second time leaves the book as it
-- is. The market is sent one cancel, and the client the response with what was left of the order and then
-- a rejection that names the client, the order's number and the instrument, and nothing else.
pub cancel-refuses_again :
    (ticker_id : ℕ) (m : MeOrderBook) (side : Side) (mine mine' theirs : List (Queue MeOrder))
    (x : Item MeOrder)
    → side ≢ Side.invalid
    → Deletes x mine mine'
    → IsOrderBook m.book side mine theirs
    → (m₁ m₂ : MeOrderBook) × (cancel x.order.client_id x.order.client_order_id ticker_id m
        ≡ done m₁)
      × (cancel x.order.client_id x.order.client_order_id ticker_id m₁ ≡ done m₂)
      × IsOrderBook m₂.book side mine' theirs
      × (m₂.book ≡ m₁.book)
      × (m₂.sent
          ≡ m.sent
            ++ Sent.update (record {
              type = MarketUpdateType.cancel;
              order_id = x.order.market_order_id;
              ticker_id = ticker_id;
              side = x.order.side;
              price = x.order.price;
              qty = 0;
              priority = x.order.priority;
            })
              ∷ Sent.response (record {
                type = ClientResponseType.canceled;
                client_id = x.order.client_id;
                ticker_id = ticker_id;
                client_order_id = x.order.client_order_id;
                market_order_id = x.order.market_order_id;
                side = x.order.side;
                price = x.order.price;
                exec_qty = qty_invalid;
                leaves_qty = x.order.qty;
              })
              ∷ Sent.response (record {
                type = ClientResponseType.cancel_rejected;
                client_id = x.order.client_id;
                ticker_id = ticker_id;
                client_order_id = x.order.client_order_id;
                market_order_id = order_id_invalid;
                side = Side.invalid;
                price = price_invalid;
                exec_qty = qty_invalid;
                leaves_qty = qty_invalid;
              })
              ∷ [])
unfolding send_client_response
cancel-refuses_again ticker_id m side mine mine' theirs x sided deletes h =
    let (price, item) =
      Deletes-IsItem m.book.order_pool m.book.oid_to_order side x mine mine' deletes h.queues in
    let (m₁, ok, book, gone, sent) =
      cancel-cancels ticker_id m side mine mine' theirs x sided deletes h in
    let client : x.order.client_id < me_max_num_clients = ground (arith, item.4) in
    let number : x.order.client_order_id < me_max_order_ids = ground (arith, item.4) in
    (
      m₁,
      respond (cancel_rejected x.order.client_id x.order.client_order_id ticker_id) m₁,
      ok,
      cancel-again x.order.client_id x.order.client_order_id ticker_id m₁ client number gone,
      book,
      refl,
      ap
            (λ s.
              s
              ++ Sent.response (cancel_rejected x.order.client_id x.order.client_order_id ticker_id)
                ∷ [])
            sent
          ∙ three_sent m.sent _ _ _,
    )

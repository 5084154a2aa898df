-- ===== src/Exchange/Matching/Fill.antt =====
-- exchange/matcher/me_order_book.cpp, `match`: one fill against the oldest order at the best price.
use hft_system.Base.{
  ℕ, ◌-◌, ◌≤◌, ◌<◌, ◌≡◌, ◌≢◌, refl, ap, ◌∙◌, subst, false, Option, some, List, [], ◌∷◌, ◌++◌, ◌==◌,
  arith, done,
}
use hft_system.Base.Int.{ℤ}
use hft_system.Common.Types.{Side}
use hft_system.Common.MemPool.{MemPool, live, modify}
use hft_system.Common.MemPool.Access.{load-live}
use hft_system.Common.Node.{read_payload}
use hft_system.OrderBook.Orders.{Book, remove_order}
use hft_system.OrderBook.Orders.Queues.{Item, Queue, IsItem, IsOrderBook}
use hft_system.OrderBook.Orders.Leaving.{IsLive-payload}
use hft_system.OrderBook.Orders.Apart.{changed}
use hft_system.OrderBook.Orders.Changing.{Changes, Keeps, modify-IsOrderBook}
use hft_system.OrderBook.Orders.Remove.{Deletes, remove_order-IsOrderBook}
use hft_system.Exchange.MeOrderBook.{
  MeOrder, me_order_node, client_order, MeOrderBook, Sent, me_remove_order, send_client_response,
  send_market_update, publish,
}
use hft_system.Exchange.Matching.{Taker, set_qty, fill_of, match_order, exhausted, reduced, report}
use hft_system.Exchange.Matching.Steps.{whole, part, popped}

set_qty-Keeps : (qty : ℕ) → Keeps client_order (set_qty qty)
set_qty-Keeps qty = record {
  next-change = λ t. refl;
  prev-change = λ t. refl;
  payload-change = λ t. refl;
  side-change = λ t. refl;
  price-change = λ t. refl;
  key-change = λ t. refl;
}

pub four_sent :
    (s : List Sent) (a b c d : Sent)
    → (((s ++ a ∷ []) ++ b ∷ []) ++ c ∷ []) ++ d ∷ [] ≡ s ++ a ∷ b ∷ c ∷ d ∷ []
four_sent [] a b c d = refl
four_sent (x ∷ s) a b c d = ap (◌∷◌ x) (four_sent s a b c d)

fill_whole : (leaves_qty qty : ℕ) → qty ≤ leaves_qty → fill_of leaves_qty qty ≡ qty
fill_whole leaves_qty qty h = ground (arith, h)

fill_part : (leaves_qty qty : ℕ) → leaves_qty < qty → fill_of leaves_qty qty ≡ leaves_qty
fill_part leaves_qty qty h = ground (arith, h)

self_sub : (a : ℕ) → a - a ≡ 0
self_sub a = omega arith

-- The order behind a place in a queue, less its pointers.
pub record Resting (p : MemPool MeOrder) (x : Item MeOrder) : Type 0 where
  pub order : MeOrder
  pub at : live p x.at ≡ some order
  pub same : me_order_node.payload order ≡ x.order

pub resting :
    (p : MemPool MeOrder) (oids : ℕ × ℕ → Option ℕ) (side : Side) (price : ℤ) (x : Item MeOrder)
    → IsItem p oids side price x
    → Resting p x
resting p oids side price x h =
    let (o, at) = IsLive-payload p x.at x.order h.0 in
    record { order = o; at = at; same = ground (arith, ap read_payload at, h.0) }

-- A fill and what it says of the book.
pub record Fills (m m' : MeOrderBook) (side : Side) (mine theirs : List (Queue MeOrder))
    (sent : List Sent) : Type 0 where
  pub book : IsOrderBook m'.book side mine theirs
  pub says : m'.sent ≡ m.sent ++ sent
  pub next_kept : m'.next_market_order_id ≡ m.next_market_order_id

pop_Deletes :
    (q : Queue MeOrder) (ts : List (Item MeOrder)) (qs : List (Queue MeOrder))
    → q.tail ≡ ts
    → Deletes q.head (q ∷ qs) (popped q ts qs)
pop_Deletes q [] qs e = Deletes.only [] q qs e
pop_Deletes q (t ∷ ts) qs e = Deletes.head [] q qs t ts e

popped-changed :
    (f : MeOrder → MeOrder) (q : Queue MeOrder) (ts : List (Item MeOrder))
    (qs : List (Queue MeOrder))
    → popped (record q { head = changed f q.head }) ts qs ≡ popped q ts qs
popped-changed f q [] qs = refl
popped-changed f q (t ∷ ts) qs = refl

module _ (t : Taker) (m : MeOrderBook) (itr leaves_qty : ℕ) (o : MeOrder) (p : MemPool MeOrder)
    (at : live m.book.order_pool itr ≡ some o) where
  -- The messages sent, with the book still to be set.
  abbrev whole_sent : MeOrderBook
  whole_sent = publish (exhausted t o o.qty) (
      report t o o.qty (leaves_qty - o.qty) 0
        (record m { book = record m.book { order_pool = p } }))

  match_order_whole :
      (b : Book MeOrder (ℕ × ℕ))
      → o.qty ≤ leaves_qty
      → modify (some itr) (set_qty 0) m.book.order_pool ≡ done p
      → remove_order itr (record m.book { order_pool = p }) ≡ done b
      → match_order t itr leaves_qty m ≡ done (leaves_qty - o.qty, record whole_sent { book = b })
  unfolding match_order me_remove_order send_client_response send_market_update
  match_order_whole b less ok ok' = rw (
    load-live m.book.order_pool itr at,
    fill_whole leaves_qty o.qty less,
    self_sub o.qty,
    ok,
    ok',
  )

  abbrev part_sent : MeOrderBook
  part_sent = publish (reduced t o (o.qty - leaves_qty)) (
      report t o leaves_qty 0 (o.qty - leaves_qty)
        (record m { book = record m.book { order_pool = p } }))

  match_order_part :
      leaves_qty < o.qty
      → modify (some itr) (set_qty (o.qty - leaves_qty)) m.book.order_pool ≡ done p
      → match_order t itr leaves_qty m ≡ done (0, part_sent)
  unfolding match_order send_client_response send_market_update
  match_order_part less ok =
      let some_left : ((o.qty - leaves_qty) == 0) ≡ false = ground (arith, less) in
      rw (
        load-live m.book.order_pool itr at,
        fill_part leaves_qty o.qty less,
        self_sub leaves_qty,
        ok,
        some_left,
      )

module _ (t : Taker) (m : MeOrderBook) (side : Side) (q : Queue MeOrder)
    (qs theirs : List (Queue MeOrder)) (leaves_qty : ℕ) (sided : side ≢ Side.invalid)
    (h : IsOrderBook m.book side (q ∷ qs) theirs) where
  abbrev first : Resting m.book.order_pool q.head
  first = resting m.book.order_pool m.book.oid_to_order side q.price q.head h.queues.0.items.0

  same_qty : first.order.qty ≡ q.head.order.qty
  same_qty = ap (λ (v : MeOrder). v.qty) first.same

  pub match_order-whole :
      q.head.order.qty ≤ leaves_qty
      → (m' : MeOrderBook) × (match_order t q.head.at leaves_qty m
          ≡ done (leaves_qty - q.head.order.qty, m'))
        × Fills m m' side (popped q q.tail qs) theirs (whole t q.head.order leaves_qty)
  unfolding send_client_response send_market_update
  match_order-whole less =
      let (p, ok, book₁) =
        modify-IsOrderBook (set_qty 0) m.book side (q ∷ qs)
          (record q { head = changed (set_qty 0) q.head } ∷ qs) theirs q.head (set_qty-Keeps 0)
          sided (Changes.head [] q qs) h in
      let q₁ : Queue MeOrder = record q { head = changed (set_qty 0) q.head } in
      let (b, ok', book₂, _, _) =
        remove_order-IsOrderBook (record m.book { order_pool = p }) side (q₁ ∷ qs)
          (popped q₁ q.tail qs) theirs q₁.head sided (pop_Deletes q₁ q.tail qs refl) book₁ in
      let run =
        match_order_whole t m q.head.at leaves_qty first.order p first.at b (rw same_qty less) ok
          ok' in
      (
        record (whole_sent t m q.head.at leaves_qty first.order p first.at) { book = b },
        run
            ∙ ap
                (λ v. done (
                  leaves_qty - v,
                  record (whole_sent t m q.head.at leaves_qty first.order p first.at) { book = b },
                ))
                same_qty,
        record {
          book =
              subst (λ rs. IsOrderBook b side rs theirs) (popped-changed (set_qty 0) q q.tail qs)
                book₂;
          says = four_sent m.sent _ _ _ _ ∙ ap (λ v. m.sent ++ whole t v leaves_qty) first.same;
          next_kept = refl;
        },
      )

  pub match_order-part :
      leaves_qty < q.head.order.qty
      → (m' : MeOrderBook) × (match_order t q.head.at leaves_qty m ≡ done (0, m'))
        × Fills m m' side
            (record q { head = changed (set_qty (q.head.order.qty - leaves_qty)) q.head } ∷ qs)
            theirs
            (part t q.head.order leaves_qty)
  unfolding send_client_response send_market_update
  match_order-part less =
      let rest = q.head.order.qty - leaves_qty in
      let (p, ok, book) =
        modify-IsOrderBook (set_qty rest) m.book side (q ∷ qs)
          (record q { head = changed (set_qty rest) q.head } ∷ qs) theirs q.head
          (set_qty-Keeps rest) sided (Changes.head [] q qs) h in
      let run =
        match_order_part t m q.head.at leaves_qty first.order p first.at (rw same_qty less)
          (rw same_qty ok) in
      (
        part_sent t m q.head.at leaves_qty first.order p first.at,
        run,
        record {
          book = book;
          says = four_sent m.sent _ _ _ _ ∙ ap (λ v. m.sent ++ part t v leaves_qty) first.same;
          next_kept = refl;
        },
      )

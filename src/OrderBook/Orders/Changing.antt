-- ===== src/OrderBook/Orders/Changing.antt =====
-- trading/strategy/market_order_book.cpp and exchange/matcher/me_order_book.cpp: an order changes in its
-- place, in what neither its queue nor the array depends on.
use hft_system.Base.{
  ℕ, ◌≡◌, ◌≢◌, refl, sym, ap, ◌∙◌, subst, true, false, Option, some, List, [], ◌∷◌, ◌++◌, ◌==◌,
  arith, done, Bool-cases, inl, inr,
}
use hft_system.Base.Int.{ℤ}
use hft_system.Common.Types.{Side}
use hft_system.Common.MemPool.{MemPool, live, modify}
use hft_system.Common.MemPool.Access.{Wrote, modify-Wrote, Wrote-Untouched}
use hft_system.Common.Node.{Node, next_at, prev_at, payload_at, read_payload, read_next, read_prev}
use hft_system.Common.Ring.{All, Distinct, All-map, All-left, All-right, All-append, Chain-frame}
use hft_system.OrderBook.Levels.Book.{IsBook}
use hft_system.OrderBook.Orders.{BookOrder, Book}
use hft_system.OrderBook.Orders.Queues.{
  spots, Item, Queue, row_of, rows, IsItem, IsQueue, IsOrderBook, Spares,
}
use hft_system.OrderBook.Orders.Leaving.{IsLive-payload}
use hft_system.OrderBook.Orders.Add.{rows-same}
use hft_system.OrderBook.Orders.Unqueue.{spared}
use hft_system.OrderBook.Orders.Apart.{changed, spots-changed, apart_of}

-- An order of the queues of a side changes.
pub data Changes {T : Type 0} (change : T → T)
    : Item T → List (Queue T) → List (Queue T) → Type 0 where
  head :
      (before : List (Queue T)) (q : Queue T) (behind : List (Queue T))
      → Changes change q.head
          (before ++ q ∷ behind)
          (before ++ record q { head = changed change q.head } ∷ behind)
  inner :
      (before : List (Queue T)) (q : Queue T) (behind : List (Queue T)) (xs : List (Item T))
      (x : Item T) (ys : List (Item T))
      → q.tail ≡ xs ++ x ∷ ys
      → Changes change x
          (before ++ q ∷ behind)
          (before ++ record q { tail = xs ++ changed change x ∷ ys } ∷ behind)

-- A change of an order that neither its pointers nor its place in the book depend on.
pub record Keeps {T K : Type 0} {node : Node T} (order : BookOrder T K node) (change : T → T)
    : Type 0 where
  pub next-change : (t : T) → node.next (change t) ≡ node.next t
  pub prev-change : (t : T) → node.prev (change t) ≡ node.prev t
  pub payload-change : (t : T) → node.payload (change t) ≡ change (node.payload t)
  pub side-change : (t : T) → order.side (change t) ≡ order.side t
  pub price-change : (t : T) → order.price (change t) ≡ order.price t
  pub key-change : (t : T) → order.key (change t) ≡ order.key t

module _ {T K : Type 0} ⦃node : Node T⦄ ⦃order : BookOrder T K node⦄ where
  module _ (change : T → T) (k : Keeps order change) (p p' : MemPool T) (oids : K → Option ℕ)
      (x : Item T) (o : T) (at : live p x.at ≡ some o) (mine : payload_at p x.at ≡ some x.order)
      (w : Wrote p p' x.at (change o)) where
    nexts : (j : ℕ) → next_at p' j ≡ next_at p j
    nexts j = elim (Bool-cases (j == x.at)) [
      | inl here ↦
          let same : x.at ≡ j = ground (arith, here) in
          subst (λ i. next_at p' i ≡ next_at p i) same
            (ap read_next (w.live_at x.at) ∙ ground (arith, at, k.next-change o))
      | inr there ↦ ap read_next (w.live_at j ∙ rw there)
    ]

    prevs : (j : ℕ) → prev_at p' j ≡ prev_at p j
    prevs j = elim (Bool-cases (j == x.at)) [
      | inl here ↦
          let same : x.at ≡ j = ground (arith, here) in
          subst (λ i. prev_at p' i ≡ prev_at p i) same
            (ap read_prev (w.live_at x.at) ∙ ground (arith, at, k.prev-change o))
      | inr there ↦ ap read_prev (w.live_at j ∙ rw there)
    ]

    payload_of : node.payload o ≡ x.order
    payload_of = ground (arith, ap read_payload at, mine)

    payload_there : (j : ℕ) → j ≢ x.at → payload_at p' j ≡ payload_at p j
    payload_there j ne =
        let there : (j == x.at) ≡ false = ground (arith, ne) in
        ap read_payload (w.live_at j ∙ rw there)

    payload_here : payload_at p' x.at ≡ some (change x.order)
    payload_here =
        let here : (x.at == x.at) ≡ true = ground arith in
        let written : live p' x.at ≡ some (change o) = w.live_at x.at ∙ rw here in
        ap read_payload written ∙ ap some (k.payload-change o ∙ ap change payload_of)

    IsItem-there :
        (side : Side) (price : ℤ) (ys : List (Item T))
        → All (λ (y : Item T). y.at ≢ x.at) ys
        → All (IsItem p oids side price) ys
        → All (IsItem p' oids side price) ys
    IsItem-there side price [] n h = tt
    IsItem-there side price (y ∷ ys) n h = (
      (payload_there y.at n.0 ∙ h.0.0, h.0.1, h.0.2, h.0.3, h.0.4),
      IsItem-there side price ys n.1 h.1,
    )

    IsItem-here :
        (side : Side) (price : ℤ)
        → IsItem p oids side price x
        → IsItem p' oids side price (changed change x)
    IsItem-here side price h =
        let key = sym (k.key-change x.order) in
        (
          payload_here,
          k.side-change x.order ∙ h.1,
          k.price-change x.order ∙ h.2,
          subst (λ v. oids v ≡ some x.at) key h.3,
          subst (λ v. order.in_range v ≡ true) key h.4,
        )

    items_changed :
        (side : Side) (price : ℤ) (xs ys : List (Item T))
        → Distinct (spots (xs ++ x ∷ ys))
        → All (IsItem p oids side price) (xs ++ x ∷ ys)
        → All (IsItem p' oids side price) (xs ++ changed change x ∷ ys)
    items_changed side price xs ys d h =
        let (l, r) = apart_of xs x ys d in
        let (here, behind) = All-right (IsItem p oids side price) xs (x ∷ ys) h in
        All-append (IsItem p' oids side price) xs (changed change x ∷ ys)
          (IsItem-there side price xs l (All-left (IsItem p oids side price) xs (x ∷ ys) h))
          (IsItem-here side price here, IsItem-there side price ys r behind)

    every : (P : ℕ → Type 0) → ((j : ℕ) → P j) → (js : List ℕ) → All P js
    every P f [] = tt
    every P f (j ∷ js) = (f j, every P f js)

    rethreaded :
        (a : ℕ) (js : List ℕ)
        → hft_system.Common.Ring.Ring (next_at p) (prev_at p) a js
        → hft_system.Common.Ring.Ring (next_at p') (prev_at p') a js
    rethreaded a js h =
        Chain-frame (next_at p) (prev_at p) (next_at p') (prev_at p') a js a (nexts a)
          (every _ nexts js) (every _ prevs js) (prevs a) h

    changed-Spares :
        (side : Side) (price : ℤ)
        → order.side x.order ≡ side
        → order.price x.order ≡ price
        → Spares p p' oids oids side price
    changed-Spares side price of_side of_price = record {
      payloads = λ j t away h.
          payload_there j (λ e.
            let same : t ≡ x.order = ground (arith, h, mine, ap (payload_at p) e) in
            away (ap order.side same ∙ of_side, ap order.price same ∙ of_price))
          ∙ h;
      nexts = λ j t away h. nexts j;
      prevs = λ j t away h. prevs j;
      known = λ j t away h e. e;
    }

  -- The queue of the order becomes `q'`, and the others stay.
  changes_at :
      (change : T → T) (b : Book T K) (side : Side) (before : List (Queue T)) (q : Queue T)
      (behind theirs : List (Queue T)) (x : Item T)
      → Keeps order change
      → side ≢ Side.invalid
      → IsOrderBook b side (before ++ q ∷ behind) theirs
      → IsItem b.order_pool b.oid_to_order side q.price x
      → (q' : Queue T) → row_of q' ≡ row_of q
      → ((p : MemPool T) (o : T)
          → live b.order_pool x.at ≡ some o
          → Wrote b.order_pool p x.at (change o)
          → IsQueue p b.oid_to_order side q')
      → (p : MemPool T) × (modify (some x.at) change b.order_pool ≡ done p)
        × IsOrderBook (record b { order_pool = p }) side (before ++ q' ∷ behind) theirs
  changes_at change b side before q behind theirs x k sided book mine q' row new =
      let (o, at) = IsLive-payload b.order_pool x.at x.order mine.0 in
      let (p, ok, w) = modify-Wrote b.order_pool x.at change at in
      let (l₁, l₂, l₃) = spared b side before q behind theirs sided book p b.oid_to_order (
        changed-Spares change k b.order_pool p b.oid_to_order x o at mine.0 w side q.price mine.1
          mine.2) in
      (
        p,
        ok,
        record {
          levels =
              subst (λ rs. IsBook b.levels side rs (rows theirs))
                (sym (rows-same before q q' behind row)) book.levels;
          queues =
              All-append (IsQueue p b.oid_to_order side) before (q' ∷ behind) l₁ (new p o at w, l₂);
          queues_other = l₃;
          level_pool = book.level_pool;
          order_pool = Wrote-Untouched w at book.order_pool;
        },
      )

  -- Of a book whose rings lay out two sorted sides of queues, an order is written in its place: the queues
  -- are those with it changed.
  pub modify-IsOrderBook :
      (change : T → T) (b : Book T K) (side : Side) (mine mine' theirs : List (Queue T))
      (x : Item T)
      → Keeps order change
      → side ≢ Side.invalid
      → Changes change x mine mine'
      → IsOrderBook b side mine theirs
      → (p : MemPool T) × (modify (some x.at) change b.order_pool ≡ done p)
        × IsOrderBook (record b { order_pool = p }) side mine' theirs
  modify-IsOrderBook change b side _ _ theirs _ k sided (Changes.head before q behind) book =
      let old =
        (All-right (IsQueue b.order_pool b.oid_to_order side) before (q ∷ behind) book.queues).0 in
      changes_at change b side before q behind theirs q.head k sided book old.items.0
        (record q { head = changed change q.head }) refl
        (λ p o at w. record {
          threaded =
              rethreaded change k b.order_pool p b.oid_to_order q.head o at old.items.0.0 w
                q.head.at (spots q.tail) old.threaded;
          distinct = old.distinct;
          items =
              items_changed change k b.order_pool p b.oid_to_order q.head o at old.items.0.0 w side
                q.price [] q.tail old.distinct old.items;
        })
  modify-IsOrderBook change b side _ _ theirs _ k sided
        (Changes.inner before q behind xs x ys shape) book =
      let old =
        (All-right (IsQueue b.order_pool b.oid_to_order side) before (q ∷ behind) book.queues).0 in
      let items =
        subst (λ zs. All (IsItem b.order_pool b.oid_to_order side q.price) (q.head ∷ zs)) shape
          old.items in
      let distinct = subst (λ zs. Distinct (q.head.at ∷ spots zs)) shape old.distinct in
      let threaded =
        subst
          (λ zs.
            hft_system.Common.Ring.Ring (next_at b.order_pool) (prev_at b.order_pool) q.head.at
              (spots zs))
          shape old.threaded in
      let mine =
        (All-right (IsItem b.order_pool b.oid_to_order side q.price) xs (x ∷ ys) items.1).0 in
      let same = spots-changed change xs x ys in
      changes_at change b side before q behind theirs x k sided book mine
        (record q { tail = xs ++ changed change x ∷ ys }) refl
        (λ p o at w. record {
          threaded =
              subst (λ js. hft_system.Common.Ring.Ring (next_at p) (prev_at p) q.head.at js)
                (sym same)
                (rethreaded change k b.order_pool p b.oid_to_order x o at mine.0 w q.head.at
                  (spots (xs ++ x ∷ ys)) threaded);
          distinct = subst (λ js. Distinct (q.head.at ∷ js)) (sym same) distinct;
          items =
              items_changed change k b.order_pool p b.oid_to_order x o at mine.0 w side q.price
                (q.head ∷ xs) ys distinct items;
        })

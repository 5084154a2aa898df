-- ===== src/OrderBook/Orders/Unqueue.antt =====
-- trading/strategy/market_order_book.h, `removeOrder`: what becomes of the queue that an
-- order leaves.
use hft_system.Base.{
  ℕ, ◌≡◌, ◌≢◌, refl, sym, ap, ◌∙◌, subst, Option, none, some, List, [], ◌∷◌, ◌++◌, done,
}
use hft_system.Common.Types.{Side}
use hft_system.Common.MemPool.{MemPool, live}
use hft_system.Common.MemPool.Access.{Untouched}
use hft_system.Common.Node.{Node, next_at, prev_at, read_next, read_prev}
use hft_system.Common.Ring.{All, All-map, All-left, All-right, All-append}
use hft_system.OrderBook.Levels.{level_node, Levels, price_to_index}
use hft_system.OrderBook.Levels.Rows.{IsLevel, opposite}
use hft_system.OrderBook.Levels.Book.{IsBook, IsKnown}
use hft_system.OrderBook.Levels.Heads.{set_first_order-IsBook}
use hft_system.OrderBook.Levels.Remove.{remove_orders_at_price-IsBook}
use hft_system.OrderBook.Orders.{BookOrder, Book, entered, replace_first, remove_order}
use hft_system.OrderBook.Orders.Queues.{
  spots, Item, Queue, row_of, rows, rows-append, IsItem, IsQueue, IsOrderBook, Spares,
  Spares-queues,
}
use hft_system.OrderBook.Orders.Links.{spots-append}
use hft_system.OrderBook.Orders.Leaving.{leave_alone}
use hft_system.OrderBook.Orders.Dropping.{Dropped, drop_head, drop_inner}
use hft_system.OrderBook.Orders.Away.{IsSorted-Elsewhere, opposite-Elsewhere}
use hft_system.OrderBook.Orders.Add.{rows-same}
use hft_system.OrderBook.Orders.Unlinked.{
  replace_first-kept, replace_first-moved, reads, unqueue_alone, unqueue_linked, remove_order_lem,
}

module _ {T K : Type 0} ⦃node : Node T⦄ ⦃order : BookOrder T K node⦄ where
  module _ (b : Book T K) (side : Side) (before : List (Queue T)) (q : Queue T)
      (behind theirs : List (Queue T)) (sided : side ≢ Side.invalid)
      (book : IsOrderBook b side (before ++ q ∷ behind) theirs) where
    abbrev without : Item T → K → Option ℕ
    without x = entered order.same b.oid_to_order (order.key x.order) none

    at_level : IsQueue b.order_pool b.oid_to_order side q
    at_level =
        (All-right (IsQueue b.order_pool b.oid_to_order side) before (q ∷ behind) book.queues).0

    known : b.levels.price_orders_at_price (price_to_index q.price) ≡ some q.at
    known =
        (All-right _ (rows before) (row_of q ∷ rows behind) (
          subst (λ rs. IsKnown b.levels.price_orders_at_price rs) (rows-append before (q ∷ behind))
            book.levels.known)).0

    level : IsLevel b.levels.pool side (row_of q)
    level =
        (All-right _ (rows before) (row_of q ∷ rows behind) (
          subst (λ rs. All (IsLevel b.levels.pool side) rs) (rows-append before (q ∷ behind))
            book.levels.laid.levels)).0

    -- The queues at other levels stay.
    pub spared :
        (p : MemPool T) (oids : K → Option ℕ)
        → Spares b.order_pool p b.oid_to_order oids side q.price
        → All (IsQueue p oids side) before
          × All (IsQueue p oids side) behind
          × All (IsQueue p oids (opposite side)) theirs
    spared p oids s =
        let (away_before, away_behind) =
          IsSorted-Elsewhere side before q behind book.levels.laid.sorted in
        (
          Spares-queues b.order_pool p b.oid_to_order oids side side q.price before s away_before
              (All-left (IsQueue b.order_pool b.oid_to_order side) before (q ∷ behind) book.queues),
          Spares-queues b.order_pool p b.oid_to_order oids side side q.price behind s away_behind
              (All-right (IsQueue b.order_pool b.oid_to_order side) before (q ∷ behind)
                book.queues).1,
          Spares-queues b.order_pool p b.oid_to_order oids side (opposite side) q.price theirs s
              (opposite-Elsewhere side q.price theirs sided) book.queues_other,
        )

    -- The last order of a level takes the level with it.
    pub closes :
        q.tail ≡ []
        → (b' : Book T K) × (remove_order q.head.at b ≡ done b')
          × IsOrderBook b' side (before ++ behind) theirs
          × (live b'.order_pool q.head.at ≡ none)
          × (b'.oid_to_order ≡ without q.head)
    closes shape =
        let x = q.head in
        let r = reads b side q.price x at_level.items.0 in
        let ring =
          subst
            (λ (zs : List (Item T)).
              hft_system.Common.Ring.Ring (next_at b.order_pool) (prev_at b.order_pool) x.at
                (spots zs))
            shape at_level.threaded in
        let prev : node.prev r.o ≡ some x.at = sym (ap read_prev r.at) ∙ ring.1 in
        let (ls, ok, levels, untouched, _, _) =
          remove_orders_at_price-IsBook b.levels side (rows before) (row_of q) (rows behind)
            (rows theirs) sided
            (subst (λ rs. IsBook b.levels side rs (rows theirs)) (rows-append before (q ∷ behind))
              book.levels)
            book.level_pool in
        let (p, ok', u, gone, s) =
          leave_alone b.order_pool b.oid_to_order side q.price x (x ∷ []) (at_level.items.0, tt)
            at_level.items.0 book.order_pool in
        let (l₁, l₂, l₃) = spared p (without x) s in
        (
          record { levels = ls; order_pool = p; oid_to_order = without x },
          remove_order_lem x.at r.o (order.key x.order) b (record b { levels = ls }) p r.at r.of_key
              r.ranged (unqueue_alone x.at r.o b side q.price ls prev r.of_side r.of_price ok) ok',
          record {
            levels =
                subst (λ rs. IsBook ls side rs (rows theirs)) (sym (rows-append before behind))
                  levels;
            queues = All-append (IsQueue p (without x) side) before behind l₁ l₂;
            queues_other = l₃;
            level_pool = untouched;
            order_pool = u;
          },
          gone,
          refl,
        )

    -- An order with neighbours leaves its queue, which goes on as `q'`.
    shrinks :
        (x : Item T) (l y : ℕ) (q' : Queue T) (ls : Levels)
        → IsItem b.order_pool b.oid_to_order side q.price x
        → Dropped b.order_pool b.oid_to_order side x l y q'
        → q'.price ≡ q.price
        → replace_first x.at (some y) (some q.at) b.levels ≡ done ls
        → IsBook ls side (rows (before ++ q' ∷ behind)) (rows theirs)
        → Untouched ls.pool
        → (b' : Book T K) × (remove_order x.at b ≡ done b')
          × IsOrderBook b' side (before ++ q' ∷ behind) theirs
          × (live b'.order_pool x.at ≡ none)
          × (b'.oid_to_order ≡ without x)
    shrinks x l y q' ls item d same ok levels u =
        let r = reads b side q.price x item in
        let prev : node.prev r.o ≡ some l = sym (ap read_prev r.at) ∙ d.back in
        let next : node.next r.o ≡ some y = sym (ap read_next r.at) ∙ d.forth in
        let (l₁, l₂, l₃) = spared d.after (without x) (
          subst (λ v. Spares b.order_pool d.after b.oid_to_order (without x) side v) same
            d.spares) in
        (
          record { levels = ls; order_pool = d.after; oid_to_order = without x },
          remove_order_lem x.at r.o (order.key x.order) b
              (record b { levels = ls; order_pool = d.unlinked }) d.after r.at r.of_key r.ranged
              (unqueue_linked x.at r.o b q.price l y q.at d.passed d.unlinked ls prev next
                d.not_alone r.of_price known d.passes ok d.clears)
              d.returns,
          record {
            levels = levels;
            queues =
                All-append (IsQueue d.after (without x) side) before (q' ∷ behind) l₁ (d.queue, l₂);
            queues_other = l₃;
            level_pool = u;
            order_pool = d.untouched;
          },
          d.gone,
          refl,
        )

    -- The first order of a level leaves, and the next takes its place.
    pub moves_up :
        (t : Item T) (ts : List (Item T))
        → q.tail ≡ t ∷ ts
        → (b' : Book T K) × (remove_order q.head.at b ≡ done b')
          × IsOrderBook b' side (before ++ record q { head = t; tail = ts } ∷ behind) theirs
          × (live b'.order_pool q.head.at ≡ none)
          × (b'.oid_to_order ≡ without q.head)
    moves_up t ts shape =
        let (l, d) =
          drop_head b.order_pool b.oid_to_order side q t ts book.order_pool shape at_level in
        let q' : Queue T = record q { head = t; tail = ts } in
        let (lp, ok, levels, u) =
          set_first_order-IsBook b.levels side (rows before) (row_of q) (rows behind) (rows theirs)
            (some t.at)
            (subst (λ rs. IsBook b.levels side rs (rows theirs)) (rows-append before (q ∷ behind))
              book.levels)
            book.level_pool in
        shrinks q.head l t.at q' (record b.levels { pool = lp }) at_level.items.0 d refl
          (replace_first-moved q.head.at (some t.at) q.at b.levels level.0 lp level.1 level.4 ok)
          (subst (λ rs. IsBook (record b.levels { pool = lp }) side rs (rows theirs))
            (sym (rows-append before (q' ∷ behind))) levels)
          u

    -- An order further back leaves.
    pub closes_up :
        (xs : List (Item T)) (x : Item T) (ys : List (Item T))
        → q.tail ≡ xs ++ x ∷ ys
        → (b' : Book T K) × (remove_order x.at b ≡ done b')
          × IsOrderBook b' side (before ++ record q { tail = xs ++ ys } ∷ behind) theirs
          × (live b'.order_pool x.at ≡ none)
          × (b'.oid_to_order ≡ without x)
    closes_up xs x ys shape =
        let q' : Queue T = record q { tail = xs ++ ys } in
        let (l, y, d) =
          drop_inner b.order_pool b.oid_to_order side q xs x ys book.order_pool shape at_level in
        let items =
          subst (λ zs. All (IsItem b.order_pool b.oid_to_order side q.price) zs) shape
            at_level.items.1 in
        let mine =
          (All-right (IsItem b.order_pool b.oid_to_order side q.price) xs (x ∷ ys) items).0 in
        let off : q.head.at ≢ x.at =
          (All-right (λ z. q.head.at ≢ z) (spots xs) (x.at ∷ spots ys)
            (subst (λ zs. All (λ z. q.head.at ≢ z) zs) (ap spots shape ∙ spots-append xs (x ∷ ys))
              at_level.distinct.0)).0 in
        shrinks x l y q' b.levels mine d refl
          (replace_first-kept x.at (some y) q.at q.head.at b.levels level.0 level.1 level.4 off)
          (subst (λ rs. IsBook b.levels side rs (rows theirs))
            (sym (rows-same before q q' behind refl)) book.levels)
          book.level_pool

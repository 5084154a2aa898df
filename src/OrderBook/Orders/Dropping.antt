-- ===== src/OrderBook/Orders/Dropping.antt =====
-- trading/strategy/market_order_book.h, `removeOrder`: the queue that an order leaves behind, whether it
-- was the first or stood further back.
use hft_system.Base.{ℕ, ◌≡◌, ◌≢◌, sym, ap, ◌∙◌, subst, Option, none, some, List, ◌∷◌, ◌++◌, done}
use hft_system.Base.Int.{pos}
use hft_system.Common.Types.{Side}
use hft_system.Common.MemPool.{MemPool, live, deallocate}
use hft_system.Common.MemPool.Access.{Untouched}
use hft_system.Common.Node.{Node, next_at, prev_at, clear_links}
use hft_system.Common.Ring.{
  All, Distinct, Ring, Chain-end, Chain-split, last, last-All, All-map, All-left, All-right,
  All-append,
}
use hft_system.Common.Ring.Edit.{
  first, first-All, Ring-remove, Ring-remove_first, Distinct-split, Distinct-append,
}
use hft_system.OrderBook.Orders.{BookOrder, entered, pass_over}
use hft_system.OrderBook.Orders.Queues.{Item, Queue, spots, IsItem, IsQueue, Spares}
use hft_system.OrderBook.Orders.Links.{spots-append}
use hft_system.OrderBook.Orders.Leaving.{items_left, leave_between}
use hft_system.OrderBook.Levels.Search.{Chain-next}

module _ {T K : Type 0} ⦃node : Node T⦄ ⦃order : BookOrder T K node⦄ (p : MemPool T)
    (oids : K → Option ℕ) (side : Side) where
  abbrev pub cleared : Item T → K → Option ℕ
  cleared x = entered order.same oids (order.key x.order) none

  -- What `removeOrder` does to the pool of orders where `x` has neighbours `l` and `y`, and `q'` is left.
  pub record Dropped (x : Item T) (l y : ℕ) (q' : Queue T) : Type 0 where
    pub not_alone : x.at ≢ l
    pub back : prev_at p x.at ≡ some l
    pub forth : next_at p x.at ≡ some y
    pub passed : MemPool T
    pub unlinked : MemPool T
    pub after : MemPool T
    pub passes : pass_over (some l) (some y) p ≡ done passed
    pub clears : clear_links x.at passed ≡ done unlinked
    pub returns : deallocate (pos x.at) unlinked ≡ done after
    pub untouched : Untouched after
    pub gone : live after x.at ≡ none
    pub spares : Spares p after oids (cleared x) side q'.price
    pub queue : IsQueue after (cleared x) side q'

  pub drop_head :
      (q : Queue T) (t : Item T) (ts : List (Item T))
      → Untouched p
      → q.tail ≡ t ∷ ts
      → IsQueue p oids side q
      → (l : ℕ) × Dropped q.head l t.at (record q { head = t; tail = ts })
  drop_head q t ts u shape h =
      let x = q.head in
      let full = x ∷ t ∷ ts in
      let items : All (IsItem p oids side q.price) full =
        subst (λ zs. All (IsItem p oids side q.price) (x ∷ zs)) shape h.items in
      let ring : Ring (next_at p) (prev_at p) x.at (t.at ∷ spots ts) =
        subst (λ zs. Ring (next_at p) (prev_at p) x.at (spots zs)) shape h.threaded in
      let distinct : Distinct (x.at ∷ t.at ∷ spots ts) =
        subst (λ zs. Distinct (x.at ∷ spots zs)) shape h.distinct in
      let l = last t.at (spots ts) in
      let not_l : x.at ≢ l = last-All (λ z. x.at ≢ z) t.at (spots ts) distinct.0.0 distinct.0.1 in
      let (p₁, p₂, p₃, ok₁, ok₂, ok₃, u₃, dead, d, s) =
        leave_between p oids side q.price x full items items.0 l t.at
          (λ P a. (a.0, last-All P t.at (spots ts) a.1.0 a.1.1, a.1.0)) not_l distinct.0.0 u in
      (
        l,
        record {
          not_alone = not_l;
          back = (Chain-end (next_at p) (prev_at p) x.at (t.at ∷ spots ts) x.at ring).1;
          forth = ring.0.0;
          passed = p₁;
          unlinked = p₂;
          after = p₃;
          passes = ok₁;
          clears = ok₂;
          returns = ok₃;
          untouched = u₃;
          gone = dead;
          spares = s;
          queue = record {
            threaded =
                Ring-remove_first (next_at p) (prev_at p) (next_at p₃) (prev_at p₃) x.at t.at
                  (spots ts) distinct d.removed ring;
            distinct = distinct.1;
            items =
                items_left p oids side q.price x full items items.0 p₃ d.payloads (t ∷ ts)
                  distinct.0 items.1;
          };
        },
      )

  pub drop_inner :
      (q : Queue T) (xs : List (Item T)) (x : Item T) (ys : List (Item T))
      → Untouched p
      → q.tail ≡ xs ++ x ∷ ys
      → IsQueue p oids side q
      → (l y : ℕ) × Dropped x l y (record q { tail = xs ++ ys })
  drop_inner q xs x ys u shape h =
      let a = q.head in
      let nxt = next_at p in
      let prv = prev_at p in
      let full = a ∷ xs ++ x ∷ ys in
      let items : All (IsItem p oids side q.price) full =
        subst (λ zs. All (IsItem p oids side q.price) (a ∷ zs)) shape h.items in
      let split : spots q.tail ≡ spots xs ++ x.at ∷ spots ys =
        ap spots shape ∙ spots-append xs (x ∷ ys) in
      let ring : Ring nxt prv a.at (spots xs ++ x.at ∷ spots ys) =
        subst (λ zs. Ring nxt prv a.at zs) split h.threaded in
      let distinct : Distinct (a.at ∷ spots xs ++ x.at ∷ spots ys) =
        subst (λ zs. Distinct (a.at ∷ zs)) split h.distinct in
      let (da, dx, apart) = Distinct-split (a.at ∷ spots xs) (x.at ∷ spots ys) distinct in
      let (to_x, from_x) = Chain-split nxt prv a.at (spots xs) x.at (spots ys) a.at ring in
      let off : All (λ z. x.at ≢ z) (a.at ∷ spots xs) =
        All-map _ (λ z. x.at ≢ z) (a.at ∷ spots xs) (λ z k e. k.0 (sym e)) apart in
      let l = last a.at (spots xs) in
      let y = first a.at (spots ys) in
      let not_l : x.at ≢ l = last-All (λ z. x.at ≢ z) a.at (spots xs) off.0 off.1 in
      let not_y : x.at ≢ y = first-All (λ z. x.at ≢ z) a.at (spots ys) off.0 dx.0 in
      let mine = All-right (IsItem p oids side q.price) xs (x ∷ ys) items.1 in
      let left : All (IsItem p oids side q.price) (a ∷ xs ++ ys) = (
        items.0,
        All-append (IsItem p oids side q.price) xs ys
            (All-left (IsItem p oids side q.price) xs (x ∷ ys) items.1) mine.1,
      ) in
      let (p₁, p₂, p₃, ok₁, ok₂, ok₃, u₃, dead, d, s) =
        leave_between p oids side q.price x full items mine.0 l y
          (λ P k.
            let k' : All P (spots xs ++ x.at ∷ spots ys) =
              subst (λ zs. All P zs) (spots-append xs (x ∷ ys)) k.1 in
            let right = All-right P (spots xs) (x.at ∷ spots ys) k' in
            (
              right.0,
              last-All P a.at (spots xs) k.0 (All-left P (spots xs) (x.at ∷ spots ys) k'),
              first-All P a.at (spots ys) k.0 right.1,
            ))
          not_l not_y u in
      (
        l,
        y,
        record {
          not_alone = not_l;
          back = (Chain-end nxt prv a.at (spots xs) x.at to_x).1;
          forth = Chain-next nxt prv x.at (spots ys) a.at from_x;
          passed = p₁;
          unlinked = p₂;
          after = p₃;
          passes = ok₁;
          clears = ok₂;
          returns = ok₃;
          untouched = u₃;
          gone = dead;
          spares = s;
          queue = record {
            threaded =
                subst (λ zs. Ring (next_at p₃) (prev_at p₃) a.at zs) (sym (spots-append xs ys))
                  (Ring-remove nxt prv (next_at p₃) (prev_at p₃) a.at (spots xs) x.at (spots ys)
                    distinct d.removed ring);
            distinct =
                subst (λ zs. Distinct (a.at ∷ zs)) (sym (spots-append xs ys))
                  (Distinct-append (a.at ∷ spots xs) (spots ys) da dx.1 (
                    All-map _ (λ u. All (λ v. u ≢ v) (spots ys)) (a.at ∷ spots xs) (λ u k. k.1)
                      apart));
            items =
                items_left p oids side q.price x full items mine.0 p₃ d.payloads (a ∷ xs ++ ys)
                  (
                    off.0,
                    subst (λ zs. All (λ z. x.at ≢ z) zs) (sym (spots-append xs ys))
                        (All-append (λ z. x.at ≢ z) (spots xs) (spots ys) off.1 dx.0),
                  )
                  left;
          };
        },
      )

-- ===== src/OrderBook/Orders/Queues.antt =====
-- trading/strategy/market_order_book.h: a book as levels that each hold a queue of orders.
use hft_system.Base.{
  ℕ, ◌≡◌, ◌≢◌, refl, sym, ap, ◌∙◌, true, Option, some, List, [], ◌∷◌, ◌++◌, arith,
}
use hft_system.Base.Int.{ℤ}
use hft_system.Common.Types.{Side}
use hft_system.Common.MemPool.{MemPool}
use hft_system.Common.MemPool.Access.{Untouched}
use hft_system.Common.Node.{Node, next_at, prev_at, payload_at}
use hft_system.Common.Ring.{All, Distinct, Ring, Chain-frame}
use hft_system.OrderBook.Levels.{is_worse}
use hft_system.OrderBook.Levels.Rows.{Row, opposite}
use hft_system.OrderBook.Levels.Book.{IsBook}
use hft_system.OrderBook.Orders.{BookOrder, Book}

-- An order: where it lies, and what it is without its pointers.
pub record Item (T : Type 0) : Type 0 where
  pub at : ℕ
  pub order : T

pub record Queue (T : Type 0) : Type 0 where
  pub at : ℕ
  pub price : ℤ
  pub head : Item T
  pub tail : List (Item T)

module _ {T : Type 0} where
  abbrev pub spots : List (Item T) → List ℕ
  spots [] = []
  spots (x ∷ xs) = x.at ∷ spots xs

  abbrev pub row_of : Queue T → Row
  row_of q = record { at = q.at; price = q.price; first_order = some q.head.at }

  abbrev pub rows : List (Queue T) → List Row
  rows [] = []
  rows (q ∷ qs) = row_of q ∷ rows qs

  pub rows-append : (xs ys : List (Queue T)) → rows (xs ++ ys) ≡ rows xs ++ rows ys
  rows-append [] ys = refl
  rows-append (x ∷ xs) ys = ap (◌∷◌ (row_of x)) (rows-append xs ys)

-- No price is worse than itself.
pub is_worse_irrefl : (side : Side) (a b : ℤ) → is_worse side a b ≡ true → a ≢ b
unfolding is_worse
is_worse_irrefl Side.buy a b h e = ground (arith, h, ap (λ x. is_worse Side.buy x b) e)
is_worse_irrefl Side.sell a b h e = ground (arith, h, ap (λ x. is_worse Side.sell x b) e)
is_worse_irrefl Side.invalid a b h e = ground arith

-- At another level.
abbrev pub Elsewhere : Side → ℤ → Side → ℤ → Type 0
Elsewhere side' price' side price = ¬ ((side' ≡ side) × (price' ≡ price))

module _ {T K : Type 0} ⦃node : Node T⦄ ⦃order : BookOrder T K node⦄ where
  -- The order is in use, on its side, at its price, and found by its number.
  abbrev pub IsItem : MemPool T → (K → Option ℕ) → Side → ℤ → Item T → Type 0
  IsItem p oids side price x =
      (payload_at p x.at ≡ some x.order)
      × (order.side x.order ≡ side)
      × (order.price x.order ≡ price)
      × (oids (order.key x.order) ≡ some x.at)
      × (order.in_range (order.key x.order) ≡ true)

  -- The orders of a level are threaded from the first on.
  pub record IsQueue (p : MemPool T) (oids : K → Option ℕ) (side : Side) (q : Queue T)
      : Type 0 where
    pub threaded : Ring (next_at p) (prev_at p) q.head.at (spots q.tail)
    pub distinct : Distinct (q.head.at ∷ spots q.tail)
    pub items : All (IsItem p oids side q.price) (q.head ∷ q.tail)

  -- The book holds the queues `mine` on one side and `theirs` on the other, best price first.
  pub record IsOrderBook (b : Book T K) (side : Side) (mine theirs : List (Queue T)) : Type 0 where
    pub levels : IsBook b.levels side (rows mine) (rows theirs)
    pub queues : All (IsQueue b.order_pool b.oid_to_order side) mine
    pub queues_other : All (IsQueue b.order_pool b.oid_to_order (opposite side)) theirs
    pub level_pool : Untouched b.levels.pool
    pub order_pool : Untouched b.order_pool

  -- What a change at one level keeps of an order elsewhere.
  pub record Spares (p p' : MemPool T) (oids oids' : K → Option ℕ) (side : Side) (price : ℤ)
      : Type 0 where
    pub payloads :
        (j : ℕ) (t : T)
        → Elsewhere (order.side t) (order.price t) side price
        → payload_at p j ≡ some t
        → payload_at p' j ≡ some t
    pub nexts :
        (j : ℕ) (t : T)
        → Elsewhere (order.side t) (order.price t) side price
        → payload_at p j ≡ some t
        → next_at p' j ≡ next_at p j
    pub prevs :
        (j : ℕ) (t : T)
        → Elsewhere (order.side t) (order.price t) side price
        → payload_at p j ≡ some t
        → prev_at p' j ≡ prev_at p j
    pub known :
        (j : ℕ) (t : T)
        → Elsewhere (order.side t) (order.price t) side price
        → payload_at p j ≡ some t
        → oids (order.key t) ≡ some j
        → oids' (order.key t) ≡ some j

  module _ (p p' : MemPool T) (oids oids' : K → Option ℕ) (side side' : Side) (price price' : ℤ)
      (s : Spares p p' oids oids' side price) (away : Elsewhere side' price' side price) where
    elsewhere :
        (x : Item T)
        → IsItem p oids side' price' x
        → Elsewhere (order.side x.order) (order.price x.order) side price
    elsewhere x h e = away (sym h.1 ∙ e.0, sym h.2 ∙ e.1)

    items_kept :
        (xs : List (Item T))
        → All (IsItem p oids side' price') xs
        → All (IsItem p' oids' side' price') xs
    items_kept [] h = tt
    items_kept (x ∷ xs) h =
        let off = elsewhere x h.0 in
        (
          (
            s.payloads x.at x.order off h.0.0,
            h.0.1,
            h.0.2,
            s.known x.at x.order off h.0.0 h.0.3,
            h.0.4,
          ),
          items_kept xs h.1,
        )

    nexts_kept :
        (xs : List (Item T))
        → All (IsItem p oids side' price') xs
        → All (λ j. next_at p' j ≡ next_at p j) (spots xs)
    nexts_kept [] h = tt
    nexts_kept (x ∷ xs) h = (s.nexts x.at x.order (elsewhere x h.0) h.0.0, nexts_kept xs h.1)

    prevs_kept :
        (xs : List (Item T))
        → All (IsItem p oids side' price') xs
        → All (λ j. prev_at p' j ≡ prev_at p j) (spots xs)
    prevs_kept [] h = tt
    prevs_kept (x ∷ xs) h = (s.prevs x.at x.order (elsewhere x h.0) h.0.0, prevs_kept xs h.1)

  -- A queue at another level stays as it is.
  pub Spares-IsQueue :
      (p p' : MemPool T) (oids oids' : K → Option ℕ) (side side' : Side) (price : ℤ) (q : Queue T)
      → Spares p p' oids oids' side price
      → Elsewhere side' q.price side price
      → IsQueue p oids side' q
      → IsQueue p' oids' side' q
  Spares-IsQueue p p' oids oids' side side' price q s away h =
      let n =
        nexts_kept p p' oids oids' side side' price q.price s away (q.head ∷ q.tail) h.items in
      let v =
        prevs_kept p p' oids oids' side side' price q.price s away (q.head ∷ q.tail) h.items in
      record {
        threaded =
            Chain-frame (next_at p) (prev_at p) (next_at p') (prev_at p') q.head.at (spots q.tail)
              q.head.at n.0 n.1 v.1 v.0 h.threaded;
        distinct = h.distinct;
        items =
            items_kept p p' oids oids' side side' price q.price s away (q.head ∷ q.tail) h.items;
      }

  pub Spares-queues :
      (p p' : MemPool T) (oids oids' : K → Option ℕ) (side side' : Side) (price : ℤ)
      (qs : List (Queue T))
      → Spares p p' oids oids' side price
      → All (λ (q : Queue T). Elsewhere side' q.price side price) qs
      → All (IsQueue p oids side') qs
      → All (IsQueue p' oids' side') qs
  Spares-queues p p' oids oids' side side' price [] s away h = tt
  Spares-queues p p' oids oids' side side' price (q ∷ qs) s away h = (
    Spares-IsQueue p p' oids oids' side side' price q s away.0 h.0,
    Spares-queues p p' oids oids' side side' price qs s away.1 h.1,
  )

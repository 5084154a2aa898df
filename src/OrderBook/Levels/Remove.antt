-- ===== src/OrderBook/Levels/Remove.antt =====
-- trading/strategy/market_order_book.h, `removeOrdersAtPrice`: the whole operation on a book.
use hft_system.Base.{
  ℕ, ◌≡◌, ◌≢◌, sym, ap, ◌∙◌, true, Option, none, some, List, [], ◌∷◌, ◌++◌, ◌==◌, if◌then◌else◌,
  arith, done,
}
use hft_system.Base.Int.{ℤ, pos}
use hft_system.Common.Types.{Side}
use hft_system.Common.MemPool.{MemPool, live, deallocate}
use hft_system.Common.MemPool.Access.{Untouched, deallocate-Untouched}
use hft_system.Common.Node.{next_at, prev_at, read_next, read_prev}
use hft_system.Common.Node.Writes.{Edits-IsLive, Edits-Untouched, load-next}
use hft_system.Common.Ring.{All, Distinct, All-map, All-left, All-right, All-append, Chain-frame}
use hft_system.OrderBook.Levels.{
  OrdersAtPrice, level_node, Levels, detach, remove_orders_at_price, price_to_index, update,
  get_orders_at_price,
}
use hft_system.OrderBook.Levels.Rows.{Row, places, IsLevel, IsSorted, Laid, opposite, Edits-levels}
use hft_system.OrderBook.Levels.Placed.{best_of-pool}
use hft_system.OrderBook.Levels.Book.{IsKnown, IsBook, IsUnindexed, Edits-Laid}
use hft_system.OrderBook.Levels.Add.{update_here, update-IsKnown, best_of-known}
use hft_system.OrderBook.Levels.Detach.{Detached, detach_lem}

module _ (x : Row) (behind : List Row) where
  All-drop {κ} :
      (P : Row → Type κ) (before : List Row)
      → All P (before ++ x ∷ behind)
      → All P (before ++ behind)
  All-drop P before h =
      All-append P before behind (All-left P before (x ∷ behind) h)
        (All-right P before (x ∷ behind) h).1

  places-drop {κ} :
      (P : ℕ → Type κ) (before : List Row)
      → All P (places (before ++ x ∷ behind))
      → P x.at × All P (places (before ++ behind))
  places-drop P [] h = h
  places-drop P (r ∷ rs) h = let rest = places-drop P rs h.1 in (rest.0, (h.0, rest.1))

  Distinct-drop :
      (before : List Row)
      → Distinct (places (before ++ x ∷ behind))
      → Distinct (places (before ++ behind)) × All (λ y. x.at ≢ y) (places (before ++ behind))
  Distinct-drop [] d = (d.1, d.0)
  Distinct-drop (r ∷ rs) d =
      let (h, k) = Distinct-drop rs d.1 in
      let (ne, rest) = places-drop (λ y. r.at ≢ y) rs d.0 in ((rest, h), ((λ e. ne (sym e)), k))

  IsSorted-drop :
      (side : Side) (before : List Row)
      → IsSorted side (before ++ x ∷ behind)
      → IsSorted side (before ++ behind)
  IsSorted-drop side [] h = h.1
  IsSorted-drop side (r ∷ rs) h = (All-drop _ rs h.0, IsSorted-drop side rs h.1)

-- A side whose levels are the same objects in another pool.
pub same_objects :
    (p q : MemPool OrdersAtPrice) (side : Side) (rows : List Row)
    → All (λ j. live q j ≡ live p j) (places rows)
    → Laid p side rows
    → Laid q side rows
same_objects p q side [] same laid = record {
  levels = tt;
  threaded = tt;
  distinct = tt;
  sorted = tt;
}
same_objects p q side (r ∷ rs) same laid = record {
  levels = levels (r ∷ rs) same laid.levels;
  threaded =
      Chain-frame (next_at p) (prev_at p) (next_at q) (prev_at q) r.at (places rs) r.at
        (ap read_next same.0)
        (All-map _ (λ j. next_at q j ≡ next_at p j) (places rs) (λ j e. ap read_next e) same.1)
        (All-map _ (λ j. prev_at q j ≡ prev_at p j) (places rs) (λ j e. ap read_prev e) same.1)
        (ap read_prev same.0) laid.threaded;
  distinct = laid.distinct;
  sorted = laid.sorted;
}
  where
    levels :
        (xs : List Row)
        → All (λ j. live q j ≡ live p j) (places xs)
        → All (IsLevel p side) xs
        → All (IsLevel q side) xs
    levels [] s h = tt
    levels (x ∷ xs) s h = ((h.0.0, s.0 ∙ h.0.1, h.0.2, h.0.3, h.0.4), levels xs s.1 h.1)

-- What stands for a book after a level was taken out of its ring.
Detached-IsBook :
    (b b' : Levels) (side : Side) (before : List Row) (x : Row) (behind theirs : List Row)
    → IsBook b side (before ++ x ∷ behind) theirs
    → Detached b b' side (before ++ x ∷ behind) (before ++ behind)
    → IsBook b' side (before ++ behind) theirs
Detached-IsBook b b' side before x behind theirs book d = record {
  laid = record {
    levels =
        Edits-levels side (before ++ behind) d.edits (All-drop x behind _ before book.laid.levels);
    threaded = d.threaded;
    distinct = (Distinct-drop x behind before book.laid.distinct).0;
    sorted = IsSorted-drop x behind side before book.laid.sorted;
  };
  laid_other =
      Edits-Laid b.pool b'.pool (opposite side) theirs d.edits
        (All-map _
          (λ j. (next_at b'.pool j ≡ next_at b.pool j) × (prev_at b'.pool j ≡ prev_at b.pool j))
          (places theirs) d.outside book.apart)
        book.laid_other;
  head = d.head;
  head_other = d.other_head ∙ book.head_other;
  apart =
      All-map _ (λ z. All (λ y. z ≢ y) (places (before ++ behind))) (places theirs)
        (λ z h. (places-drop x behind (λ y. z ≢ y) before h).1) book.apart;
  known = rw d.known (All-drop x behind _ before book.known);
  known_other = rw d.known book.known_other;
}

-- Rows that the array leads to elsewhere have other indices.
IsKnown-IsUnindexed :
    (known : ℕ → Option ℕ) (x : Row) (rows : List Row)
    → known (price_to_index x.price) ≡ some x.at
    → All (λ y. x.at ≢ y) (places rows)
    → IsKnown known rows
    → IsUnindexed x.price rows
IsKnown-IsUnindexed known x [] at ne k = tt
IsKnown-IsUnindexed known x (r ∷ rs) at ne k = (
  (λ e.
      let same : known (price_to_index x.price) ≡ known (price_to_index r.price) = ap known e in
      ground (arith, at, same, k.0, ne.0)),
  IsKnown-IsUnindexed known x rs at ne.1 k.1,
)

-- The book after the level's block was given back and its index cleared.
Returned-IsBook :
    (b : Levels) (side : Side) (rest theirs : List Row) (x : Row) (p : MemPool OrdersAtPrice)
    → IsBook b side rest theirs
    → ((j : ℕ) → live p j ≡ (if j == x.at then none else live b.pool j))
    → b.price_orders_at_price (price_to_index x.price) ≡ some x.at
    → All (λ y. x.at ≢ y) (places rest)
    → All (λ y. x.at ≢ y) (places theirs)
    → IsBook
        (record b {
          pool = p;
          price_orders_at_price = update b.price_orders_at_price (price_to_index x.price) none;
        })
        side
        rest
        theirs
Returned-IsBook b side rest theirs x p book lives at ne ne_other =
    let same : (j : ℕ) → x.at ≢ j → live p j ≡ live b.pool j = λ j e. lives j ∙ ground (arith, e) in
    record {
      laid =
          same_objects b.pool p side rest
            (All-map _ (λ j. live p j ≡ live b.pool j) (places rest) same ne) book.laid;
      laid_other =
          same_objects b.pool p (opposite side) theirs
            (All-map _ (λ j. live p j ≡ live b.pool j) (places theirs) same ne_other)
            book.laid_other;
      head = best_of-pool side _ p ∙ best_of-known side b _ ∙ book.head;
      head_other =
          best_of-pool (opposite side) _ p ∙ best_of-known (opposite side) b _ ∙ book.head_other;
      apart = book.apart;
      known =
          update-IsKnown b.price_orders_at_price x.price none rest
            (IsKnown-IsUnindexed b.price_orders_at_price x rest at ne book.known) book.known;
      known_other =
          update-IsKnown b.price_orders_at_price x.price none theirs
            (IsKnown-IsUnindexed b.price_orders_at_price x theirs at ne_other book.known_other)
            book.known_other;
    }

-- The steps of the operation in turn.
remove_orders_at_price_lem :
    (side : Side) (price : ℤ) (b b₁ : Levels) (level n : ℕ) (p : MemPool OrdersAtPrice)
    → b.price_orders_at_price (price_to_index price) ≡ some level
    → next_at b.pool level ≡ some n
    → detach side level (some n) b ≡ done b₁
    → deallocate (pos level) b₁.pool ≡ done p
    → remove_orders_at_price side price b
      ≡ done (record b₁ {
        pool = p;
        price_orders_at_price = update b₁.price_orders_at_price (price_to_index price) none;
      })
unfolding remove_orders_at_price get_orders_at_price
remove_orders_at_price_lem side price b b₁ level n p found next ok ok' =
    let (l, loaded, next_l, _) = load-next b.pool level n next in
    rw (found, loaded, next_l, ok, ok')

-- Of a book whose rings lay out two sorted sides, in a pool whose blocks from the next free one on are
-- free: the level of a price, wherever it stands in its side, leaves its ring, the array and the pool;
-- the other levels of both sides stay, in their order, and the pool stays as good.
pub remove_orders_at_price-IsBook :
    (b : Levels) (side : Side) (before : List Row) (x : Row) (behind theirs : List Row)
    → side ≢ Side.invalid
    → IsBook b side (before ++ x ∷ behind) theirs
    → Untouched b.pool
    → (b' : Levels) × (remove_orders_at_price side x.price b ≡ done b')
      × IsBook b' side (before ++ behind) theirs
      × Untouched b'.pool
      × (live b'.pool x.at ≡ none)
      × (get_orders_at_price x.price b' ≡ none)
unfolding get_orders_at_price
remove_orders_at_price-IsBook b side before x behind theirs sided book untouched =
    let (n, next, b₁, ok, d) = detach_lem b side sided before x behind book.laid book.head in
    let at = (All-right _ before (x ∷ behind) book.known).0 in
    let level = (All-right _ before (x ∷ behind) book.laid.levels).0 in
    let (x₁, live₁) = Edits-IsLive x.at d.edits (level.0, level.1) in
    let (p, ok', untouched', lives, _, _) =
      deallocate-Untouched x.at b₁.pool (Edits-Untouched d.edits untouched) live₁ in
    let same : (x.at == x.at) ≡ true = ground arith in
    (
      record b₁ {
        pool = p;
        price_orders_at_price = update b₁.price_orders_at_price (price_to_index x.price) none;
      },
      remove_orders_at_price_lem side x.price b b₁ x.at n p at next ok ok',
      Returned-IsBook b₁ side (before ++ behind) theirs x p
          (Detached-IsBook b b₁ side before x behind theirs book d) lives
          (ap (λ (f : ℕ → Option ℕ). f (price_to_index x.price)) d.known ∙ at)
          (Distinct-drop x behind before book.laid.distinct).1
          (All-map _ (λ z. x.at ≢ z) (places theirs)
            (λ z h e. (places-drop x behind (λ y. z ≢ y) before h).0 (sym e)) book.apart),
      untouched',
      lives x.at ∙ rw same,
      update_here b₁.price_orders_at_price (price_to_index x.price) none,
    )

-- ===== src/OrderBook/Levels/Book.antt =====
-- trading/strategy/market_order_book.h: both sides of the book with the array that finds a level by
-- its price.
use hft_system.Base.{
  ℕ, suc, ◌≤◌, ◌<◌, ◌≡◌, ◌≢◌, refl, ap, Option, some, List, [], ◌∷◌, arith, length,
}
use hft_system.Base.Int.{ℤ}
use hft_system.Common.Types.{Side}
use hft_system.Common.MemPool.{MemPool}
use hft_system.Common.MemPool.Access.{lt-live}
use hft_system.Common.Node.{next_at, prev_at}
use hft_system.Common.Node.Writes.{Edits}
use hft_system.Common.Ring.{All, Chain-frame, All-map}
use hft_system.Common.Ring.Edit.{Apart}
use hft_system.Common.Ring.Bound.{length-Distinct}
use hft_system.OrderBook.Levels.{OrdersAtPrice, level_node, Levels, best_of, price_to_index}
use hft_system.OrderBook.Levels.Rows.{
  Row, places, heads, IsLevel, Laid, opposite, in_places, Edits-levels,
}

-- The array leads to the level of each row.
abbrev pub IsKnown : (ℕ → Option ℕ) → List Row → Type 0
IsKnown known rows = All (λ (r : Row). known (price_to_index r.price) ≡ some r.at) rows

-- The book holds the rows `mine` on one side and `theirs` on the other.
pub record IsBook (b : Levels) (side : Side) (mine theirs : List Row) : Type 0 where
  pub laid : Laid b.pool side mine
  pub laid_other : Laid b.pool (opposite side) theirs
  pub head : best_of side b ≡ heads mine
  pub head_other : best_of (opposite side) b ≡ heads theirs
  pub apart : Apart (places theirs) (places mine)
  pub known : IsKnown b.price_orders_at_price mine
  pub known_other : IsKnown b.price_orders_at_price theirs

-- No row's price has the array index of `price`.
abbrev pub IsUnindexed : ℤ → List Row → Type 0
IsUnindexed price rows = All (λ (r : Row). price_to_index price ≢ price_to_index r.price) rows

length-places : (rows : List Row) → length (places rows) ≡ length rows
length-places [] = refl
length-places (r ∷ rs) = ap suc (length-places rs)

-- A side is no longer than the pool.
pub length-Laid :
    (p : MemPool OrdersAtPrice) (side : Side) (rows : List Row)
    → Laid p side rows
    → length rows ≤ length p.store
length-Laid p side rows l =
    let bound = length-Distinct (length p.store) (places rows) l.distinct (
      in_places (λ y. y < length p.store) rows
        (All-map (IsLevel p side) (λ (r : Row). r.at < length p.store) rows
          (λ r h. lt-live p r.at h.1) l.levels)) in
    let same = length-places rows in omega arith

-- A side keeps its place when no pointer of its levels changes.
pub Edits-Laid :
    (p q : MemPool OrdersAtPrice) (side : Side) (rows : List Row)
    → Edits p q
    → All (λ j. (next_at q j ≡ next_at p j) × (prev_at q j ≡ prev_at p j)) (places rows)
    → Laid p side rows
    → Laid q side rows
Edits-Laid p q side [] e same l = record { levels = tt; threaded = tt; distinct = tt; sorted = tt }
Edits-Laid p q side (r ∷ rs) e same l = record {
  levels = Edits-levels side (r ∷ rs) e l.levels;
  threaded =
      Chain-frame (next_at p) (prev_at p) (next_at q) (prev_at q) r.at (places rs) r.at same.0.0
        (All-map _ (λ j. next_at q j ≡ next_at p j) (places rs) (λ j h. h.0) same.1)
        (All-map _ (λ j. prev_at q j ≡ prev_at p j) (places rs) (λ j h. h.1) same.1) same.0.1
        l.threaded;
  distinct = l.distinct;
  sorted = l.sorted;
}

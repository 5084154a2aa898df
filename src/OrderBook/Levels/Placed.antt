-- ===== src/OrderBook/Levels/Placed.antt =====
-- trading/strategy/market_order_book.h, `addOrdersAtPrice`: what a placed level leaves, and the heads of
-- the sides.
use hft_system.Base.{ℕ, ◌≡◌, ◌≢◌, refl, Option, List, ◌∷◌}
use hft_system.Common.Types.{Side}
use hft_system.Common.MemPool.{MemPool}
use hft_system.Common.Node.{next_at, prev_at}
use hft_system.Common.Node.Writes.{Edits}
use hft_system.Common.Node.Linking.{Inserted}
use hft_system.Common.Ring.{All}
use hft_system.OrderBook.Levels.{OrdersAtPrice, level_node, Levels, best_of, set_best}
use hft_system.OrderBook.Levels.Rows.{Row, places, heads, insert_row, IsThreaded, opposite}

-- What a new level at `new` does to a book whose side held `rows`.
pub record Placed (b b' : Levels) (side : Side) (rows : List Row) (new : Row) : Type 0 where
  pub threaded : IsThreaded b'.pool (insert_row side new rows)
  pub head : best_of side b' ≡ heads (insert_row side new rows)
  pub other_head : best_of (opposite side) b' ≡ best_of (opposite side) b
  pub known : b'.price_orders_at_price ≡ b.price_orders_at_price
  pub edits : Edits b.pool b'.pool
  pub outside :
      (j : ℕ)
      → All (λ y. j ≢ y) (new.at ∷ places rows)
      → (next_at b'.pool j ≡ next_at b.pool j) × (prev_at b'.pool j ≡ prev_at b.pool j)

pub set_best_lem :
    (side : Side) (v : Option ℕ) (b : Levels)
    → side ≢ Side.invalid
    → (best_of side (set_best side v b) ≡ v)
      × (best_of (opposite side) (set_best side v b) ≡ best_of (opposite side) b)
      × ((set_best side v b).pool ≡ b.pool)
      × ((set_best side v b).price_orders_at_price ≡ b.price_orders_at_price)
unfolding best_of set_best
set_best_lem Side.buy v b s = (refl, refl, refl, refl)
set_best_lem Side.sell v b s = (refl, refl, refl, refl)
set_best_lem Side.invalid v b s = absurd (s refl)

pub best_of-pool :
    (side : Side) (b : Levels) (p : MemPool OrdersAtPrice)
    → best_of side (record b { pool = p }) ≡ best_of side b
unfolding best_of
best_of-pool Side.buy b p = refl
best_of-pool Side.sell b p = refl
best_of-pool Side.invalid b p = refl

-- Nothing but the neighbours of an insertion changes.
pub Inserts-outside :
    (p p' : MemPool OrdersAtPrice) (l x o : ℕ) (ys : List ℕ)
    → Inserted p p' l x o
    → ((P : ℕ → Type 0) → All P ys → P l × P x)
    → (j : ℕ) → All (λ y. j ≢ y) (o ∷ ys)
    → (next_at p' j ≡ next_at p j) × (prev_at p' j ≡ prev_at p j)
Inserts-outside p p' l x o ys i among j ne =
    let (not_l, not_x) = among (λ y. j ≢ y) ne.1 in
    (i.next_other j not_l ne.0, i.prev_other j not_x ne.0)

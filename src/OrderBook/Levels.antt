-- ===== src/OrderBook/Levels.antt =====
-- trading/strategy/market_order_book.h: the price levels of the two sides. A level is found through
-- an array indexed by its price, and the levels of a side form a ring that starts at the best price.
pub mod Rows
pub mod Search
pub mod Placed
pub mod Insert
pub mod Book
pub mod Add
pub mod Heads
pub mod Detach
pub mod Remove
use hft_system.Base.{
  ℕ, zero, suc, ◌%◌, ◌≡◌, refl, Bool, true, false, not, ◌&&◌, ◌||◌, Option, none, some, ◌==◌,
  if◌then◌else◌, length, Outcome, done, undefined, ◌>>=◌, defined,
}
use hft_system.Base.Int.{ℤ, pos, ltb_ℤ}
use hft_system.Common.Types.{Side, me_max_price_levels, to_unsigned}
use hft_system.Common.MemPool.{MemPool, load, modify, deallocate}
use hft_system.Common.Node.{Node, link_after, link_before, link_self, unlink, clear_links}

-- `MarketOrdersAtPrice`
pub record OrdersAtPrice : Type 0 where
  pub side : Side
  pub price : ℤ
  pub first_order : Option ℕ
  pub prev_entry : Option ℕ
  pub next_entry : Option ℕ

instance abbrev pub level_node : Node OrdersAtPrice
level_node = record {
  next = λ t. t.next_entry;
  prev = λ t. t.prev_entry;
  with_next = λ v t. record t { next_entry = v };
  with_prev = λ v t. record t { prev_entry = v };
  payload = λ t. record t { prev_entry = none; next_entry = none };
  next-with_next = λ v t. refl;
  next-with_prev = λ v t. refl;
  prev-with_next = λ v t. refl;
  prev-with_prev = λ v t. refl;
  payload-with_next = λ v t. refl;
  payload-with_prev = λ v t. refl;
}

-- The members of `MarketOrderBook` that hold its price levels. The array is a function of its index,
-- which is always in range.
pub record Levels : Type 0 where
  pub pool : MemPool OrdersAtPrice
  pub bids_by_price : Option ℕ
  pub asks_by_price : Option ℕ
  pub price_orders_at_price : ℕ → Option ℕ

abbrev pub update {ℓ} : {A : Type ℓ} → (ℕ → A) → ℕ → A → ℕ → A
update f i v j = if j == i then v else f j

-- The price is converted to `size_t` before the remainder is taken.
unfoldable pub price_to_index : ℤ → ℕ
price_to_index price = to_unsigned price % me_max_price_levels

unfoldable pub get_orders_at_price : ℤ → Levels → Option ℕ
get_orders_at_price price b = b.price_orders_at_price (price_to_index price)

-- `pointer == node`
abbrev pub is_at : Option ℕ → ℕ → Bool
is_at none node = false
is_at (some i) node = i == node

-- `side == Side::BUY ? bids_by_price_ : asks_by_price_`
unfoldable pub best_of : Side → Levels → Option ℕ
best_of Side.buy b = b.bids_by_price
best_of Side.sell b = b.asks_by_price
best_of Side.invalid b = b.asks_by_price

unfoldable pub set_best : Side → Option ℕ → Levels → Levels
set_best Side.buy v b = record b { bids_by_price = v }
set_best Side.sell v b = record b { asks_by_price = v }
set_best Side.invalid v b = record b { asks_by_price = v }

-- Whether a price lies behind, or before, another one of the same side.
unfoldable pub is_worse : Side → ℤ → ℤ → Bool
is_worse Side.sell new target = ltb_ℤ target new
is_worse Side.buy new target = ltb_ℤ new target
is_worse Side.invalid new target = false

unfoldable pub is_better : Side → ℤ → ℤ → Bool
is_better Side.sell new target = ltb_ℤ new target
is_better Side.buy new target = ltb_ℤ target new
is_better Side.invalid new target = false

-- `while (add_after && target != best_orders_by_price)`; the pool has fuel for every level.
unfoldable pub walk : ℕ → OrdersAtPrice → ℕ → ℕ → Bool → MemPool OrdersAtPrice → Outcome (ℕ × Bool)
walk zero new best target add_after p = undefined
walk (suc fuel) new best target add_after p =
    if add_after && not (target == best)
    then (load (some target) p >>= λ t.
        if is_worse new.side new.price t.price
        then (defined t.next_entry >>= λ next. walk fuel new best next true p)
        else done (target, false))
    else done (target, add_after)

-- The search for the level beside which a new one belongs, and whether it goes behind it.
unfoldable pub find_target : OrdersAtPrice → ℕ → MemPool OrdersAtPrice → Outcome (ℕ × Bool)
find_target new best p = do
  b ← load (some best) p
  if is_worse new.side new.price b.price
      then (do
        second ← defined b.next_entry
        t ← load (some second) p
        walk (length p.store) new best second (is_worse new.side new.price t.price) p)
      else done (best, false)

-- Behind the target, or behind the last level where the search came round to the best.
unfoldable pub add_behind : ℕ → ℕ → ℕ → Levels → Outcome Levels
add_behind new best target b = do
  t ← load (some best) b.pool
  behind ← if target == best then defined t.prev_entry else done target
  p ← link_after behind new b.pool
  done (record b { pool = p })

-- `(target->next_entry_ == best_orders_by_price ? new_orders_at_price : target->next_entry_)`
abbrev pub relinked : ℕ → ℕ → Option ℕ → Option ℕ
relinked new best none = none
relinked new best (some n) = if n == best then some new else some n

-- Before the target, which a new best level replaces at the head of its side.
unfoldable pub add_before : ℕ → OrdersAtPrice → ℕ → ℕ → Levels → Outcome Levels
add_before new level best target b = do
  p ← link_before target new b.pool
  head ← load (some best) p
  if is_better level.side level.price head.price
      then (do
        t ← load (some target) p
        p' ← modify (some target) (λ l. record l { next_entry = relinked new best t.next_entry }) p
        done (set_best level.side (some new) (record b { pool = p' })))
      else done (record b { pool = p })

unfoldable pub place : ℕ → OrdersAtPrice → Option ℕ → Levels → Outcome Levels
place new level none b = do
  p ← link_self new b.pool
  done (set_best level.side (some new) (record b { pool = p }))
place new level (some best) b = do
  (target, add_after) ← find_target level best b.pool
  if add_after then add_behind new best target b else add_before new level best target b

unfoldable pub add_orders_at_price : ℕ → Levels → Outcome Levels
add_orders_at_price new b = do
  level ← load (some new) b.pool
  let known = update b.price_orders_at_price (price_to_index level.price) (some new)
  place new level (best_of level.side b) (record b { price_orders_at_price = known })

-- The level's own pointers are cleared before it is given back, unless it was the only one.
unfoldable pub detach : Side → ℕ → Option ℕ → Levels → Outcome Levels
detach side level next b = if is_at next level then done (set_best side none b) else (do
  p ← unlink level b.pool
  l ← load (some level) p
  p' ← clear_links level p
  done (
      if is_at (best_of side b) level
      then set_best side l.next_entry (record b { pool = p' })
      else record b { pool = p' }))

unfoldable pub remove_orders_at_price : Side → ℤ → Levels → Outcome Levels
remove_orders_at_price side price b = do
  level ← defined (get_orders_at_price price b)
  l ← load (some level) b.pool
  b₁ ← detach side level l.next_entry b
  let unknown = update b₁.price_orders_at_price (price_to_index price) none
  p ← deallocate (pos level) b₁.pool
  done (record b₁ { pool = p; price_orders_at_price = unknown })

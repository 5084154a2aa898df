-- ===== src/OrderBook/Levels/Search.antt =====
-- trading/strategy/market_order_book.h, `addOrdersAtPrice`: the walk along a side ends, at the place
-- of the new price.
use hft_system.Base.{
  ℕ, zero, suc, ◌<◌, ◌≡◌, ◌≢◌, refl, true, false, Option, some, List, [], ◌∷◌, ◌==◌, if◌then◌else◌,
  arith, Bool-cases, inl, inr, length, done, ◌>>=◌,
}
use hft_system.Base.Int.{ℤ}
use hft_system.Common.Types.{Side}
use hft_system.Common.MemPool.{MemPool, live, load}
use hft_system.Common.MemPool.Access.{load-live}
use hft_system.Common.Node.{next_at, prev_at}
use hft_system.Common.Ring.{All, Ring, Chain}
use hft_system.Common.Ring.Edit.{first}
use hft_system.OrderBook.Levels.{OrdersAtPrice, level_node, is_worse, walk, find_target}
use hft_system.OrderBook.Levels.Rows.{Row, places, IsLevel, stops}

pub Chain-next :
    (nxt prv : ℕ → Option ℕ) (a : ℕ) (xs : List ℕ) (b : ℕ)
    → Chain nxt prv a xs b
    → nxt a ≡ some (first b xs)
Chain-next nxt prv a [] b h = h.0
Chain-next nxt prv a (x ∷ xs) b h = h.0.0

module _ (p : MemPool OrdersAtPrice) (new : OrdersAtPrice) (side : Side) (best : ℕ) where
  next_of :
      (l : OrdersAtPrice) (i n : ℕ)
      → live p i ≡ some l
      → next_at p i ≡ some n
      → l.next_entry ≡ some n
  next_of l i n at e = ground (arith, at, e)

  -- A walk that starts with the test failed does not move.
  walk_stopped :
      (fuel target : ℕ) → 0 < fuel → walk fuel new best target false p ≡ done (target, false)
  unfolding walk
  walk_stopped zero target h = absurd (omega arith)
  walk_stopped (suc fuel) target h = refl

  walk_lem :
      (fuel a : ℕ) (rs : List Row)
      → All (IsLevel p side) rs
      → Chain (next_at p) (prev_at p) a (places rs) best
      → All (λ y. best ≢ y) (places rs)
      → length rs < fuel
      → walk fuel new best (first best (places rs)) true p ≡ done (stops new.side new.price best rs)
  unfolding walk
  walk_lem zero a rs ls c d h = absurd (omega arith)
  walk_lem (suc fuel) a [] ls c d h =
      let here : (best == best) ≡ true = ground arith in rw (walk, here)
  walk_lem (suc fuel) a (r ∷ rs) ls c d h =
      let (l, at, _, price, _) = ls.0 in
      let elsewhere : (r.at == best) ≡ false = ground (arith, d.0) in
      let next =
        next_of l r.at (first best (places rs)) at
          (Chain-next (next_at p) (prev_at p) r.at (places rs) best c.1) in
      elim (Bool-cases (is_worse new.side new.price r.price)) [
        | inl worse ↦
            let worse_l : is_worse new.side new.price l.price ≡ true = rw price worse in
            rw (elsewhere, load-live p r.at at, worse_l, worse, next)
              (walk_lem fuel r.at rs ls.1 c.1 d.1 (omega arith))
        | inr better ↦
            let better_l : is_worse new.side new.price l.price ≡ false = rw price better in
            rw (elsewhere, load-live p r.at at, better_l, better)
      ]

  -- From the second level on, with the first test already made.
  from_second :
      (price : ℤ) (rs : List Row) (l : OrdersAtPrice)
      → live p best ≡ some l
      → l.price ≡ price
      → is_worse new.side new.price price ≡ true
      → All (IsLevel p side) rs
      → Ring (next_at p) (prev_at p) best (places rs)
      → All (λ y. best ≢ y) (places rs)
      → length rs < length p.store
      → (load (some (first best (places rs))) p >>= λ t.
          walk
            (length p.store)
            new
            best
            (first best (places rs))
            (is_worse new.side new.price t.price)
            p)
        ≡ done (stops new.side new.price best rs)
  from_second price [] l at same worse ls c d h =
      let worse_l : is_worse new.side new.price l.price ≡ true = rw same worse in
      rw (load-live p best at, worse_l) (walk_lem (length p.store) best [] ls c d h)
  from_second price (r ∷ rs) l at same worse ls c d h =
      let (l₁, at₁, _, price₁, _) = ls.0 in
      elim (Bool-cases (is_worse new.side new.price r.price)) [
        | inl worse₁ ↦
            let worse_l : is_worse new.side new.price l₁.price ≡ true = rw price₁ worse₁ in
            rw (load-live p r.at at₁, worse_l) (walk_lem (length p.store) best (r ∷ rs) ls c d h)
        | inr better₁ ↦
            let better_l : is_worse new.side new.price l₁.price ≡ false = rw price₁ better₁ in
            rw (load-live p r.at at₁, better_l, better₁)
              (walk_stopped (length p.store) r.at (omega arith))
      ]

  -- The whole search, along a side whose best row is at `best`.
  pub find_target_lem :
      (price : ℤ) (orders : Option ℕ) (rs : List Row)
      → All (IsLevel p side) (record { at = best; price = price; first_order = orders } ∷ rs)
      → Ring (next_at p) (prev_at p) best (places rs)
      → All (λ y. best ≢ y) (places rs)
      → length rs < length p.store
      → find_target new best p
        ≡ done (
            if is_worse new.side new.price price
            then stops new.side new.price best rs
            else (best, false))
  unfolding find_target
  find_target_lem price orders rs ls c d h =
      let (l, at, _, same, _) = ls.0 in
      let second =
        next_of l best (first best (places rs)) at
          (Chain-next (next_at p) (prev_at p) best (places rs) best c) in
      elim (Bool-cases (is_worse new.side new.price price)) [
        | inl worse ↦
            let worse_l : is_worse new.side new.price l.price ≡ true = rw same worse in
            rw (load-live p best at, worse_l, worse, second)
              (from_second price rs l at same worse ls.1 c d h)
        | inr better ↦
            let better_l : is_worse new.side new.price l.price ≡ false = rw same better in
            rw (load-live p best at, better_l, better)
      ]

-- ===== src/OrderBook/Orders/Away.antt =====
-- trading/strategy/market_order_book.h: the levels of a book differ in side or in price.
use hft_system.Base.{
  ◌≡◌, ◌≢◌, refl, sym, ap, subst, true, List, [], ◌∷◌, ◌++◌, arith, if◌then◌else◌, Bool-cases, inl,
  inr,
}
use hft_system.Base.Int.{ℤ}
use hft_system.Common.Types.{Side}
use hft_system.Common.Ring.{All, All-right}
use hft_system.OrderBook.Levels.{is_worse}
use hft_system.OrderBook.Levels.Rows.{Row, IsSorted, insert_row, opposite}
use hft_system.OrderBook.Orders.Queues.{
  Queue, row_of, rows, rows-append, Elsewhere, is_worse_irrefl,
}

pub opposite_ne : (side : Side) → side ≢ Side.invalid → opposite side ≢ side
opposite_ne Side.buy h e = absurd (ground (arith, e))
opposite_ne Side.sell h e = absurd (ground (arith, e))
opposite_ne Side.invalid h e = h refl

module _ {T : Type 0} where
  away_row :
      (side : Side) (price : ℤ) (qs : List (Queue T))
      → All (λ (r : Row). is_worse side r.price price ≡ true) (rows qs)
      → All (λ (q : Queue T). Elsewhere side q.price side price) qs
  away_row side price [] h = tt
  away_row side price (q ∷ qs) h =
      ((λ e. is_worse_irrefl side q.price price h.0 e.1), away_row side price qs h.1)

  -- The other levels of a sorted side have other prices.
  pub IsSorted-Elsewhere :
      (side : Side) (before : List (Queue T)) (q : Queue T) (behind : List (Queue T))
      → IsSorted side (rows (before ++ q ∷ behind))
      → All (λ (r : Queue T). Elsewhere side r.price side q.price) before
        × All (λ (r : Queue T). Elsewhere side r.price side q.price) behind
  IsSorted-Elsewhere side [] q behind h = (tt, away_row side q.price behind h.0)
  IsSorted-Elsewhere side (x ∷ xs) q behind h =
      let (l, r) = IsSorted-Elsewhere side xs q behind h.1 in
      let worse =
        (All-right (λ (r : Row). is_worse side r.price x.price ≡ true) (rows xs)
          (row_of q ∷ rows behind)
          (subst (λ rs. All (λ (r : Row). is_worse side r.price x.price ≡ true) rs)
            (rows-append xs (q ∷ behind)) h.0)).0 in
      (((λ e. is_worse_irrefl side q.price x.price worse (sym e.1)), l), r)

  pub opposite-Elsewhere :
      (side : Side) (price : ℤ) (qs : List (Queue T))
      → side ≢ Side.invalid
      → All (λ (q : Queue T). Elsewhere (opposite side) q.price side price) qs
  opposite-Elsewhere side price [] h = tt
  opposite-Elsewhere side price (q ∷ qs) h =
      ((λ e. opposite_ne side h e.0), opposite-Elsewhere side price qs h)

  -- A new level at its place.
  unfoldable pub insert_queue : Side → Queue T → List (Queue T) → List (Queue T)
  insert_queue side new [] = new ∷ []
  insert_queue side new (q ∷ qs) =
      if is_worse side new.price q.price then q ∷ insert_queue side new qs else new ∷ q ∷ qs

  pub rows-insert_queue :
      (side : Side) (new : Queue T) (qs : List (Queue T))
      → rows (insert_queue side new qs) ≡ insert_row side (row_of new) (rows qs)
  unfolding insert_queue insert_row
  rows-insert_queue side new [] = refl
  rows-insert_queue side new (q ∷ qs) = elim (Bool-cases (is_worse side new.price q.price)) [
    | inl worse ↦ rw worse (ap (◌∷◌ (row_of q)) (rows-insert_queue side new qs))
    | inr better ↦ rw better
  ]

  pub insert_queue-All {κ} :
      (P : Queue T → Type κ) (side : Side) (new : Queue T) (qs : List (Queue T))
      → P new
      → All P qs
      → All P (insert_queue side new qs)
  unfolding insert_queue
  insert_queue-All P side new [] h k = (h, tt)
  insert_queue-All P side new (q ∷ qs) h k = elim (Bool-cases (is_worse side new.price q.price)) [
    | inl worse ↦ rw worse (k.0, insert_queue-All P side new qs h k.1)
    | inr better ↦ rw better (h, k)
  ]

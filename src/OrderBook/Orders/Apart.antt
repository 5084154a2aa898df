-- ===== src/OrderBook/Orders/Apart.antt =====
-- trading/strategy/market_order_book.cpp and exchange/matcher/me_order_book.cpp: an order of a queue lies apart
-- from the others.
use hft_system.Base.{ℕ, ◌≡◌, ◌≢◌, refl, sym, ap, List, [], ◌∷◌, ◌++◌}
use hft_system.Common.Ring.{All, Distinct}
use hft_system.OrderBook.Orders.Queues.{spots, Item}

module _ {T : Type 0} where
  abbrev pub changed : (T → T) → Item T → Item T
  changed change x = record x { order = change x.order }

  pub spots-changed :
      (change : T → T) (xs : List (Item T)) (x : Item T) (ys : List (Item T))
      → spots (xs ++ changed change x ∷ ys) ≡ spots (xs ++ x ∷ ys)
  spots-changed change [] x ys = refl
  spots-changed change (y ∷ xs) x ys = ap (◌∷◌ y.at) (spots-changed change xs x ys)

  pub spot_of :
      (P : ℕ → Type 0) (xs : List (Item T)) (x : Item T) (ys : List (Item T))
      → All P (spots (xs ++ x ∷ ys))
      → P x.at
  spot_of P [] x ys h = h.0
  spot_of P (y ∷ xs) x ys h = spot_of P xs x ys h.1

  pub apart_behind :
      (i : ℕ) (ys : List (Item T)) → All (λ j. i ≢ j) (spots ys) → All (λ (y : Item T). y.at ≢ i) ys
  apart_behind i [] h = tt
  apart_behind i (y ∷ ys) h = ((λ e. h.0 (sym e)), apart_behind i ys h.1)

  -- The other orders lie elsewhere.
  pub apart_of :
      (xs : List (Item T)) (x : Item T) (ys : List (Item T))
      → Distinct (spots (xs ++ x ∷ ys))
      → All (λ (y : Item T). y.at ≢ x.at) xs × All (λ (y : Item T). y.at ≢ x.at) ys
  apart_of [] x ys d = (tt, apart_behind x.at ys d.0)
  apart_of (z ∷ xs) x ys d =
      let (l, r) = apart_of xs x ys d.1 in ((spot_of (λ j. z.at ≢ j) xs x ys d.0, l), r)

-- ===== src/OrderBook/Orders/Leaving.antt =====
-- trading/strategy/market_order_book.h, `removeOrder`: what the order's leaving the ring means for the
-- queues.
use hft_system.Base.{
  ℕ, ◌≡◌, ◌≢◌, refl, sym, ap, ◌∙◌, Option, none, some, List, [], ◌∷◌, arith, Bool-cases, inl, inr,
  done,
}
use hft_system.Base.Int.{ℤ, pos}
use hft_system.Common.Types.{Side}
use hft_system.Common.MemPool.{MemPool, live, deallocate}
use hft_system.Common.MemPool.Access.{Untouched, deallocate-Untouched}
use hft_system.Common.Node.{Node, next_at, prev_at, payload_at, clear_links, read_payload}
use hft_system.Common.Node.Writes.{IsLive}
use hft_system.Common.Ring.{All}
use hft_system.OrderBook.Orders.{BookOrder, entered, pass_over}
use hft_system.OrderBook.Orders.Queues.{Item, spots, IsItem, Spares, Elsewhere}
use hft_system.OrderBook.Orders.Links.{Drops, drop_order}
use hft_system.OrderBook.Orders.Joining.{apart-Elsewhere}

module _ {T : Type 0} ⦃node : Node T⦄ where
  live_of : (o : Option T) (t : T) → read_payload o ≡ some t → (u : T) × (o ≡ some u)
  live_of none t h = absurd (ground arith)
  live_of (some u) t h = (u, refl)

  pub IsLive-payload : (p : MemPool T) (j : ℕ) (t : T) → payload_at p j ≡ some t → IsLive p j
  IsLive-payload p j t h = live_of (live p j) t h

module _ {T K : Type 0} ⦃node : Node T⦄ ⦃order : BookOrder T K node⦄ where
  pub IsLive-items :
      (p : MemPool T) (oids : K → Option ℕ) (side : Side) (price : ℤ) (xs : List (Item T))
      → All (IsItem p oids side price) xs
      → All (IsLive p) (spots xs)
  IsLive-items p oids side price [] h = tt
  IsLive-items p oids side price (x ∷ xs) h =
      (IsLive-payload p x.at x.order h.0.0, IsLive-items p oids side price xs h.1)

  -- `x` leaves the queue of the orders `full`.
  module _ (p : MemPool T) (oids : K → Option ℕ) (side : Side) (price : ℤ) (x : Item T)
      (full : List (Item T)) (items : All (IsItem p oids side price) full)
      (mine : IsItem p oids side price x) where
    abbrev gone : K → Option ℕ
    gone = entered order.same oids (order.key x.order) none

    known_kept :
        (t : T) (j : ℕ) → x.at ≢ j → oids (order.key t) ≡ some j → gone (order.key t) ≡ some j
    known_kept t j ne h = elim (Bool-cases (order.same (order.key t) (order.key x.order))) [
      | inl same ↦
          let eq : oids (order.key t) ≡ oids (order.key x.order) =
            ap oids (order.same-eq (order.key t) (order.key x.order) same) in
          absurd (ground (arith, eq, mine.3, h, ne))
      | inr other ↦ rw other h
    ]

    module _ (p' : MemPool T) (kept : (j : ℕ) → x.at ≢ j → payload_at p' j ≡ payload_at p j) where
      pub items_left :
          (xs : List (Item T))
          → All (λ y. x.at ≢ y) (spots xs)
          → All (IsItem p oids side price) xs
          → All (IsItem p' gone side price) xs
      items_left [] ne h = tt
      items_left (z ∷ zs) ne h = (
        (kept z.at ne.0 ∙ h.0.0, h.0.1, h.0.2, known_kept z.order z.at ne.0 h.0.3, h.0.4),
        items_left zs ne.1 h.1,
      )

    -- The order is the only one of its level, and is given back.
    pub leave_alone :
        Untouched p
        → (p' : MemPool T) × (deallocate (pos x.at) p ≡ done p')
          × Untouched p'
          × (live p' x.at ≡ none)
          × Spares p p' oids gone side price
    leave_alone u =
        let (o, at) = IsLive-payload p x.at x.order mine.0 in
        let (p', ok, u', lives, _, _) = deallocate-Untouched x.at p u at in
        let off =
          λ (j : ℕ) (t : T) (away : Elsewhere (order.side t) (order.price t) side price)
              (here : payload_at p j ≡ some t) (e : x.at ≡ j).
            away (
              let same : t ≡ x.order = ground (arith, here, mine.0, ap (payload_at p) e) in
              (ap order.side same ∙ mine.1, ap order.price same ∙ mine.2)) in
        let same : (j : ℕ) → x.at ≢ j → live p' j ≡ live p j =
          λ j ne. lives j ∙ ground (arith, ne) in
        (
          p',
          ok,
          u',
          lives x.at ∙ ground arith,
          record {
            payloads = λ j t away here. ap read_payload (same j (off j t away here)) ∙ here;
            nexts =
                λ j t away here. ap hft_system.Common.Node.read_next (same j (off j t away here));
            prevs =
                λ j t away here. ap hft_system.Common.Node.read_prev (same j (off j t away here));
            known = λ j t away here found. known_kept t j (off j t away here) found;
          },
        )

    -- Its neighbours are `l` and `y`.
    module _ (l y : ℕ) (among : (P : ℕ → Type 0) → All P (spots full) → P x.at × P l × P y)
        (not_l : x.at ≢ l) (not_y : x.at ≢ y) where
      pub leave_between :
          Untouched p
          → (p₁ : MemPool T) × (p₂ : MemPool T) × (p₃ : MemPool T) × (pass_over (some l) (some y) p
              ≡ done p₁)
            × (clear_links x.at p₁ ≡ done p₂)
            × (deallocate (pos x.at) p₂ ≡ done p₃)
            × Untouched p₃
            × (live p₃ x.at ≡ none)
            × Drops p p₃ l x.at y
            × Spares p p₃ oids gone side price
      leave_between u =
          let (live_x, live_l, live_y) =
            among (IsLive p) (IsLive-items p oids side price full items) in
          let (p₁, p₂, p₃, ok₁, ok₂, ok₃, u₃, dead, d) =
            drop_order p x.at l y not_l not_y live_x live_l live_y u in
          let off =
            λ (j : ℕ) (t : T) (away : Elsewhere (order.side t) (order.price t) side price)
                (here : payload_at p j ≡ some t).
              among (λ z. j ≢ z) (apart-Elsewhere p oids side price full j t items here away) in
          (
            p₁,
            p₂,
            p₃,
            ok₁,
            ok₂,
            ok₃,
            u₃,
            dead,
            d,
            record {
              payloads = λ j t away here. d.payloads j (λ e. (off j t away here).0 (sym e)) ∙ here;
              nexts = λ j t away here.
                  d.removed.next_other j (off j t away here).1 (off j t away here).0;
              prevs = λ j t away here.
                  d.removed.prev_other j (off j t away here).2 (off j t away here).0;
              known =
                  λ j t away here found. known_kept t j (λ e. (off j t away here).0 (sym e)) found;
            },
          )

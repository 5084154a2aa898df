-- ===== src/Trading/OrderManager/Requests.antt =====
-- trading/strategy/order_manager.h: the requests of a pair of quotes, and the numbers of the new orders.
use hft_system.Base.{
  ℕ, ◌+◌, ◌%◌, ◌^◌, ◌<◌, ◌≡◌, refl, sym, ap, ◌∙◌, subst, true, false, List, [], ◌∷◌, ◌++◌, arith,
  ltb, if◌then◌else◌, append-nil, append_assoc, Bool-cases, inl, inr, done,
}
use hft_system.Base.Int.{ℤ}
use hft_system.Common.Types.{Side, me_max_tickers, price_invalid, side_to_index}
use hft_system.OrderFlow.Server.{ClientRequestType, ClientRequest}
use hft_system.OrderFlow.Responses.{ClientResponse}
use hft_system.Trading.OrderManager.{
  OrderState, RiskCheckResult, OrderManager, same_price, is_allowed, new_request, cancel_request,
  new_order, cancel_order, move_in, move_order, move_orders, on_order_update, set_slot, updated,
}

-- The number of the next new order after a request.
abbrev pub after : ClientRequestType → ℕ → ℕ
after ClientRequestType.new n = (n + 1) % 2 ^ 64
after ClientRequestType.cancel n = n
after ClientRequestType.invalid n = n

module _ (client_id : ℕ) (check : ℕ → Side → ℕ → RiskCheckResult) where
  -- A new order has the number `n`, a valid price, and passed the risk check. Nothing but new orders and
  -- cancels is sent.
  abbrev pub IsSound : ClientRequestType → ℕ → ClientRequest → Type 0
  IsSound ClientRequestType.new n r =
      (r.order_id ≡ n)
      × (is_allowed (check r.ticker_id r.side r.qty) ≡ true)
      × (same_price r.price price_invalid ≡ false)
  IsSound ClientRequestType.cancel n r = r.client_id ≡ client_id
  IsSound ClientRequestType.invalid n r = true ≡ false

  -- The requests number their new orders from `n` up to `final`.
  abbrev pub IsNumbered : ℕ → List ClientRequest → ℕ → Type 0
  IsNumbered n [] final = final ≡ n
  IsNumbered n (r ∷ rs) final = IsSound r.type n r × IsNumbered (after r.type n) rs final

  IsNumbered-append :
      (n k final : ℕ) (rs ss : List ClientRequest)
      → IsNumbered n rs k
      → IsNumbered k ss final
      → IsNumbered n (rs ++ ss) final
  IsNumbered-append n k final [] ss h g = subst (λ v. IsNumbered v ss final) h g
  IsNumbered-append n k final (r ∷ rs) ss h g =
      (h.0, IsNumbered-append (after r.type n) k final rs ss h.1 g)

  -- What an operation sends.
  pub record Sends (m m' : OrderManager) : Type 0 where
    pub requests : List ClientRequest
    pub says : m'.sent ≡ m.sent ++ requests
    pub numbered : IsNumbered m.next_order_id requests m'.next_order_id

  pub Sends-refl : (m : OrderManager) → Sends m m
  Sends-refl m = record { requests = []; says = sym (append-nil m.sent); numbered = refl }

  Sends-trans : (m₁ m₂ m₃ : OrderManager) → Sends m₁ m₂ → Sends m₂ m₃ → Sends m₁ m₃
  Sends-trans m₁ m₂ m₃ f g = record {
    requests = f.requests ++ g.requests;
    says = g.says ∙ ap (λ v. v ++ g.requests) f.says ∙ append_assoc m₁.sent f.requests g.requests;
    numbered =
        IsNumbered-append m₁.next_order_id m₂.next_order_id m₃.next_order_id f.requests g.requests
          f.numbered g.numbered;
  }

  module _ (t i ticker_id : ℕ) (price : ℤ) (side : Side) (qty : ℕ) (m : OrderManager) where
    new_order-Sends :
        is_allowed (check ticker_id side qty) ≡ true
        → same_price price price_invalid ≡ false
        → Sends m (new_order client_id t i ticker_id price side qty m)
    unfolding new_order
    new_order-Sends allowed valid = record {
      requests = new_request client_id m.next_order_id ticker_id price side qty ∷ [];
      says = refl;
      numbered = ((refl, allowed, valid), refl);
    }

    opens-Sends : Sends m (
        if same_price price price_invalid
        then m
        else if is_allowed (check ticker_id side qty)
        then new_order client_id t i ticker_id price side qty m
        else m)
    opens-Sends = elim (Bool-cases (same_price price price_invalid)) [
      | inl none_given ↦ rw none_given (Sends-refl m)
      | inr valid ↦ elim (Bool-cases (is_allowed (check ticker_id side qty))) [
        | inl allowed ↦ rw (valid, allowed) (new_order-Sends allowed valid)
        | inr refused ↦ rw (valid, refused) (Sends-refl m)
      ]
    ]

    move_in-Sends :
        (s : OrderState) → Sends m (move_in client_id check s t i ticker_id price side qty m)
    unfolding move_in cancel_order
    move_in-Sends OrderState.live = record {
      requests = cancel_request client_id (m.ticker_side_order t i) ∷ [];
      says = refl;
      numbered = (refl, refl);
    }
    move_in-Sends OrderState.pending_new = Sends-refl m
    move_in-Sends OrderState.pending_cancel = Sends-refl m
    move_in-Sends OrderState.invalid = opens-Sends
    move_in-Sends OrderState.dead = opens-Sends

    move_order-Sends : Sends m (move_order client_id check t i ticker_id price side qty m)
    unfolding move_order
    move_order-Sends = move_in-Sends (m.ticker_side_order t i).order_state

  -- Two quotes for an instrument in range.
  pub move_orders-Sends :
      (ticker_id : ℕ) (bid ask : ℤ) (clip : ℕ) (m : OrderManager)
      → ticker_id < me_max_tickers
      → (m' : OrderManager) × (move_orders client_id check ticker_id bid ask clip m ≡ done m')
        × Sends m m'
  unfolding move_orders
  move_orders-Sends ticker_id bid ask clip m known =
      let found : ltb ticker_id me_max_tickers ≡ true = ground (arith, known) in
      let m₁ =
        move_order client_id check ticker_id (side_to_index Side.buy) ticker_id bid Side.buy clip
          m in
      let m₂ =
        move_order client_id check ticker_id (side_to_index Side.sell) ticker_id ask Side.sell clip
          m₁ in
      (
        m₂,
        rw found refl,
        Sends-trans m m₁ m₂
            (move_order-Sends ticker_id (side_to_index Side.buy) ticker_id bid Side.buy clip m)
            (move_order-Sends ticker_id (side_to_index Side.sell) ticker_id ask Side.sell clip m₁),
      )

abbrev received : ClientResponse → OrderManager → OrderManager
received r m =
    let i = side_to_index r.side in
    set_slot r.ticker_id i (updated r.type r.leaves_qty (m.ticker_side_order r.ticker_id i)) m

-- A response sends nothing and uses no number.
pub on_order_update-done :
    (r : ClientResponse) (m : OrderManager)
    → r.ticker_id < me_max_tickers
    → (m' : OrderManager) × (on_order_update r m ≡ done m')
      × (m'.sent ≡ m.sent)
      × (m'.next_order_id ≡ m.next_order_id)
unfolding on_order_update
on_order_update-done r m known =
    let found : ltb r.ticker_id me_max_tickers ≡ true = ground (arith, known) in
    (received r m, rw found refl, refl, refl)

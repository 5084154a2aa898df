-- ===== src/Trading/Strategies/Quotes.antt =====
-- trading/strategy/market_maker.h and liquidity_taker.h: the requests that a quote leads to.
use hft_system.Base.{
  ℕ, ◌<◌, ◌≡◌, refl, sym, ap, ◌∙◌, true, false, List, [], ◌∷◌, ◌++◌, arith, ltb, if◌then◌else◌,
  append-nil, append_assoc, Bool-cases, inl, inr, done,
}
use hft_system.Base.Int.{ℤ}
use hft_system.Common.Types.{Side, me_max_tickers, price_invalid, side_to_index}
use hft_system.Common.Ring.{All, All-append}
use hft_system.OrderFlow.Server.{ClientRequestType, ClientRequest}
use hft_system.Trading.OrderManager.{
  OrderState, RiskCheckResult, OrderManager, same_price, is_allowed, new_request, cancel_request,
  new_order, cancel_order, move_in, move_order, move_orders,
}

-- The price that is asked for on a side.
abbrev pub quoted : ℤ → ℤ → Side → ℤ
quoted bid ask Side.buy = bid
quoted bid ask Side.sell = ask
quoted bid ask Side.invalid = price_invalid

-- A request of an instrument, for one quantity: a cancel, or a new order that the check allowed, at the
-- price that is asked for on its side.
abbrev pub IsQuote :
    ℕ
    → (ℕ → Side → ℕ → RiskCheckResult)
    → ℕ
    → ℤ
    → ℤ
    → ℕ
    → ClientRequestType
    → ClientRequest
    → Type 0
IsQuote client_id check ticker_id bid ask clip ClientRequestType.new r =
    (r.ticker_id ≡ ticker_id)
    × (r.qty ≡ clip)
    × (is_allowed (check ticker_id r.side clip) ≡ true)
    × (same_price r.price price_invalid ≡ false)
    × (r.price ≡ quoted bid ask r.side)
IsQuote client_id check ticker_id bid ask clip ClientRequestType.cancel r = r.client_id ≡ client_id
IsQuote client_id check ticker_id bid ask clip ClientRequestType.invalid r = true ≡ false

module _ (client_id : ℕ) (check : ℕ → Side → ℕ → RiskCheckResult) (ticker_id : ℕ) (bid ask : ℤ)
    (clip : ℕ) where
  abbrev Quotes : OrderManager → OrderManager → List ClientRequest → Type 0
  Quotes m m' rs =
      (m'.sent ≡ m.sent ++ rs)
      × All (λ r. IsQuote client_id check ticker_id bid ask clip r.type r) rs

  Quotes-nothing : (m : OrderManager) → Quotes m m []
  Quotes-nothing m = (sym (append-nil m.sent), tt)

  module _ (i : ℕ) (side : Side) (m : OrderManager) where
    opens-Quotes :
        (rs : List ClientRequest) × Quotes m
          (if same_price (quoted bid ask side) price_invalid
            then m
            else if is_allowed (check ticker_id side clip)
            then new_order client_id ticker_id i ticker_id (quoted bid ask side) side clip m
            else m)
          rs
    unfolding new_order
    opens-Quotes = elim (Bool-cases (same_price (quoted bid ask side) price_invalid)) [
      | inl none_given ↦ rw none_given ([], Quotes-nothing m)
      | inr valid ↦ elim (Bool-cases (is_allowed (check ticker_id side clip))) [
        | inl allowed ↦
            rw (valid, allowed)
              (
                new_request client_id m.next_order_id ticker_id (quoted bid ask side) side clip
                    ∷ [],
                (refl, ((refl, refl, allowed, valid, refl), tt)),
              )
        | inr refused ↦ rw (valid, refused) ([], Quotes-nothing m)
      ]
    ]

    move_in-Quotes :
        (s : OrderState)
        → (rs : List ClientRequest) × Quotes m
            (move_in client_id check s ticker_id i ticker_id (quoted bid ask side) side clip m)
            rs
    unfolding move_in cancel_order
    move_in-Quotes OrderState.live =
        (cancel_request client_id (m.ticker_side_order ticker_id i) ∷ [], (refl, (refl, tt)))
    move_in-Quotes OrderState.pending_new = ([], Quotes-nothing m)
    move_in-Quotes OrderState.pending_cancel = ([], Quotes-nothing m)
    move_in-Quotes OrderState.invalid = opens-Quotes
    move_in-Quotes OrderState.dead = opens-Quotes

    move_order-Quotes :
        (rs : List ClientRequest) × Quotes m
          (move_order client_id check ticker_id i ticker_id (quoted bid ask side) side clip m)
          rs
    unfolding move_order
    move_order-Quotes = move_in-Quotes (m.ticker_side_order ticker_id i).order_state

  pub move_orders-Quotes :
      (m : OrderManager)
      → ticker_id < me_max_tickers
      → (m' : OrderManager) × (rs : List ClientRequest) × (move_orders client_id check ticker_id bid
            ask clip m
          ≡ done m')
        × (m'.sent ≡ m.sent ++ rs)
        × All (λ r. IsQuote client_id check ticker_id bid ask clip r.type r) rs
  unfolding move_orders
  move_orders-Quotes m known =
      let found : ltb ticker_id me_max_tickers ≡ true = ground (arith, known) in
      let m₁ =
        move_order client_id check ticker_id (side_to_index Side.buy) ticker_id bid Side.buy clip
          m in
      let (rs, (says, all)) = move_order-Quotes (side_to_index Side.buy) Side.buy m in
      let (ss, (says', all')) = move_order-Quotes (side_to_index Side.sell) Side.sell m₁ in
      (
        move_order client_id check ticker_id (side_to_index Side.sell) ticker_id ask Side.sell clip
            m₁,
        rs ++ ss,
        rw found refl,
        says' ∙ ap (λ v. v ++ ss) says ∙ append_assoc m.sent rs ss,
        All-append _ rs ss all all',
      )

-- ===== src/Trading/OrderManager.antt =====
-- trading/strategy/order_manager.h and .cpp, with om_order.h: one order for each instrument and side, sent,
-- moved and followed through the exchange's responses.
pub mod Requests
use hft_system.Base.{
  ℕ, ◌+◌, ◌%◌, ◌^◌, Bool, true, false, ◌&&◌, List, [], ◌∷◌, ◌++◌, ◌==◌, ltb, if◌then◌else◌, Outcome,
  done, exits, ◌>>=◌,
}
use hft_system.Base.Int.{ℤ, pos_part, neg_part}
use hft_system.Common.Types.{Side, me_max_tickers, price_invalid, side_to_index}
use hft_system.OrderFlow.Server.{ClientRequestType, ClientRequest}
use hft_system.OrderFlow.Responses.{ClientResponseType, ClientResponse}

-- `OMOrderState`
pub data OrderState : Type 0 where
  invalid pending_new live pending_cancel dead : OrderState

-- `OMOrder`
pub record OmOrder : Type 0 where
  pub ticker_id : ℕ
  pub order_id : ℕ
  pub side : Side
  pub price : ℤ
  pub qty : ℕ
  pub order_state : OrderState

pub data RiskCheckResult : Type 0 where
  invalid order_too_large position_too_large loss_too_large allowed : RiskCheckResult

-- The array of orders is a function of the instrument and of the side's index. The requests given to the
-- trade engine are a list, the first sent first.
pub record OrderManager : Type 0 where
  pub ticker_side_order : ℕ → ℕ → OmOrder
  pub next_order_id : ℕ
  pub sent : List ClientRequest

-- `*order = ...`, the order of an instrument and a side's index.
abbrev pub set_slot : ℕ → ℕ → OmOrder → OrderManager → OrderManager
set_slot t i o m = record m {
  ticker_side_order = λ t' i'. if (t' == t) && (i' == i) then o else m.ticker_side_order t' i';
}

abbrev pub send : ClientRequest → OrderManager → OrderManager
send r m = record m { sent = m.sent ++ r ∷ [] }

abbrev pub same_price : ℤ → ℤ → Bool
same_price a b = (pos_part a == pos_part b) && (neg_part a == neg_part b)

abbrev pub is_allowed : RiskCheckResult → Bool
is_allowed RiskCheckResult.allowed = true
is_allowed RiskCheckResult.invalid = false
is_allowed RiskCheckResult.order_too_large = false
is_allowed RiskCheckResult.position_too_large = false
is_allowed RiskCheckResult.loss_too_large = false

-- `client_id` is that of the trade engine.
module _ (client_id : ℕ) where
  abbrev pub new_request : ℕ → ℕ → ℤ → Side → ℕ → ClientRequest
  new_request order_id ticker_id price side qty = record {
    type = ClientRequestType.new;
    client_id = client_id;
    ticker_id = ticker_id;
    order_id = order_id;
    side = side;
    price = price;
    qty = qty;
  }

  abbrev pub cancel_request : OmOrder → ClientRequest
  cancel_request o = record {
    type = ClientRequestType.cancel;
    client_id = client_id;
    ticker_id = o.ticker_id;
    order_id = o.order_id;
    side = o.side;
    price = o.price;
    qty = o.qty;
  }

  unfoldable pub new_order : ℕ → ℕ → ℕ → ℤ → Side → ℕ → OrderManager → OrderManager
  new_order t i ticker_id price side qty m =
      let m₁ = send (new_request m.next_order_id ticker_id price side qty) m in
      let m₂ =
        set_slot t i
          (record {
            ticker_id = ticker_id;
            order_id = m.next_order_id;
            side = side;
            price = price;
            qty = qty;
            order_state = OrderState.pending_new;
          })
          m₁ in
      record m₂ { next_order_id = (m.next_order_id + 1) % 2 ^ 64 }

  unfoldable pub cancel_order : ℕ → ℕ → OrderManager → OrderManager
  cancel_order t i m =
      let o = m.ticker_side_order t i in
      set_slot t i (record o { order_state = OrderState.pending_cancel })
        (send (cancel_request o) m)

-- `check` is the check of the risk manager.
module _ (client_id : ℕ) (check : ℕ → Side → ℕ → RiskCheckResult) where
  -- The test of the price of a live order guards only the measurement that stands on the line below it.
  unfoldable pub move_in : OrderState → ℕ → ℕ → ℕ → ℤ → Side → ℕ → OrderManager → OrderManager
  move_in OrderState.live t i ticker_id price side qty m = cancel_order client_id t i m
  move_in OrderState.pending_new t i ticker_id price side qty m = m
  move_in OrderState.pending_cancel t i ticker_id price side qty m = m
  move_in _ t i ticker_id price side qty m =
      if same_price price price_invalid
      then m
      else if is_allowed (check ticker_id side qty)
      then new_order client_id t i ticker_id price side qty m
      else m

  unfoldable pub move_order : ℕ → ℕ → ℕ → ℤ → Side → ℕ → OrderManager → OrderManager
  move_order t i ticker_id price side qty m =
      move_in (m.ticker_side_order t i).order_state t i ticker_id price side qty m

  -- An instrument beyond the array throws, which ends a `noexcept` function's process.
  unfoldable pub move_orders : ℕ → ℤ → ℤ → ℕ → OrderManager → Outcome OrderManager
  move_orders ticker_id bid_price ask_price clip m =
      if ltb ticker_id me_max_tickers
      then done (
          move_order ticker_id (side_to_index Side.sell) ticker_id ask_price Side.sell clip
            (move_order ticker_id (side_to_index Side.buy) ticker_id bid_price Side.buy clip m))
      else exits

abbrev pub filled : ℕ → OmOrder → OmOrder
filled leaves_qty o = record o {
  qty = leaves_qty;
  order_state = if leaves_qty == 0 then OrderState.dead else o.order_state;
}

-- What a response of each type does to the order.
unfoldable pub updated : ClientResponseType → ℕ → OmOrder → OmOrder
updated ClientResponseType.accepted leaves_qty o = record o { order_state = OrderState.live }
updated ClientResponseType.canceled leaves_qty o = record o { order_state = OrderState.dead }
updated ClientResponseType.filled leaves_qty o = filled leaves_qty o
updated ClientResponseType.cancel_rejected leaves_qty o = o
updated ClientResponseType.invalid leaves_qty o = o

unfoldable pub on_order_update : ClientResponse → OrderManager → Outcome OrderManager
on_order_update r m =
    let i = side_to_index r.side in
    if ltb r.ticker_id me_max_tickers
    then done
        (set_slot r.ticker_id i (updated r.type r.leaves_qty (m.ticker_side_order r.ticker_id i)) m)
    else exits

-- ===== src/Trading/EngineTests.antt =====
-- A maker that holds three lots and quotes, and a fill of its bid. Numbers are counted in halves.
use hft_system.Base.{
  ℕ, ◌+◌, ◌/◌, ◌%◌, ◌^◌, ◌≤◌, ◌≡◌, refl, Bool, true, false, not, ◌&&◌, Option, none, some, List, [],
  ◌∷◌, ◌++◌, ◌==◌, if◌then◌else◌, arith, done, inl, ◌↔◌,
}
use hft_system.Base.Int.{ℤ, pos, negsuc, pos_part, sub_ℕ, ltb_ℤ, abs, ◌≤ℤ◌, ◌+ℤ◌, ◌-ℤ◌, ◌*ℤ◌}
use hft_system.Common.Types.{Side, side_to_index}
use hft_system.Common.AlgoTypes.{AlgoType}
use hft_system.Common.Ring.{All}
use hft_system.OrderFlow.Server.{ClientRequest}
use hft_system.OrderFlow.Responses.{ClientResponseType, ClientResponse}
use hft_system.OrderBook.Market.{MarketOrderBook}
use hft_system.Trading.OrderManager.{OrderState, OrderManager, same_price, is_allowed, filled}
use hft_system.Trading.Doubles.{Doubles}
use hft_system.Trading.Positions.{PositionInfo}
use hft_system.Trading.Positions.Fills.{signed_qty, traded, net, add_fills, add_fills-net}
use hft_system.Trading.Risk.{RiskCfg, check_pre_trade_risk}
use hft_system.Trading.Risk.Limits.{check_pre_trade_risk-allows}
use hft_system.Trading.Strategies.{TradeEngineCfg}
use hft_system.Trading.Engine.{TradeEngine, engine_on_order_book_update, engine_on_order_update}
use hft_system.Trading.Engine.Passive.{Fits, IsPassive, IsLimited}
use hft_system.Trading.Engine.Orders.{
  engine_on_order_book_update-IsPassive, engine_on_order_update-fills,
}

abbrev lift₂ : {A : Type 0} → (ℤ → ℤ → A) → A → Option ℤ → Option ℤ → A
lift₂ f other (some a) (some b) = f a b
lift₂ f other _ _ = other

-- Rounded to zero.
abbrev quotient : ℤ → ℕ → ℤ
quotient (pos n) b = pos (n / b)
quotient (negsuc n) b = sub_ℕ 0 ((n + 1) / b)

-- By a number above zero.
abbrev divide : ℤ → ℤ → Option ℤ
divide a b = if pos_part b == 0 then none else some (quotient (a *ℤ pos 2) (pos_part b))

abbrev differ : Option ℤ → Option ℤ → Bool
differ a b = lift₂ (λ x y. not (same_price x y)) true a b

pub differ-nan : (x : Option ℤ) → differ x none ≡ true
differ-nan none = refl
differ-nan (some a) = refl

instance abbrev pub halves : Doubles (Option ℤ)
halves = record {
  of_int = λ a. some (a *ℤ pos 2);
  add = lift₂ (λ a b. some (a +ℤ b)) none;
  sub = lift₂ (λ a b. some (a -ℤ b)) none;
  mul = lift₂ (λ a b. some (quotient (a *ℤ b) 2)) none;
  div = lift₂ divide none;
  less = lift₂ ltb_ℤ false;
  at_least = lift₂ (λ a b. not (ltb_ℤ a b)) false;
  differs = differ;
  half = some (pos 1);
  nan = none;
  nan-differs = differ-nan;
}

abbrev pub holding : PositionInfo (Option ℤ)
holding = record {
  position = pos 3;
  real_pnl = some (pos 0);
  unreal_pnl = some (pos 0);
  total_pnl = some (pos 0);
  open_vwap = λ i. if i == 2 then some (pos 600) else some (pos 0);
  volume = 3;
}

abbrev fill : Side → ℕ → ℕ → ℕ → ClientResponse
fill side price exec_qty leaves_qty = record {
  type = ClientResponseType.filled;
  client_id = 6;
  ticker_id = 2;
  client_order_id = 1;
  market_order_id = 77;
  side = side;
  price = pos price;
  exec_qty = exec_qty;
  leaves_qty = leaves_qty;
}

abbrev fills : List ClientResponse
fills = fill Side.buy 100 4 1 ∷ fill Side.sell 103 9 0 ∷ []

add_fills-net_example :
    (p' : PositionInfo (Option ℤ)) × (add_fills fills holding ≡ done p')
    × (p'.position ≡ pos 3 +ℤ net fills)
    × (p'.volume ≡ (3 + traded fills) % 2 ^ 32)
    × (p'.real_pnl ≡ some (pos 0))
unfolding ◌*ℤ◌
add_fills-net_example =
    add_fills-net fills holding (omega arith) (omega arith)
      ((omega arith, omega arith), ((omega arith, omega arith), tt))

abbrev limits : RiskCfg (Option ℤ)
limits = record { max_order_size = 20; max_position = pos 10; max_loss = some (negsuc 99) }

check_pre_trade_risk-allows_example :
    (is_allowed (check_pre_trade_risk limits holding Side.sell 5) ≡ true) ↔ (
      (5 ≤ 20)
      × (abs (pos 3 +ℤ signed_qty Side.sell 5) ≤ℤ pos 10)
      × (ltb_ℤ (pos 0) (negsuc 99) ≡ false))
check_pre_trade_risk-allows_example =
    check_pre_trade_risk-allows limits holding Side.sell 5 (omega arith) (omega arith)

abbrev pub cfg : ℕ → TradeEngineCfg (Option ℤ)
cfg t = record { clip = 5; threshold = some (pos 2); risk_cfg = limits }

-- Nothing is in the pools: the algorithm reads only the best bid and offer.
abbrev pub quoted_book : MarketOrderBook
quoted_book = record {
  book = record {
    levels = record {
      pool = record { store = []; next_free_index = 0 };
      bids_by_price = none;
      asks_by_price = none;
      price_orders_at_price = λ i. none;
    };
    order_pool = record { store = []; next_free_index = 0 };
    oid_to_order = λ k. none;
  };
  bbo = record { bid_price = pos 100; ask_price = pos 103; bid_qty = 5; ask_qty = 7 };
}

abbrev manager : OrderManager
manager = record {
  ticker_side_order = λ t i. record {
    ticker_id = t;
    order_id = 1;
    side = Side.buy;
    price = pos 100;
    qty = 5;
    order_state = if i == 2 then OrderState.live else OrderState.dead;
  };
  next_order_id = 2;
  sent = [];
}

abbrev pub engine : TradeEngine (Option ℤ)
engine = record {
  ticker_order_book = λ t. quoted_book;
  feature_engine = record { mkt_price = none; agg_trade_qty_ratio = none };
  position_keeper = λ t. holding;
  order_manager = manager;
}

pub quoted_book-Fits : Fits quoted_book.bbo
unfolding ◌+ℤ◌ ◌-ℤ◌ ◌*ℤ◌
quoted_book-Fits = record {
  mid = (omega arith, omega arith);
  bid_value = (omega arith, omega arith);
  ask_value = (omega arith, omega arith);
  values = (omega arith, omega arith);
  bid = (omega arith, omega arith);
  ask = (omega arith, omega arith);
  below_bid = (omega arith, omega arith);
  above_ask = (omega arith, omega arith);
}

engine_on_order_book_update-IsPassive_example :
    (e' : TradeEngine (Option ℤ)) × (rs : List ClientRequest) × (engine_on_order_book_update 6
        AlgoType.maker cfg 2 quoted_book engine
      ≡ done e')
    × (e'.order_manager.sent ≡ [] ++ rs)
    × All (λ r. IsLimited 6 cfg e'.position_keeper 2 (IsPassive quoted_book.bbo) r.type r) rs
    × ((u : ℕ) → (e'.position_keeper u).position ≡ pos 3)
engine_on_order_book_update-IsPassive_example =
    engine_on_order_book_update-IsPassive 6 cfg engine quoted_book 2 (omega arith) quoted_book-Fits
      (omega arith) (omega arith)

abbrev pub bid_filled : ClientResponse
bid_filled = fill Side.buy 100 4 1

engine_on_order_update-fills_example :
    (e' : TradeEngine (Option ℤ)) × (engine_on_order_update 6 AlgoType.maker cfg bid_filled engine
      ≡ done e')
    × ((u : ℕ) → (e'.position_keeper u).position ≡ (if u == 2 then pos 3 +ℤ pos 4 else pos 3))
    × ((u i : ℕ)
        → e'.order_manager.ticker_side_order u i ≡ (
            if (u == 2) && (i == side_to_index Side.buy)
            then filled 1 (manager.ticker_side_order 2 (side_to_index Side.buy))
            else manager.ticker_side_order u i))
    × (e'.order_manager.sent ≡ [])
unfolding ◌*ℤ◌
engine_on_order_update-fills_example =
    engine_on_order_update-fills 6 cfg engine AlgoType.maker bid_filled (inl refl) refl
      (omega arith) (omega arith) (omega arith, omega arith)

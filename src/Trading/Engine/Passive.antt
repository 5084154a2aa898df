-- ===== src/Trading/Engine/Passive.antt =====
-- trading/strategy/trade_engine.cpp, onOrderBookUpdate: the orders that a change of a book leads to.
use hft_system.Base.{
  ℕ, ◌^◌, ◌≤◌, ◌<◌, ◌≡◌, refl, sym, subst, Bool, true, false, not, ◌&&◌, List, [], ◌++◌, arith, ltb,
  ◌==◌, if◌then◌else◌, append-nil, Bool-cases, inl, inr, Outcome, done,
}
use hft_system.Base.Int.{ℤ, pos, abs, ◌≤ℤ◌, ◌+ℤ◌, ◌-ℤ◌, ◌*ℤ◌}
use hft_system.Common.Types.{Side, me_max_tickers, price_invalid}
use hft_system.Common.Ring.{All, All-map}
use hft_system.OrderFlow.Server.{ClientRequestType, ClientRequest}
use hft_system.OrderBook.Market.{Bbo}
use hft_system.Trading.OrderManager.{OrderManager, same_price, move_orders}
use hft_system.Trading.Doubles.{Doubles, is_zero}
use hft_system.Trading.Positions.{
  PositionInfo, PositionKeeper, at_position, position_update_bbo, both_valid,
}
use hft_system.Trading.Positions.Fills.{
  size, IsInt64, signed_qty, int64-done, unrealised-done, SameHolding,
}
use hft_system.Trading.Risk.Limits.{check_pre_trade_risk-allows}
use hft_system.Trading.Features.{FeatureEngine, update_mkt_price}
use hft_system.Trading.Strategies.{TradeEngineCfg, step_back, maker_on_order_book_update}
use hft_system.Trading.Strategies.Quotes.{quoted, IsQuote, move_orders-Quotes}
use hft_system.Trading.Engine.{risk_check}

-- The best bid and offer with what the code computes from them in 64 bits.
pub record Fits (b : Bbo) : Type 0 where
  pub mid : IsInt64 (b.bid_price +ℤ b.ask_price)
  pub bid_value : IsInt64 (b.bid_price *ℤ pos b.ask_qty)
  pub ask_value : IsInt64 (b.ask_price *ℤ pos b.bid_qty)
  pub values : IsInt64 (b.bid_price *ℤ pos b.ask_qty +ℤ b.ask_price *ℤ pos b.bid_qty)
  pub bid : IsInt64 b.bid_price
  pub ask : IsInt64 b.ask_price
  pub below_bid : IsInt64 (b.bid_price -ℤ pos 1)
  pub above_ask : IsInt64 (b.ask_price +ℤ pos 1)

module _ {R : Type 0} ⦃d : Doubles R⦄ where
  pub update_bbo-done :
      (b : Bbo) (p : PositionInfo R)
      → Fits b
      → size p.position < 2 ^ 31
      → (p' : PositionInfo R) × (position_update_bbo b p ≡ done p') × SameHolding p p'
  unfolding position_update_bbo
  update_bbo-done b p fits small = elim (Bool-cases (not (is_zero p.position) && both_valid b)) [
    | inl e ↦
        let (v, ok) =
          unrealised-done (d.mul (d.of_int (b.bid_price +ℤ b.ask_price)) d.half) p small in
        rw (e, int64-done (b.bid_price +ℤ b.ask_price) fits.mid, ok)
          (_, refl, record { position = refl; volume = refl; real_pnl = refl })
    | inr e ↦ rw e (p, refl, record { position = refl; volume = refl; real_pnl = refl })
  ]

  pub update_mkt_price-done :
      (b : Bbo) (f : FeatureEngine R)
      → Fits b
      → (f' : FeatureEngine R) × (update_mkt_price b f ≡ done f')
  unfolding update_mkt_price
  update_mkt_price-done b f fits = elim (Bool-cases (both_valid b)) [
    | inl e ↦
        rw (e, int64-done _ fits.bid_value, int64-done _ fits.ask_value, int64-done _ fits.values)
          (_, refl)
    | inr e ↦ rw e (f, refl)
  ]

  -- A change of one instrument that keeps its position keeps the others'.
  pub at_position-keeps :
      (t : ℕ) (change : PositionInfo R → Outcome (PositionInfo R)) (k : PositionKeeper R)
      (p : PositionInfo R)
      → t < me_max_tickers
      → change (k t) ≡ done p
      → p.position ≡ (k t).position
      → (k' : PositionKeeper R) × (at_position t change k ≡ done k')
        × ((u : ℕ) → (k' u).position ≡ (k u).position)
  unfolding at_position
  at_position-keeps t change k p known ok same =
      let found : ltb t me_max_tickers ≡ true = ground (arith, known) in
      (λ u. if u == t then p else k u, rw (found, ok) refl, λ u. ground (arith, same))

-- No better than the best price of its own side.
abbrev pub IsPassive : Bbo → Side → ℤ → Type 0
IsPassive b Side.buy price = price ≤ℤ b.bid_price
IsPassive b Side.sell price = b.ask_price ≤ℤ price
IsPassive b Side.invalid price = true ≡ false

module _ {R : Type 0} ⦃d : Doubles R⦄ (client_id : ℕ) (ticker_cfg : ℕ → TradeEngineCfg R) where
  -- A cancel of this client, or a new order with the configured quantity whose price satisfies `P` on its
  -- side, within the limits at the positions `k`.
  abbrev pub IsLimited :
      PositionKeeper R → ℕ → (Side → ℤ → Type 0) → ClientRequestType → ClientRequest → Type 0
  IsLimited k t P ClientRequestType.new r =
      let cfg = (ticker_cfg t).risk_cfg in
      (r.ticker_id ≡ t)
      × (r.qty ≡ (ticker_cfg t).clip)
      × P r.side r.price
      × (r.qty ≤ cfg.max_order_size)
      × (abs ((k t).position +ℤ signed_qty r.side r.qty) ≤ℤ cfg.max_position)
      × (d.less (k t).total_pnl cfg.max_loss ≡ false)
  IsLimited k t P ClientRequestType.cancel r = r.client_id ≡ client_id
  IsLimited k t P ClientRequestType.invalid r = true ≡ false

  module _ (k : PositionKeeper R) (t : ℕ) (P : Side → ℤ → Type 0) (bid ask : ℤ)
      (short : (ticker_cfg t).risk_cfg.max_order_size < 2 ^ 31)
      (small : size (k t).position ≤ 2 ^ 31)
      (priced : (side : Side)
        → same_price (quoted bid ask side) price_invalid ≡ false
        → P side (quoted bid ask side)) where
    IsLimited-quote :
        (type : ClientRequestType) (r : ClientRequest)
        → IsQuote client_id (risk_check ticker_cfg k) t bid ask (ticker_cfg t).clip type r
        → IsLimited k t P type r
    IsLimited-quote ClientRequestType.new r h =
        let (le, held, loss) =
          (check_pre_trade_risk-allows (ticker_cfg t).risk_cfg (k t) r.side (ticker_cfg t).clip
              short small).0
            h.2 in
        (
          h.0,
          h.1,
          subst (λ v. P r.side v) (sym h.4)
              (priced r.side (subst (λ v. same_price v price_invalid ≡ false) h.4 h.3)),
          rw h.1 le,
          rw h.1 held,
          loss,
        )
    IsLimited-quote ClientRequestType.cancel r h = h
    IsLimited-quote ClientRequestType.invalid r h = h

    -- What the order manager sends at these prices.
    pub move_orders-IsLimited :
        (m : OrderManager)
        → t < me_max_tickers
        → (m' : OrderManager) × (rs : List ClientRequest) × (move_orders client_id
              (risk_check ticker_cfg k)
              t
              bid
              ask
              (ticker_cfg t).clip
              m
            ≡ done m')
          × (m'.sent ≡ m.sent ++ rs)
          × All (λ r. IsLimited k t P r.type r) rs
    move_orders-IsLimited m known =
        let (m', rs, ok, says, all) =
          move_orders-Quotes client_id (risk_check ticker_cfg k) t bid ask (ticker_cfg t).clip m
            known in
        (m', rs, ok, says, All-map _ _ rs (λ r. IsLimited-quote r.type r) all)

  module _ (b : Bbo) (back_bid back_ask : Bool) where
    pub fits-step_back :
        Fits b
        → IsInt64 (b.bid_price -ℤ step_back back_bid) × IsInt64 (b.ask_price +ℤ step_back back_ask)
    unfolding ◌+ℤ◌ ◌-ℤ◌
    fits-step_back fits = ground (arith, fits.bid, fits.ask, fits.below_bid, fits.above_ask)

    IsPassive-step_back :
        (side : Side)
        → same_price
            (quoted (b.bid_price -ℤ step_back back_bid) (b.ask_price +ℤ step_back back_ask) side)
            price_invalid
          ≡ false
        → IsPassive b side
            (quoted (b.bid_price -ℤ step_back back_bid) (b.ask_price +ℤ step_back back_ask) side)
    unfolding ◌+ℤ◌ ◌-ℤ◌
    IsPassive-step_back Side.buy valid = ground arith
    IsPassive-step_back Side.sell valid = ground arith
    IsPassive-step_back Side.invalid valid = valid

  module _ (k : PositionKeeper R) (t : ℕ) (b : Bbo) (m : OrderManager) (known : t < me_max_tickers)
      (short : (ticker_cfg t).risk_cfg.max_order_size < 2 ^ 31)
      (small : size (k t).position ≤ 2 ^ 31) where
    abbrev pub Asks : (Side → ℤ → Type 0) → Outcome OrderManager → Type 0
    Asks P o =
        (m' : OrderManager) × (rs : List ClientRequest) × (o ≡ done m')
        × (m'.sent ≡ m.sent ++ rs)
        × All (λ r. IsLimited k t P r.type r) rs

    pub Asks-nothing : (P : Side → ℤ → Type 0) → Asks P (done m)
    Asks-nothing P = (m, [], refl, sym (append-nil m.sent), tt)

    found : ltb t me_max_tickers ≡ true
    found = ground (arith, known)

    pub maker-Asks :
        (fair : R)
        → Fits b
        → Asks
            (IsPassive b)
            (maker_on_order_book_update client_id (risk_check ticker_cfg k) ticker_cfg t b fair m)
    unfolding maker_on_order_book_update
    maker-Asks fair fits = elim (Bool-cases (both_valid b && d.differs fair d.nan)) [
      | inl e ↦
          let threshold = (ticker_cfg t).threshold in
          let back_bid = d.at_least (d.sub fair (d.of_int b.bid_price)) threshold in
          let back_ask = d.at_least (d.sub (d.of_int b.ask_price) fair) threshold in
          let (bid_fits, ask_fits) = fits-step_back b back_bid back_ask fits in
          rw (e, found, int64-done _ bid_fits, int64-done _ ask_fits)
            (move_orders-IsLimited k t (IsPassive b) _ _ short small
              (IsPassive-step_back b back_bid back_ask) m known)
      | inr e ↦ rw e (Asks-nothing (IsPassive b))
    ]

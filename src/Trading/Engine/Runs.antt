-- ===== src/Trading/Engine/Runs.antt =====
-- trading/strategy/trade_engine.cpp: the requests of a run of responses, changes of books and trades, as
-- the positions change.
use hft_system.Base.{
  ℕ, ◌+◌, ◌^◌, ◌<◌, ◌≡◌, refl, sym, ap, ◌∙◌, List, [], ◌∷◌, ◌++◌, arith, append-nil, append_assoc,
  Outcome, done, ◌>>=◌,
}
use hft_system.Base.Int.{ℤ, pos, ◌+ℤ◌, +ℤ_assoc, int_laws}
use hft_system.Common.AlgoTypes.{AlgoType}
use hft_system.Common.Ring.{All}
use hft_system.OrderFlow.Server.{ClientRequest}
use hft_system.Trading.OrderManager.Requests.{IsNumbered}
use hft_system.Trading.Doubles.{Doubles}
use hft_system.Trading.Positions.Fills.{size, size-signed_qty}
use hft_system.Trading.Strategies.{TradeEngineCfg}
use hft_system.Trading.Engine.{TradeEngine, risk_check}
use hft_system.Trading.Engine.Events.{
  Event, qty_of, side_of, traded_of, moved_of, IsHandled, on_event,
}
use hft_system.Trading.Engine.Events.Steps.{on_event-Step}

-- The sum of what the events add to the position of an instrument.
abbrev pub net_of : ℕ → List Event → ℤ
net_of t [] = pos 0
net_of t (ev ∷ evs) = moved_of t ev +ℤ net_of t evs

module _ {R : Type 0} ⦃d : Doubles R⦄ (client_id : ℕ) (algo_type : AlgoType)
    (ticker_cfg : ℕ → TradeEngineCfg R) where
  unfoldable pub run : List Event → TradeEngine R → Outcome (TradeEngine R)
  run [] e = done e
  run (ev ∷ evs) e = on_event client_id algo_type ticker_cfg ev e >>= run evs

  -- The states that a run goes through, and the requests that it sends. Those of an event number their new
  -- orders on from the number it found, and passed the risk check on the positions that it leaves.
  pub data Runs : List Event → TradeEngine R → List ClientRequest → TradeEngine R → Type 0 where
    ends : (e : TradeEngine R) → Runs [] e [] e
    event :
        (ev : Event) (evs : List Event) (e e₁ e' : TradeEngine R) (rs rs' : List ClientRequest)
        → on_event client_id algo_type ticker_cfg ev e ≡ done e₁
        → e₁.order_manager.sent ≡ e.order_manager.sent ++ rs
        → IsNumbered client_id
            (risk_check ticker_cfg e₁.position_keeper)
            e.order_manager.next_order_id
            rs
            e₁.order_manager.next_order_id
        → ((t : ℕ)
            → (e₁.position_keeper t).position ≡ (e.position_keeper t).position +ℤ moved_of t ev)
        → Runs evs e₁ rs' e'
        → Runs (ev ∷ evs) e (rs ++ rs') e'

  -- Where each event has an instrument in range and values in 64 bits, and the size of each position stays
  -- below 2 ^ 31 together with all that is filled of its instrument, every run of responses, changes of
  -- books and trades returns, whatever the algorithm. What an event adds to the requests sent are cancels
  -- of this client and new orders, each with the next number, a valid price, and a quantity that the risk
  -- check allowed on the positions at that event; they are sent in the order of the events. A position ends
  -- as the exact sum of what was filled with the sides' signs.
  pub run-IsNumbered :
      (evs : List Event) (e : TradeEngine R)
      → All IsHandled evs
      → ((t : ℕ) → size (e.position_keeper t).position + traded_of t evs < 2 ^ 31)
      → (e' : TradeEngine R) × (rs : List ClientRequest) × (run evs e ≡ done e')
        × (e'.order_manager.sent ≡ e.order_manager.sent ++ rs)
        × Runs evs e rs e'
        × ((t : ℕ)
            → (e'.position_keeper t).position ≡ (e.position_keeper t).position +ℤ net_of t evs)
  unfolding run
  run-IsNumbered [] e handled small =
      (e, [], refl, sym (append-nil e.order_manager.sent), Runs.ends e, λ t. omega (int_laws))
  run-IsNumbered (ev ∷ evs) e handled small =
      let (e₁, ok, step) =
        on_event-Step client_id algo_type ticker_cfg ev e handled.0 (λ t. omega (arith, small t)) in
      let (e', rs', ok', says, runs, moves) = run-IsNumbered evs e₁ handled.1 (λ t. omega (
        arith,
        small t,
        ap size (step.moves t),
        size-signed_qty (e.position_keeper t).position (side_of ev) (qty_of t ev),
      )) in
      let rs = step.asks.requests in
      (
        e',
        rs ++ rs',
        rw ok ok',
        says ∙ ap (λ v. v ++ rs') step.asks.says ∙ append_assoc e.order_manager.sent rs rs',
        Runs.event ev evs e e₁ e' rs rs' ok step.asks.says step.asks.numbered step.moves runs,
        λ t. moves t ∙ rw (step.moves t) (+ℤ_assoc _ _ _),
      )

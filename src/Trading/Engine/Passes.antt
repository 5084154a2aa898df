-- ===== src/Trading/Engine/Passes.antt =====
-- trading/strategy/trade_engine.cpp, `run`: a pass over the two queues.
use hft_system.Base.{◌≡◌, refl, ap, ◌∙◌, [], Outcome, done, exits, undefined, ◌>>=◌, ℕ}
use hft_system.Common.AlgoTypes.{AlgoType}
use hft_system.Common.LfQueue.{LfQueue}
use hft_system.Common.LfQueue.Inv.{IsValid}
use hft_system.Common.LfQueue.Fifo.{contents}
use hft_system.Common.LfQueue.Drain.{each, beside, drain, drain-each}
use hft_system.MarketData.Updates.{MarketUpdate}
use hft_system.OrderFlow.Responses.{ClientResponse}
use hft_system.Trading.Doubles.{Doubles}
use hft_system.Trading.Strategies.{TradeEngineCfg}
use hft_system.Trading.Engine.{
  TradeEngine, engine_on_order_update, engine_on_market_update, run_once,
}

-- A result with the queues that are left.
abbrev pub with_queues :
    {R : Type 0}
    → LfQueue ClientResponse
    → LfQueue MarketUpdate
    → Outcome (TradeEngine R)
    → Outcome (LfQueue ClientResponse × LfQueue MarketUpdate × TradeEngine R)
with_queues rs us (done e) = done (rs, us, e)
with_queues rs us exits = exits
with_queues rs us undefined = undefined

module _ {R : Type 0} (rs : LfQueue ClientResponse) (us : LfQueue MarketUpdate) where
  second_pass :
      (o : Outcome (TradeEngine R))
      → (beside us o >>= λ (w : LfQueue MarketUpdate × TradeEngine R). done (rs, w.0, w.1))
        ≡ with_queues rs us o
  second_pass (done e) = refl
  second_pass exits = refl
  second_pass undefined = refl

  both_passes :
      (o : Outcome (TradeEngine R)) (f : TradeEngine R → Outcome (TradeEngine R))
      (g : TradeEngine R → Outcome (LfQueue MarketUpdate × TradeEngine R))
      → ((e : TradeEngine R) → g e ≡ beside us (f e))
      → (beside rs o >>= λ (r : LfQueue ClientResponse × TradeEngine R).
          g r.1 >>= λ (w : LfQueue MarketUpdate × TradeEngine R). done (r.0, w.0, w.1))
        ≡ with_queues rs us (o >>= f)
  both_passes (done e) f g h =
      ap (λ o. o >>= λ (w : LfQueue MarketUpdate × TradeEngine R). done (rs, w.0, w.1)) (h e)
      ∙ second_pass (f e)
  both_passes exits f g h = refl
  both_passes undefined f g h = refl

module _ {R : Type 0} ⦃d : Doubles R⦄ (client_id : ℕ) (algo_type : AlgoType)
    (ticker_cfg : ℕ → TradeEngineCfg R) where
  -- A pass over two valid queues handles every response in order, then every market update in order, and
  -- where it returns leaves both queues valid and empty.
  run_once-each :
      (rs : LfQueue ClientResponse) (us : LfQueue MarketUpdate) (e : TradeEngine R)
      → IsValid rs
      → IsValid us
      → (rs' : LfQueue ClientResponse) × (us' : LfQueue MarketUpdate) × (contents rs' ≡ [])
        × (contents us' ≡ [])
        × (run_once client_id algo_type ticker_cfg rs us e
            ≡ with_queues rs' us' (
                each (engine_on_order_update client_id algo_type ticker_cfg) (contents rs) e
                >>= each (engine_on_market_update client_id algo_type ticker_cfg) (contents us)))
  unfolding run_once
  run_once-each rs us e v w =
      let (rs', _, empty, handles) =
        drain-each (engine_on_order_update client_id algo_type ticker_cfg) rs v in
      let (us', _, empty', updates) =
        drain-each (engine_on_market_update client_id algo_type ticker_cfg) us w in
      let after : Outcome (TradeEngine R) =
        each (engine_on_order_update client_id algo_type ticker_cfg) (contents rs) e in
      (
        rs',
        us',
        empty,
        empty',
        rw (handles e) (
            both_passes rs' us' after
              (each (engine_on_market_update client_id algo_type ticker_cfg) (contents us))
              (drain (engine_on_market_update client_id algo_type ticker_cfg) us) updates),
      )

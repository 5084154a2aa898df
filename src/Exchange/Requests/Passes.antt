-- ===== src/Exchange/Requests/Passes.antt =====
-- exchange/matcher/matching_engine.h, `run`: the requests that the engine's queue holds.
use hft_system.Base.{ℕ, ◌≡◌, [], Option, Outcome}
use hft_system.Common.LfQueue.{LfQueue}
use hft_system.Common.LfQueue.Inv.{IsValid}
use hft_system.Common.LfQueue.Fifo.{contents}
use hft_system.Common.LfQueue.Drain.{each, beside, drain, drain-each}
use hft_system.OrderFlow.Server.{ClientRequest}
use hft_system.Exchange.MeOrderBook.{MeOrderBook}
use hft_system.Exchange.Requests.{MatchingEngine, process_client_request}

-- The turns of the loop until it finds nothing to read.
unfoldable pub take_requests :
    (ClientRequest → MeOrderBook → Option ℕ)
    → LfQueue ClientRequest
    → MatchingEngine
    → Outcome (LfQueue ClientRequest × MatchingEngine)
take_requests exchange_order incoming_requests e =
    drain (process_client_request exchange_order) incoming_requests e

-- From a valid queue they are processed in order, and the queue is left valid and empty where all return.
take_requests-each :
    (exchange_order : ClientRequest → MeOrderBook → Option ℕ) (q : LfQueue ClientRequest)
    (e : MatchingEngine)
    → IsValid q
    → (q' : LfQueue ClientRequest) × IsValid q'
      × (contents q' ≡ [])
      × (take_requests exchange_order q e
          ≡ beside q' (each (process_client_request exchange_order) (contents q) e))
unfolding take_requests
take_requests-each exchange_order q e v =
    let (q', v', empty, all) = drain-each (process_client_request exchange_order) q v in
    (q', v', empty, all e)

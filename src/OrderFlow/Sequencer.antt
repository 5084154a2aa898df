-- ===== src/OrderFlow/Sequencer.antt =====
-- exchange/order_server/fifo_sequencer.h: the requests that came in are put in the order of their times
-- and written to the matching engine's queue.
pub mod Sorted
use hft_system.Base.{ℕ, Bool, true, false, List, [], ◌∷◌, map, Outcome, done}
use hft_system.Common.LfQueue.{LfQueue}
use hft_system.Common.LfQueue.Each.{write_each}
use hft_system.OrderFlow.Server.{ClientRequest, RecvTimeClientRequest, OrderServer}

-- What the sequencer's calls change: the server with its pending requests, and the queue.
pub record Sequencing : Type 0 where
  pub server : OrderServer
  pub incoming_requests : LfQueue ClientRequest

abbrev pub requests_of : List RecvTimeClientRequest → List ClientRequest
requests_of rs = map (λ (r : RecvTimeClientRequest). r.request) rs

-- `sort` is `std::sort` by `operator<` of `RecvTimeClientRequest`, which may put requests of one time in
-- any order.
module _ (sort : List RecvTimeClientRequest → List RecvTimeClientRequest) where
  abbrev pub publish_sorted : List RecvTimeClientRequest → Sequencing → Sequencing
  publish_sorted [] s = s
  publish_sorted (r ∷ rs) s = record {
    server = record s.server { pending_client_requests = [] };
    incoming_requests = write_each s.incoming_requests (requests_of (sort (r ∷ rs)));
  }

  unfoldable pub sequence_and_publish : Sequencing → Sequencing
  sequence_and_publish s = publish_sorted s.server.pending_client_requests s

  -- `OrderServer::recvFinishedCallback`
  unfoldable pub recv_finished_callback : Sequencing → Sequencing
  recv_finished_callback s = sequence_and_publish s

-- ===== src/OrderFlow/Sending.antt =====
-- trading/order_gw/order_gateway.cpp, `run`: the requests of a client are numbered and sent.
pub mod Delivered
use hft_system.Base.{ℕ, List, [], ◌∷◌, ◌++◌, Outcome, done, ◌>>=◌}
use hft_system.Common.LfQueue.{LfQueue, add_size}
use hft_system.Common.LfQueue.Drain.{drain}
use hft_system.OrderFlow.Server.{ClientRequest, OmClientRequest}

-- The members of `OrderGateway` that requests change, and what its socket has been given. The two `send`
-- calls for a message give the bytes of an `OMClientRequest`.
pub record Outbound : Type 0 where
  pub next_outgoing_seq_num : ℕ
  pub sent : List OmClientRequest

-- The body of the loop.
unfoldable pub send_request : ClientRequest → Outbound → Outcome Outbound
send_request client_request g = done (record {
  next_outgoing_seq_num = add_size g.next_outgoing_seq_num 1;
  sent =
      g.sent
      ++ record { seq_num = g.next_outgoing_seq_num; me_client_request = client_request } ∷ [];
})

-- `for (auto client_request = outgoing_requests_->getNextToRead(); ...)`
unfoldable pub send_requests :
    LfQueue ClientRequest → Outbound → Outcome (LfQueue ClientRequest × Outbound)
send_requests outgoing_requests g = drain send_request outgoing_requests g

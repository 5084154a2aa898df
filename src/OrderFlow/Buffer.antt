-- ===== src/OrderFlow/Buffer.antt =====
-- exchange/order_server/order_server.h and trading/order_gw/order_gateway.cpp, `recvCallback`: the loops
-- over the bytes that a socket has received.
pub mod Pieces
use hft_system.Base.{
  ℕ, zero, suc, ◌≤◌, List, [], leb, if◌then◌else◌, length, take, drop, Outcome, done, undefined,
  ◌>>=◌,
}
use hft_system.OrderFlow.Server.{OmClientRequest, OrderServer, on_request}
use hft_system.OrderFlow.Responses.{OmClientResponse, OrderGateway, on_response}

-- `for (; i + sizeof(M) <= next_rcv_valid_index_; i += sizeof(M))`, on fuel; the bytes from i on are left.
unfoldable pub take_messages {ℓ} :
    {S : Type ℓ} → ℕ → (List ℕ → S → Outcome S) → ℕ → List ℕ → S → Outcome (List ℕ × S)
take_messages size on_message zero bytes s = undefined
take_messages size on_message (suc fuel) bytes s =
    if leb size (length bytes)
    then (on_message (take size bytes) s >>= λ s'.
        take_messages size on_message fuel (drop size bytes) s')
    else done (bytes, s)

-- `inbound` are the valid bytes of the buffer, and the result has those that are moved to its start.
unfoldable pub recv_messages {ℓ} :
    {S : Type ℓ} → ℕ → (List ℕ → S → Outcome S) → List ℕ → S → Outcome (List ℕ × S)
recv_messages size on_message inbound s =
    if leb size (length inbound)
    then take_messages size on_message (suc (length inbound)) inbound s
    else done (inbound, s)

-- The size of a message is what the compiler makes it, and `read` is the cast of its bytes.
module _ (size : ℕ) where
  -- `OrderServer::recvCallback`
  unfoldable pub server_recv_callback :
      (List ℕ → OmClientRequest) → ℕ → ℕ → List ℕ → OrderServer → Outcome (List ℕ × OrderServer)
  server_recv_callback read socket rx_time =
      recv_messages size (λ bytes. on_request socket rx_time (read bytes))

  -- `OrderGateway::recvCallback`
  unfoldable pub gateway_recv_callback :
      (List ℕ → OmClientResponse) → List ℕ → OrderGateway → Outcome (List ℕ × OrderGateway)
  gateway_recv_callback read = recv_messages size (λ bytes g. done (on_response (read bytes) g))

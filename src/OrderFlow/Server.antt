-- ===== src/OrderFlow/Server.antt =====
-- exchange/order_server/order_server.h, `recvCallback`, with the queue of pending requests of
-- fifo_sequencer.h.
pub mod Clients
use hft_system.Base.{
  ℕ, ◌+◌, ◌≡◌, Bool, true, false, not, Option, none, some, List, [], ◌∷◌, ◌++◌, ◌==◌, ltb, leb,
  if◌then◌else◌, length, Outcome, done, exits, undefined, ◌>>=◌,
}
use hft_system.Base.Int.{ℤ}
use hft_system.Common.Types.{Side, me_max_num_clients}
use hft_system.Common.LfQueue.{add_size}

pub data ClientRequestType : Type 0 where
  invalid new cancel : ClientRequestType

-- `MEClientRequest`
pub record ClientRequest : Type 0 where
  pub type : ClientRequestType
  pub client_id : ℕ
  pub ticker_id : ℕ
  pub order_id : ℕ
  pub side : Side
  pub price : ℤ
  pub qty : ℕ

-- `OMClientRequest`
pub record OmClientRequest : Type 0 where
  pub seq_num : ℕ
  pub me_client_request : ClientRequest

abbrev pub me_max_pending_requests : ℕ
me_max_pending_requests = 1024

-- `RecvTimeClientRequest`
pub record RecvTimeClientRequest : Type 0 where
  pub recv_time : ℕ
  pub request : ClientRequest

-- The members of `OrderServer` that requests change. The arrays are functions of the client, and the
-- first `pending_size_` requests of the sequencer are a list.
pub record OrderServer : Type 0 where
  pub cid_next_exp_seq_num : ℕ → ℕ
  pub cid_tcp_socket : ℕ → Option ℕ
  pub pending_client_requests : List RecvTimeClientRequest

abbrev pub assign {ℓ} : {A : Type ℓ} → (ℕ → A) → ℕ → A → ℕ → A
assign f i v j = if j == i then v else f j

-- `FIFOSequencer::addClientRequest`
unfoldable pub add_client_request : ℕ → ClientRequest → OrderServer → Outcome OrderServer
add_client_request rx_time request s =
    if leb me_max_pending_requests (length s.pending_client_requests)
    then exits
    else done (record s {
      pending_client_requests =
          s.pending_client_requests ++ record { recv_time = rx_time; request = request } ∷ [];
    })

-- The socket of a client is that of its first message.
abbrev pub socket_of : Option ℕ → ℕ → ℕ
socket_of none socket = socket
socket_of (some owner) socket = owner

-- The body of the loop in `recvCallback`. A client beyond the arrays is undefined.
unfoldable pub on_request : ℕ → ℕ → OmClientRequest → OrderServer → Outcome OrderServer
on_request socket rx_time request s =
    let client_id = request.me_client_request.client_id in
    let owner = socket_of (s.cid_tcp_socket client_id) socket in
    let s₁ = record s { cid_tcp_socket = assign s.cid_tcp_socket client_id (some owner) } in
    if not (ltb client_id me_max_num_clients)
    then undefined
    else if not (owner == socket)
    then done s₁
    else if not (request.seq_num == s₁.cid_next_exp_seq_num client_id)
    then done s₁
    else add_client_request rx_time request.me_client_request (record s₁ {
      cid_next_exp_seq_num =
          assign s₁.cid_next_exp_seq_num client_id (add_size (s₁.cid_next_exp_seq_num client_id) 1);
    })

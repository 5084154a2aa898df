-- ===== src/OrderFlow/Responses.antt =====
-- exchange/order_server/order_server.h, `run`, and trading/order_gw/order_gateway.cpp, `recvCallback`:
-- responses are numbered for each client, and checked on arrival.
pub mod Delivery
use hft_system.Base.{
  ℕ, ◌+◌, ◌≡◌, Bool, true, false, not, Option, none, some, List, [], ◌∷◌, ◌==◌, ltb, if◌then◌else◌,
  Outcome, done, exits, undefined, ◌>>=◌,
}
use hft_system.Base.Int.{ℤ}
use hft_system.Common.Types.{Side, me_max_num_clients}
use hft_system.Common.LfQueue.{LfQueue, push, add_size}
use hft_system.OrderFlow.Server.{assign}

pub data ClientResponseType : Type 0 where
  invalid accepted canceled filled cancel_rejected : ClientResponseType

-- `MEClientResponse`
pub record ClientResponse : Type 0 where
  pub type : ClientResponseType
  pub client_id : ℕ
  pub ticker_id : ℕ
  pub client_order_id : ℕ
  pub market_order_id : ℕ
  pub side : Side
  pub price : ℤ
  pub exec_qty : ℕ
  pub leaves_qty : ℕ

-- `OMClientResponse`
pub record OmClientResponse : Type 0 where
  pub seq_num : ℕ
  pub me_client_response : ClientResponse

-- The members of `OrderServer` that responses use.
pub record Outgoing : Type 0 where
  pub cid_next_outgoing_seq_num : ℕ → ℕ
  pub cid_tcp_socket : ℕ → Option ℕ

-- The body of the loop in `OrderServer::run`: what is sent, by which socket.
unfoldable pub send_response :
    ClientResponse → Outgoing → Outcome ((ℕ × OmClientResponse) × Outgoing)
send_response r s =
    let next = s.cid_next_outgoing_seq_num r.client_id in
    if not (ltb r.client_id me_max_num_clients)
    then undefined
    else elim (s.cid_tcp_socket r.client_id) [
      | none ↦ exits
      | some socket ↦ done (
        (socket, record { seq_num = next; me_client_response = r }),
        record s {
          cid_next_outgoing_seq_num =
              assign s.cid_next_outgoing_seq_num r.client_id (add_size next 1);
        },
      )
    ]

unfoldable pub send_responses :
    List ClientResponse → Outgoing → Outcome (List (ℕ × OmClientResponse))
send_responses [] s = done []
send_responses (r ∷ rs) s = do
  (m, s') ← send_response r s
  rest ← send_responses rs s'
  done (m ∷ rest)

-- The members of `OrderGateway` that responses change.
pub record OrderGateway : Type 0 where
  pub client_id : ℕ
  pub next_exp_seq_num : ℕ
  pub incoming_responses : LfQueue ClientResponse

-- The body of the loop in `OrderGateway::recvCallback`.
unfoldable pub on_response : OmClientResponse → OrderGateway → OrderGateway
on_response response g =
    if not (response.me_client_response.client_id == g.client_id)
    then g
    else if not (response.seq_num == g.next_exp_seq_num)
    then g
    else record g {
      next_exp_seq_num = add_size g.next_exp_seq_num 1;
      incoming_responses = push g.incoming_responses response.me_client_response;
    }

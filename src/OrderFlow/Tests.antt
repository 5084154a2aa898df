-- ===== src/OrderFlow/Tests.antt =====
-- Two clients, a repeated number and a message on a stranger's socket.
use hft_system.Base.{ℕ, ◌≡◌, refl, none, some, List, [], ◌∷◌, ◌++◌, arith, replicate, done}
use hft_system.Base.Int.{pos}
use hft_system.Common.Types.{Side}
use hft_system.OrderFlow.Responses.{
  ClientResponseType, ClientResponse, OmClientResponse, Outgoing, send_responses, OrderGateway,
}
use hft_system.OrderFlow.Responses.Delivery.{
  on_socket, on_responses, push_each, send_responses-push_each,
}
use hft_system.OrderFlow.Server.{ClientRequestType, OrderServer}
use hft_system.OrderFlow.Server.Clients.{
  Message, on_requests, accepted, pending_of, timed, on_requests-accepted,
}

abbrev message : ℕ → ℕ → ℕ → Message
message client socket seq_num = record {
  socket = socket;
  rx_time = seq_num;
  body = record {
    seq_num = seq_num;
    me_client_request = record {
      type = ClientRequestType.new;
      client_id = client;
      ticker_id = 0;
      order_id = seq_num;
      side = Side.buy;
      price = pos 100;
      qty = 10;
    };
  };
}

abbrev messages : List Message
messages = message 3 7 1 ∷ message 4 8 1 ∷ message 3 7 1 ∷ message 3 8 2 ∷ message 3 7 2 ∷ []

abbrev server : OrderServer
server = record {
  cid_next_exp_seq_num = λ c. 1;
  cid_tcp_socket = λ c. none;
  pending_client_requests = [];
}

accepted_of_three : accepted 3 none 1 messages ≡ timed (message 3 7 1) ∷ timed (message 3 7 2) ∷ []
unfolding accepted
accepted_of_three = refl

on_requests-accepted_example :
    (s' : OrderServer) × (on_requests messages server ≡ done s')
    × ((c : ℕ) → pending_of c s'.pending_client_requests ≡ [] ++ accepted c none 1 messages)
on_requests-accepted_example =
    on_requests-accepted messages server
      (omega arith, (omega arith, (omega arith, (omega arith, (omega arith, tt))))) (omega arith)

abbrev response : ℕ → ℕ → ClientResponse
response client order_id = record {
  type = ClientResponseType.accepted;
  client_id = client;
  ticker_id = 0;
  client_order_id = order_id;
  market_order_id = order_id;
  side = Side.buy;
  price = pos 100;
  exec_qty = 0;
  leaves_qty = 10;
}

abbrev responses : List ClientResponse
responses = response 3 1 ∷ response 4 1 ∷ response 3 2 ∷ []

-- Both clients share a socket.
abbrev outgoing : Outgoing
outgoing = record { cid_next_outgoing_seq_num = λ c. 1; cid_tcp_socket = λ c. some 7 }

abbrev gateway : OrderGateway
gateway = record {
  client_id = 3;
  next_exp_seq_num = 1;
  incoming_responses = record {
    store = replicate 4 (response 0 0);
    next_write_index = 0;
    next_read_index = 0;
    num_elements = 0;
  };
}

send_responses-push_each_example :
    (sent : List (ℕ × OmClientResponse)) × (send_responses responses outgoing ≡ done sent)
    × ((on_responses (on_socket 7 sent) gateway).incoming_responses
        ≡ push_each gateway.incoming_responses (response 3 1 ∷ response 3 2 ∷ []))
send_responses-push_each_example =
    send_responses-push_each responses outgoing gateway 7
      ((omega arith, (_, refl)), ((omega arith, (_, refl)), ((omega arith, (_, refl)), tt))) refl
      refl

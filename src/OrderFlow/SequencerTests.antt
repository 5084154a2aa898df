-- ===== src/OrderFlow/SequencerTests.antt =====
-- A gateway's requests, the bytes that they come in by, and their order in the matching engine's queue.
use mathlib.Core.List.{Perm}
use mathlib.Core.List.Perm
use hft_system.Base.{
  ℕ, ◌≤◌, ◌≡◌, refl, none, List, [], ◌∷◌, ◌++◌, leb, if◌then◌else◌, arith, replicate, get_or, done,
  ◌>>=◌, Bool-cases, inl, inr,
}
use hft_system.Base.Int.{pos}
use hft_system.Common.Types.{Side}
use hft_system.Common.Ring.{All, All-map}
use hft_system.Common.LfQueue.{LfQueue}
use hft_system.Common.LfQueue.Inv.{IsValid}
use hft_system.Common.LfQueue.Fifo.{contents}
use hft_system.OrderFlow.Server.{
  ClientRequestType, ClientRequest, OmClientRequest, RecvTimeClientRequest, OrderServer,
}
use hft_system.OrderFlow.Server.Clients.{Message, on_requests, pending_of}
use hft_system.OrderFlow.Responses.{ClientResponseType, OmClientResponse, OrderGateway}
use hft_system.OrderFlow.Buffer.{server_recv_callback, gateway_recv_callback}
use hft_system.OrderFlow.Buffer.Pieces.{recv_callbacks-append}
use hft_system.OrderFlow.Sequencer.{Sequencing, requests_of, recv_finished_callback}
use hft_system.OrderFlow.Sequencer.Sorted.{Sorts, IsSorted, recv_finished_callback-IsSorted}
use hft_system.OrderFlow.Sending.{Outbound, send_requests}
use hft_system.OrderFlow.Sending.Delivered.{bodies_of, requests_delivered}

abbrev request : ℕ → ℕ → ClientRequest
request client order_id = record {
  type = ClientRequestType.new;
  client_id = client;
  ticker_id = 0;
  order_id = order_id;
  side = Side.buy;
  price = pos 100;
  qty = 10;
}

-- Two slots are in use.
abbrev queue : LfQueue ClientRequest
queue = record {
  store = request 3 1 ∷ request 3 2 ∷ request 0 0 ∷ request 0 0 ∷ request 0 0 ∷ request 0 0 ∷ [];
  next_write_index = 2;
  next_read_index = 0;
  num_elements = 2;
}

queue-IsValid : IsValid queue
queue-IsValid = record {
  small = omega arith;
  read_in = omega arith;
  few = omega arith;
  apart = refl;
}

abbrev server : OrderServer
server = record {
  cid_next_exp_seq_num = λ c. 1;
  cid_tcp_socket = λ c. none;
  pending_client_requests = [];
}

abbrev message : ℕ → ℕ → ℕ → ℕ → Message
message client socket rx_time seq_num = record {
  socket = socket;
  rx_time = rx_time;
  body = record { seq_num = seq_num; me_client_request = request client seq_num };
}

-- The other client's message comes between.
abbrev messages : List Message
messages = message 3 7 20 1 ∷ message 4 8 10 1 ∷ message 3 7 30 2 ∷ []

requests_delivered_example :
    (q' : LfQueue ClientRequest) × (g' : Outbound) × (s' : OrderServer) × (send_requests queue
        (record { next_outgoing_seq_num = 1; sent = [] })
      ≡ done (q', g'))
    × (contents q' ≡ [])
    × (g'.sent ≡ bodies_of 3 messages)
    × (on_requests messages server ≡ done s')
    × (requests_of (pending_of 3 s'.pending_client_requests) ≡ [] ++ contents queue)
requests_delivered_example =
    requests_delivered queue (record { next_outgoing_seq_num = 1; sent = [] }) server 3 7 messages
      queue-IsValid refl refl refl (omega arith, (omega arith, (omega arith, tt)))
      ((λ e. refl), ((λ e. omega (arith, e)), ((λ e. refl), tt))) refl (omega arith)

-- Insertion by time stands for `std::sort`.
abbrev insert : RecvTimeClientRequest → List RecvTimeClientRequest → List RecvTimeClientRequest
insert r [] = r ∷ []
insert r (s ∷ ss) =
    let rest = insert r ss in if leb r.recv_time s.recv_time then r ∷ s ∷ ss else s ∷ rest

abbrev sort : List RecvTimeClientRequest → List RecvTimeClientRequest
sort [] = []
sort (r ∷ rs) = insert r (sort rs)

insert-Perm :
    (r : RecvTimeClientRequest) (rs : List RecvTimeClientRequest) → Perm (insert r rs) (r ∷ rs)
insert-Perm r [] = Perm.rfl
insert-Perm r (s ∷ ss) = elim (Bool-cases (leb r.recv_time s.recv_time)) [
  | inl first ↦ rw first Perm.rfl
  | inr later ↦ rw later (Perm.trans (Perm.cons s (insert-Perm r ss)) (Perm.swap r s ss))
]

insert-All :
    (n : ℕ) (r : RecvTimeClientRequest) (rs : List RecvTimeClientRequest)
    → n ≤ r.recv_time
    → All (λ (s : RecvTimeClientRequest). n ≤ s.recv_time) rs
    → All (λ (s : RecvTimeClientRequest). n ≤ s.recv_time) (insert r rs)
insert-All n r [] h all = (h, tt)
insert-All n r (s ∷ ss) h all = elim (Bool-cases (leb r.recv_time s.recv_time)) [
  | inl first ↦ rw first (h, all)
  | inr later ↦ rw later (all.0, insert-All n r ss h all.1)
]

insert-IsSorted :
    (r : RecvTimeClientRequest) (rs : List RecvTimeClientRequest)
    → IsSorted rs
    → IsSorted (insert r rs)
insert-IsSorted r [] sorted = (tt, tt)
insert-IsSorted r (s ∷ ss) sorted = elim (Bool-cases (leb r.recv_time s.recv_time)) [
  | inl first ↦
      let le : r.recv_time ≤ s.recv_time = ground (arith, first) in
      rw first ((le, All-map _ _ ss (λ t h. omega (arith, le, h)) sorted.0), sorted)
  | inr later ↦
      let ge : s.recv_time ≤ r.recv_time = ground (arith, later) in
      rw later (insert-All s.recv_time r ss ge sorted.0, insert-IsSorted r ss sorted.1)
]

sort-Sorts : Sorts sort
sort-Sorts [] = (Perm.rfl, tt)
sort-Sorts (r ∷ rs) =
    let (same, sorted) = sort-Sorts rs in
    (Perm.trans (insert-Perm r (sort rs)) (Perm.cons r same), insert-IsSorted r (sort rs) sorted)

abbrev timed : ℕ → ℕ → RecvTimeClientRequest
timed rx_time client = record { recv_time = rx_time; request = request client 9 }

abbrev sequencing : Sequencing
sequencing = record {
  server = record server { pending_client_requests = timed 20 3 ∷ timed 10 4 ∷ timed 30 3 ∷ [] };
  incoming_requests = queue;
}

recv_finished_callback-IsSorted_example :
    (xs : List RecvTimeClientRequest) × ((recv_finished_callback sort
        sequencing).server.pending_client_requests
      ≡ [])
    × (contents (recv_finished_callback sort sequencing).incoming_requests
        ≡ contents queue ++ requests_of xs)
    × Perm xs (timed 20 3 ∷ timed 10 4 ∷ timed 30 3 ∷ [])
    × IsSorted xs
recv_finished_callback-IsSorted_example =
    recv_finished_callback-IsSorted sort sequencing sort-Sorts queue-IsValid (omega arith)

-- Messages of three bytes: a number, a client and an order.
abbrev read_request : List ℕ → OmClientRequest
read_request bytes = record {
  seq_num = get_or bytes 0 0;
  me_client_request = request (get_or bytes 1 0) (get_or bytes 2 0);
}

abbrev read_response : List ℕ → OmClientResponse
read_response bytes = record {
  seq_num = get_or bytes 0 0;
  me_client_response = record {
    type = ClientResponseType.accepted;
    client_id = get_or bytes 1 0;
    ticker_id = 0;
    client_order_id = get_or bytes 2 0;
    market_order_id = 5;
    side = Side.buy;
    price = pos 100;
    exec_qty = 0;
    leaves_qty = 10;
  };
}

abbrev gateway : OrderGateway
gateway = record {
  client_id = 3;
  next_exp_seq_num = 1;
  incoming_responses = record {
    store = replicate 4 (read_response []).me_client_response;
    next_write_index = 0;
    next_read_index = 0;
    num_elements = 0;
  };
}

abbrev first_bytes : List ℕ
first_bytes = 1 ∷ 3 ∷ 41 ∷ 2 ∷ []

abbrev more_bytes : List ℕ
more_bytes = 3 ∷ 42 ∷ []

recv_callbacks-append_example :
    (server_recv_callback 3 read_request 7 20 (first_bytes ++ more_bytes) server ≡ (
      server_recv_callback 3 read_request 7 20 first_bytes server >>= λ (r : List ℕ × OrderServer).
      server_recv_callback 3 read_request 7 20 (r.0 ++ more_bytes) r.1))
    × (gateway_recv_callback 3 read_response (first_bytes ++ more_bytes) gateway ≡ (
        gateway_recv_callback 3 read_response first_bytes gateway >>= λ (r : List ℕ × OrderGateway).
        gateway_recv_callback 3 read_response (r.0 ++ more_bytes) r.1))
recv_callbacks-append_example =
    recv_callbacks-append 3 7 20 read_request read_response first_bytes more_bytes server gateway
      (omega arith)

-- ===== src/OrderFlow/Responses/Delivery.antt =====
-- From the order server to the gateway of one client.
use hft_system.Base.{
  ℕ, ◌<◌, ◌≡◌, refl, sym, ap, ◌∙◌, Bool, true, false, Option, some, List, [], ◌∷◌, ◌==◌, ltb,
  if◌then◌else◌, arith, Bool-cases, inl, inr, done,
}
use hft_system.Common.LfQueue.{LfQueue, push, add_size}
use hft_system.Common.Ring.{All}
use hft_system.OrderFlow.Server.{assign}
use hft_system.OrderFlow.Responses.{
  ClientResponse, OmClientResponse, Outgoing, send_response, send_responses, OrderGateway,
  on_response,
}

-- What arrives at the other end of a socket.
abbrev pub on_socket : ℕ → List (ℕ × OmClientResponse) → List OmClientResponse
on_socket k [] = []
on_socket k (m ∷ ms) = if m.0 == k then m.1 ∷ on_socket k ms else on_socket k ms

abbrev pub on_responses : List OmClientResponse → OrderGateway → OrderGateway
on_responses [] g = g
on_responses (r ∷ rs) g = on_responses rs (on_response r g)

abbrev pub responses_of : ℕ → List ClientResponse → List ClientResponse
responses_of c [] = []
responses_of c (r ∷ rs) = if r.client_id == c then r ∷ responses_of c rs else responses_of c rs

abbrev pub push_each : LfQueue ClientResponse → List ClientResponse → LfQueue ClientResponse
push_each q [] = q
push_each q (r ∷ rs) = push_each (push q r) rs

-- The client is in range and connected.
abbrev pub IsConnected : (ℕ → Option ℕ) → ClientResponse → Type 0
IsConnected sockets r = (r.client_id < 256) × ((k : ℕ) × (sockets r.client_id ≡ some k))

-- The server after a response to client `c`.
abbrev sent_one : ℕ → Outgoing → Outgoing
sent_one c s = record s {
  cid_next_outgoing_seq_num =
      assign s.cid_next_outgoing_seq_num c (add_size (s.cid_next_outgoing_seq_num c) 1);
}

send_response_lem :
    (r : ClientResponse) (s : Outgoing) (k : ℕ)
    → r.client_id < 256
    → s.cid_tcp_socket r.client_id ≡ some k
    → send_response r s
      ≡ done (
        (k, record { seq_num = s.cid_next_outgoing_seq_num r.client_id; me_client_response = r }),
        sent_one r.client_id s,
      )
unfolding send_response
send_response_lem r s k known at =
    let in_range : ltb r.client_id 256 ≡ true = ground (arith, known) in rw (in_range, at)

on_response-foreign :
    (m : OmClientResponse) (g : OrderGateway)
    → (m.me_client_response.client_id == g.client_id) ≡ false
    → on_response m g ≡ g
unfolding on_response
on_response-foreign m g h = rw h

on_response-next :
    (m : OmClientResponse) (g : OrderGateway)
    → (m.me_client_response.client_id == g.client_id) ≡ true
    → m.seq_num ≡ g.next_exp_seq_num
    → on_response m g ≡ record g {
      next_exp_seq_num = add_size g.next_exp_seq_num 1;
      incoming_responses = push g.incoming_responses m.me_client_response;
    }
unfolding on_response
on_response-next m g own number =
    let right : (m.seq_num == g.next_exp_seq_num) ≡ true = ground (arith, number) in rw (own, right)

-- A message that the gateway drops, or that goes elsewhere.
not_taken :
    (k₁ k : ℕ) (m : OmClientResponse) (g : OrderGateway) (sent : List (ℕ × OmClientResponse))
    → on_response m g ≡ g
    → (on_responses (on_socket k ((k₁, m) ∷ sent)) g).incoming_responses
      ≡ (on_responses (on_socket k sent) g).incoming_responses
not_taken k₁ k m g sent drops = elim (Bool-cases (k₁ == k)) [
  | inl through ↦
      rw through (ap (λ h. (on_responses (on_socket k sent) h).incoming_responses) drops)
  | inr past ↦ rw past refl
]

-- Every response to a connected client reaches its gateway's queue, in order and once, if both ends
-- agree on the next number, whatever else goes over the socket.
pub send_responses-push_each :
    (rs : List ClientResponse) (s : Outgoing) (g : OrderGateway) (k : ℕ)
    → All (IsConnected s.cid_tcp_socket) rs
    → s.cid_tcp_socket g.client_id ≡ some k
    → s.cid_next_outgoing_seq_num g.client_id ≡ g.next_exp_seq_num
    → (sent : List (ℕ × OmClientResponse)) × (send_responses rs s ≡ done sent)
      × ((on_responses (on_socket k sent) g).incoming_responses
          ≡ push_each g.incoming_responses (responses_of g.client_id rs))
unfolding send_responses
send_responses-push_each [] s g k known at agree = ([], refl, refl)
send_responses-push_each (r ∷ rs) s g k known at agree =
    let (here, (k₁, at₁)) = known.0 in
    let one = send_response_lem r s k₁ here at₁ in
    let m : OmClientResponse = record {
      seq_num = s.cid_next_outgoing_seq_num r.client_id;
      me_client_response = r;
    } in
    elim (Bool-cases (r.client_id == g.client_id)) [
      | inl mine ↦
          let same : r.client_id ≡ g.client_id = ground (arith, mine) in
          let number : m.seq_num ≡ g.next_exp_seq_num =
            ap s.cid_next_outgoing_seq_num same ∙ agree in
          let socket : k₁ ≡ k = ground (arith, at₁, at, ap s.cid_tcp_socket same) in
          let through : (k₁ == k) ≡ true = ground (arith, socket) in
          let moved : (sent_one r.client_id s).cid_next_outgoing_seq_num g.client_id
              ≡ add_size g.next_exp_seq_num 1 =
            let here : (g.client_id == r.client_id) ≡ true = ground (arith, same) in
            rw here (ap (λ n. add_size n 1) number) in
          let g₁ : OrderGateway = record g {
            next_exp_seq_num = add_size g.next_exp_seq_num 1;
            incoming_responses = push g.incoming_responses r;
          } in
          let (sent, ok, delivered) =
            send_responses-push_each rs (sent_one r.client_id s) g₁ k known.1 at moved in
          (
            (k₁, m) ∷ sent,
            rw (one, ok),
            ap
                  (λ (b : Bool).
                    (on_responses (if b then m ∷ on_socket k sent else on_socket k sent)
                      g).incoming_responses)
                  through
                ∙ ap (λ h. (on_responses (on_socket k sent) h).incoming_responses)
                    (on_response-next m g mine number)
                ∙ delivered
                ∙ sym (
                    ap
                      (λ (b : Bool). push_each g.incoming_responses (
                        if b then r ∷ responses_of g.client_id rs else responses_of g.client_id rs))
                      mine),
          )
      | inr other ↦
          let kept : (sent_one r.client_id s).cid_next_outgoing_seq_num g.client_id
              ≡ g.next_exp_seq_num =
            ground (arith, other, agree) in
          let (sent, ok, delivered) =
            send_responses-push_each rs (sent_one r.client_id s) g k known.1 at kept in
          (
            (k₁, m) ∷ sent,
            rw (one, ok),
            not_taken k₁ k m g sent (on_response-foreign m g other)
                ∙ delivered
                ∙ sym (
                    ap
                      (λ (b : Bool). push_each g.incoming_responses (
                        if b then r ∷ responses_of g.client_id rs else responses_of g.client_id rs))
                      other),
          )
    ]

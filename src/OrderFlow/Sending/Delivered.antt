-- ===== src/OrderFlow/Sending/Delivered.antt =====
-- trading/order_gw/order_gateway.cpp, `run`, with exchange/order_server/order_server.h, `recvCallback`:
-- what a client's gateway sends is what the server takes of that client.
use mathlib.Core.List.{cons≢nil, head-eq_of_cons-eq, tail-eq_of_cons-eq}
use hft_system.Base.{
  ℕ, ◌+◌, ◌≤◌, ◌<◌, ◌≡◌, refl, sym, ap, ap₂, ◌∙◌, subst, Option, some, List, [], ◌∷◌, ◌++◌,
  append-nil, append_assoc, arith, ◌==◌, if◌then◌else◌, length, Bool-cases, inl, inr, done,
}
use hft_system.Common.LfQueue.{LfQueue, add_size}
use hft_system.Common.LfQueue.Inv.{IsValid}
use hft_system.Common.LfQueue.Fifo.{contents}
use hft_system.Common.LfQueue.Drain.{each, beside, drain-each}
use hft_system.Common.Ring.{All}
use hft_system.OrderFlow.Server.{
  ClientRequest, OmClientRequest, RecvTimeClientRequest, OrderServer, socket_of,
}
use hft_system.OrderFlow.Server.Clients.{
  Message, client_of, timed, on_requests, accepted, accepted-other, accepted-taken, pending_of,
  on_requests-accepted,
}
use hft_system.OrderFlow.Sequencer.{requests_of}
use hft_system.OrderFlow.Sending.{Outbound, send_request, send_requests}

-- Requests under their numbers, from `n` on.
abbrev pub numbered : ℕ → List ClientRequest → List OmClientRequest
numbered n [] = []
numbered n (r ∷ rs) = record { seq_num = n; me_client_request = r } ∷ numbered (add_size n 1) rs

-- What arrives of a client.
abbrev pub bodies_of : ℕ → List Message → List OmClientRequest
bodies_of c [] = []
bodies_of c (m ∷ ms) = if c == client_of m then m.body ∷ bodies_of c ms else bodies_of c ms

-- Messages of a client come by one socket.
abbrev pub Comes : ℕ → ℕ → Message → Type 0
Comes c socket m = (client_of m ≡ c) → m.socket ≡ socket

sends_each :
    (rs : List ClientRequest) (g : Outbound)
    → (g' : Outbound) × (each send_request rs g ≡ done g')
      × (g'.sent ≡ g.sent ++ numbered g.next_outgoing_seq_num rs)
unfolding send_request
sends_each [] g = (g, refl, sym (append-nil g.sent))
sends_each (r ∷ rs) g =
    let one : Outbound = record {
      next_outgoing_seq_num = add_size g.next_outgoing_seq_num 1;
      sent = g.sent ++ record { seq_num = g.next_outgoing_seq_num; me_client_request = r } ∷ [];
    } in
    let (g', ok, says) = sends_each rs one in
    (
      g',
      ok,
      says
          ∙ append_assoc g.sent
              (record { seq_num = g.next_outgoing_seq_num; me_client_request = r } ∷ [])
              (numbered one.next_outgoing_seq_num rs),
    )

accepted-here :
    (c : ℕ) (owner : Option ℕ) (next : ℕ) (m : Message) (ms : List Message)
    → client_of m ≡ c
    → socket_of owner m.socket ≡ m.socket
    → m.body.seq_num ≡ next
    → accepted c owner next (m ∷ ms)
      ≡ timed m ∷ accepted c (some (socket_of owner m.socket)) (add_size next 1) ms
accepted-here c owner next m ms here own number =
    subst
      (λ v.
        accepted v owner next (m ∷ ms)
        ≡ timed m ∷ accepted v (some (socket_of owner m.socket)) (add_size next 1) ms)
      here (accepted-taken owner next m ms (ground (arith, own)) (ground (arith, number)))

numbered-head :
    (next : ℕ) (b : OmClientRequest) (bs : List OmClientRequest) (rs : List ClientRequest)
    → b ∷ bs ≡ numbered next rs
    → (r : ClientRequest) × (ss : List ClientRequest) × (rs ≡ r ∷ ss)
      × (b.seq_num ≡ next)
      × (b.me_client_request ≡ r)
      × (bs ≡ numbered (add_size next 1) ss)
numbered-head next b bs [] e = absurd (cons≢nil e)
numbered-head next b bs (r ∷ rs) e =
    let same = head-eq_of_cons-eq e in
    (
      r,
      rs,
      refl,
      ap (λ (v : OmClientRequest). v.seq_num) same,
      ap (λ (v : OmClientRequest). v.me_client_request) same,
      tail-eq_of_cons-eq e,
    )

-- Numbered messages of a client, from its own socket, are all taken.
accepted-numbered :
    (c k : ℕ) (owner : Option ℕ) (next : ℕ) (ms : List Message) (rs : List ClientRequest)
    → socket_of owner k ≡ k
    → All (Comes c k) ms
    → bodies_of c ms ≡ numbered next rs
    → requests_of (accepted c owner next ms) ≡ rs
unfolding accepted
accepted-numbered c k owner next [] [] own comes e = refl
accepted-numbered c k owner next [] (r ∷ rs) own comes e = absurd (cons≢nil (sym e))
accepted-numbered c k owner next (m ∷ ms) rs own comes e = elim (Bool-cases (c == client_of m)) [
  | inr other ↦
      ap requests_of (accepted-other c owner next m ms other)
      ∙ accepted-numbered c k owner next ms rs own comes.1 (rw other at e)
  | inl mine ↦
      let (r, ss, whole, number, body, tail) =
        numbered-head next m.body (bodies_of c ms) rs (rw mine at e) in
      let here : client_of m ≡ c = ground (arith, mine) in
      let by : m.socket ≡ k = comes.0 here in
      let owned : socket_of owner m.socket ≡ m.socket = ap (socket_of owner) by ∙ own ∙ sym by in
      let held : Option ℕ = some (socket_of owner m.socket) in
      ap requests_of (accepted-here c owner next m ms here owned number)
      ∙ ap₂ ◌∷◌ body (accepted-numbered c k held (add_size next 1) ms ss (owned ∙ by) comes.1 tail)
      ∙ sym whole
]

requests_of-append :
    (xs ys : List RecvTimeClientRequest) → requests_of (xs ++ ys) ≡ requests_of xs ++ requests_of ys
requests_of-append [] ys = refl
requests_of-append (x ∷ xs) ys = ap (◌∷◌ x.request) (requests_of-append xs ys)

-- A gateway that has sent nothing yet empties a valid queue, and sends what it holds in order. If the
-- server expects the number that the gateway starts from, all messages are of clients in range and those
-- of this client are what the gateway sent, by a socket that the server has for the client or for no one,
-- and there is room for all messages, then the server returns, and it has taken every request of the
-- queue, once and in order, after what was pending of the client.
pub requests_delivered :
    (q : LfQueue ClientRequest) (g : Outbound) (s : OrderServer) (c k : ℕ) (ms : List Message)
    → IsValid q
    → g.sent ≡ []
    → s.cid_next_exp_seq_num c ≡ g.next_outgoing_seq_num
    → socket_of (s.cid_tcp_socket c) k ≡ k
    → All (λ (m : Message). client_of m < 256) ms
    → All (Comes c k) ms
    → bodies_of c ms ≡ numbered g.next_outgoing_seq_num (contents q)
    → length s.pending_client_requests + length ms ≤ 1024
    → (q' : LfQueue ClientRequest) × (g' : Outbound) × (s' : OrderServer) × (send_requests q g
        ≡ done (q', g'))
      × (contents q' ≡ [])
      × (g'.sent ≡ bodies_of c ms)
      × (on_requests ms s ≡ done s')
      × (requests_of (pending_of c s'.pending_client_requests)
          ≡ requests_of (pending_of c s.pending_client_requests) ++ contents q)
unfolding send_requests
requests_delivered q g s c k ms valid fresh number owner known comes arrives room =
    let (q', _, empty, drains) = drain-each send_request q valid in
    let (g', ok, says) = sends_each (contents q) g in
    let (s', taken, all) = on_requests-accepted ms s known room in
    let own = pending_of c s.pending_client_requests in
    let news = accepted c (s.cid_tcp_socket c) (s.cid_next_exp_seq_num c) ms in
    let every : requests_of news ≡ contents q =
      accepted-numbered c k (s.cid_tcp_socket c) (s.cid_next_exp_seq_num c) ms (contents q) owner
        comes (arrives ∙ ap (λ n. numbered n (contents q)) (sym number)) in
    (
      q',
      g',
      s',
      drains g ∙ ap (beside q') ok,
      empty,
      says ∙ ap (λ v. v ++ numbered g.next_outgoing_seq_num (contents q)) fresh ∙ sym arrives,
      taken,
      ap requests_of (all c) ∙ requests_of-append own news ∙ ap (λ v. requests_of own ++ v) every,
    )

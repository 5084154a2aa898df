-- ===== src/OrderFlow/Server/Clients.antt =====
-- exchange/order_server/order_server.h: what the server takes of one client's messages does not depend
-- on the other clients.
use hft_system.Base.{
  ℕ, ◌+◌, ◌≤◌, ◌<◌, ◌≡◌, refl, sym, ap, ◌∙◌, subst, true, false, ◌&&◌, Option, some, List, [], ◌∷◌,
  ◌++◌, append-nil, append_assoc, ◌==◌, ltb, leb, if◌then◌else◌, arith, length, length-append,
  Bool-cases, inl, inr, Outcome, done, ◌>>=◌,
}
use hft_system.Common.LfQueue.{add_size}
use hft_system.Common.Ring.{All}
use hft_system.OrderFlow.Server.{
  OmClientRequest, RecvTimeClientRequest, OrderServer, assign, socket_of, add_client_request,
  on_request,
}

-- A message with the socket and the time that it came in by.
pub record Message : Type 0 where
  pub socket : ℕ
  pub rx_time : ℕ
  pub body : OmClientRequest

abbrev pub client_of : Message → ℕ
client_of m = m.body.me_client_request.client_id

abbrev pub timed : Message → RecvTimeClientRequest
timed m = record { recv_time = m.rx_time; request = m.body.me_client_request }

abbrev pub on_requests : List Message → OrderServer → Outcome OrderServer
on_requests [] s = done s
on_requests (m ∷ ms) s = on_request m.socket m.rx_time m.body s >>= λ s'. on_requests ms s'

-- One client alone: from its own socket, and numbered without a gap from `next` on.
unfoldable pub accepted : ℕ → Option ℕ → ℕ → List Message → List RecvTimeClientRequest
accepted c owner next [] = []
accepted c owner next (m ∷ ms) =
    let held = some (socket_of owner m.socket) in
    let taken = timed m ∷ accepted c held (add_size next 1) ms in
    let refused = accepted c held next ms in
    let others = accepted c owner next ms in
    if c == client_of m
    then if socket_of owner m.socket == m.socket
      then if m.body.seq_num == next then taken else refused
      else refused
    else others

-- The pending requests of a client.
abbrev pub pending_of : ℕ → List RecvTimeClientRequest → List RecvTimeClientRequest
pending_of c [] = []
pending_of c (r ∷ rs) = if c == r.request.client_id then r ∷ pending_of c rs else pending_of c rs

pending_of-append :
    (c : ℕ) (xs ys : List RecvTimeClientRequest)
    → pending_of c (xs ++ ys) ≡ pending_of c xs ++ pending_of c ys
pending_of-append c [] ys = refl
pending_of-append c (x ∷ xs) ys = elim (Bool-cases (c == x.request.client_id)) [
  | inl mine ↦ rw mine (ap (◌∷◌ x) (pending_of-append c xs ys))
  | inr other ↦ rw other (pending_of-append c xs ys)
]

-- What a server has taken of a client, and will take of these messages.
abbrev pub total : ℕ → OrderServer → List Message → List RecvTimeClientRequest
total c s ms =
    pending_of c s.pending_client_requests
    ++ accepted c (s.cid_tcp_socket c) (s.cid_next_exp_seq_num c) ms

pub accepted-other :
    (c : ℕ) (owner : Option ℕ) (next : ℕ) (m : Message) (ms : List Message)
    → (c == client_of m) ≡ false
    → accepted c owner next (m ∷ ms) ≡ accepted c owner next ms
unfolding accepted
accepted-other c owner next m ms h = rw h

accepted-refused :
    (owner : Option ℕ) (next : ℕ) (m : Message) (ms : List Message)
    → (socket_of owner m.socket == m.socket) && (m.body.seq_num == next) ≡ false
    → accepted (client_of m) owner next (m ∷ ms)
      ≡ accepted (client_of m) (some (socket_of owner m.socket)) next ms
unfolding accepted
accepted-refused owner next m ms h =
    let same : (client_of m == client_of m) ≡ true = ground arith in
    elim (Bool-cases (socket_of owner m.socket == m.socket)) [
      | inl own ↦ elim (Bool-cases (m.body.seq_num == next)) [
        | inl right ↦ absurd (ground (arith, h, own, right))
        | inr wrong ↦ rw (same, own, wrong)
      ]
      | inr foreign ↦ rw (same, foreign)
    ]

pub accepted-taken :
    (owner : Option ℕ) (next : ℕ) (m : Message) (ms : List Message)
    → (socket_of owner m.socket == m.socket) ≡ true
    → (m.body.seq_num == next) ≡ true
    → accepted (client_of m) owner next (m ∷ ms)
      ≡ timed m ∷ accepted (client_of m) (some (socket_of owner m.socket)) (add_size next 1) ms
unfolding accepted
accepted-taken owner next m ms own right =
    let same : (client_of m == client_of m) ≡ true = ground arith in rw (same, own, right)

-- What one message does to a server with room for it.
record Steps (m : Message) (s s' : OrderServer) : Type 0 where
  ok : on_request m.socket m.rx_time m.body s ≡ done s'
  room : length s'.pending_client_requests ≤ length s.pending_client_requests + 1
  mine : (c : ℕ) (ms : List Message) → total c s' ms ≡ total c s (m ∷ ms)

module _ (m : Message) (s : OrderServer) (known : client_of m < 256) where
  in_range : ltb (client_of m) 256 ≡ true
  in_range = ground (arith, known)

  abbrev owner : ℕ
  owner = socket_of (s.cid_tcp_socket (client_of m)) m.socket

  abbrev claimed : OrderServer
  claimed = record s { cid_tcp_socket = assign s.cid_tcp_socket (client_of m) (some owner) }

  refuse :
      (owner == m.socket) && (m.body.seq_num == s.cid_next_exp_seq_num (client_of m)) ≡ false
      → (s' : OrderServer) × Steps m s s'
  unfolding on_request
  refuse not_taken = (
    claimed,
    record {
      ok = elim (Bool-cases (owner == m.socket)) [
        | inl own ↦ elim (Bool-cases (m.body.seq_num == s.cid_next_exp_seq_num (client_of m))) [
          | inl right ↦ absurd (ground (arith, not_taken, own, right))
          | inr wrong ↦ rw (in_range, own, wrong)
        ]
        | inr foreign ↦ rw (in_range, foreign)
      ];
      room = omega arith;
      mine = λ c ms. elim (Bool-cases (c == client_of m)) [
        | inl here ↦
            let at : client_of m ≡ c = ground (arith, here) in
            subst (λ d. total d claimed ms ≡ total d s (m ∷ ms)) at
              (let same : (client_of m == client_of m) ≡ true = ground arith in
                rw same (
                  ap (λ us. pending_of (client_of m) s.pending_client_requests ++ us)
                    (sym (
                      accepted-refused (s.cid_tcp_socket (client_of m))
                        (s.cid_next_exp_seq_num (client_of m)) m ms not_taken))))
        | inr there ↦ rw there (
            ap (λ us. pending_of c s.pending_client_requests ++ us)
              (sym (accepted-other c (s.cid_tcp_socket c) (s.cid_next_exp_seq_num c) m ms there)))
      ];
    },
  )

  abbrev advanced : OrderServer
  advanced = record claimed {
    cid_next_exp_seq_num =
        assign s.cid_next_exp_seq_num (client_of m)
          (add_size (s.cid_next_exp_seq_num (client_of m)) 1);
    pending_client_requests = s.pending_client_requests ++ timed m ∷ [];
  }

  take_in :
      (owner == m.socket) ≡ true
      → (m.body.seq_num == s.cid_next_exp_seq_num (client_of m)) ≡ true
      → length s.pending_client_requests < 1024
      → (s' : OrderServer) × Steps m s s'
  unfolding on_request add_client_request
  take_in own right space =
      let free : leb 1024 (length s.pending_client_requests) ≡ false = ground (arith, space) in
      (
        advanced,
        record {
          ok = rw (in_range, own, right, free);
          room = omega (arith, length-append s.pending_client_requests (timed m ∷ []));
          mine = λ c ms. elim (Bool-cases (c == client_of m)) [
            | inl here ↦
                let at : client_of m ≡ c = ground (arith, here) in
                subst (λ d. total d advanced ms ≡ total d s (m ∷ ms)) at
                  (let same : (client_of m == client_of m) ≡ true = ground arith in
                    let split =
                      pending_of-append (client_of m) s.pending_client_requests (timed m ∷ []) in
                    let rest =
                      accepted (client_of m) (some owner)
                        (add_size (s.cid_next_exp_seq_num (client_of m)) 1) ms in
                    rw
                      (
                        split,
                        same,
                        append_assoc (pending_of (client_of m) s.pending_client_requests)
                            (timed m ∷ []) rest,
                      )
                      (ap (λ us. pending_of (client_of m) s.pending_client_requests ++ us)
                        (sym (
                          accepted-taken (s.cid_tcp_socket (client_of m))
                            (s.cid_next_exp_seq_num (client_of m)) m ms own right))))
            | inr there ↦
                let split = pending_of-append c s.pending_client_requests (timed m ∷ []) in
                rw (split, there, append-nil (pending_of c s.pending_client_requests))
                  (ap (λ us. pending_of c s.pending_client_requests ++ us)
                    (sym (
                      accepted-other c (s.cid_tcp_socket c) (s.cid_next_exp_seq_num c) m ms there)))
          ];
        },
      )

  on_request-Steps : length s.pending_client_requests < 1024 → (s' : OrderServer) × Steps m s s'
  on_request-Steps space = elim (Bool-cases (owner == m.socket)) [
    | inl own ↦ elim (Bool-cases (m.body.seq_num == s.cid_next_exp_seq_num (client_of m))) [
      | inl right ↦ take_in own right space
      | inr wrong ↦ refuse (rw (own, wrong))
    ]
    | inr foreign ↦ refuse (rw foreign)
  ]

-- From clients in range, and with room for every message, the server takes of each client what that
-- client alone would have it take, in order, whatever the other clients send.
pub on_requests-accepted :
    (ms : List Message) (s : OrderServer)
    → All (λ (m : Message). client_of m < 256) ms
    → length s.pending_client_requests + length ms ≤ 1024
    → (s' : OrderServer) × (on_requests ms s ≡ done s')
      × ((c : ℕ)
          → pending_of c s'.pending_client_requests
            ≡ pending_of c s.pending_client_requests
              ++ accepted c (s.cid_tcp_socket c) (s.cid_next_exp_seq_num c) ms)
unfolding accepted
on_requests-accepted [] s known room =
    (s, refl, λ c. sym (append-nil (pending_of c s.pending_client_requests)))
on_requests-accepted (m ∷ ms) s known room =
    let (s₁, step) = on_request-Steps m s known.0 (omega arith) in
    let more = step.room in
    let (s', ok, each) = on_requests-accepted ms s₁ known.1 (omega arith) in
    (s', ap (λ o. o >>= λ t. on_requests ms t) step.ok ∙ ok, λ c. each c ∙ step.mine c ms)

-- ===== src/OrderFlow/Buffer/Pieces.antt =====
-- The loops over a socket's bytes: what a callback does depends on the bytes, not on how they are cut.
use hft_system.Base.{
  ℕ, zero, suc, ◌≤◌, ◌<◌, ◌≡◌, refl, sym, ap, ◌∙◌, true, false, List, [], ◌∷◌, ◌++◌, arith, leb,
  length, length-append, length-drop, take, drop, Bool-cases, inl, inr, Outcome, done, exits,
  undefined, ◌>>=◌,
}
use hft_system.OrderFlow.Server.{OmClientRequest, OrderServer, on_request}
use hft_system.OrderFlow.Responses.{OmClientResponse, OrderGateway, on_response}
use hft_system.OrderFlow.Buffer.{
  take_messages, recv_messages, server_recv_callback, gateway_recv_callback,
}

module _ {ℓ} {A : Type ℓ} where
  take-append : (n : ℕ) (xs ys : List A) → n ≤ length xs → take n (xs ++ ys) ≡ take n xs
  take-append zero xs ys h = refl
  take-append (suc n) [] ys h = absurd (omega arith)
  take-append (suc n) (x ∷ xs) ys h = ap (◌∷◌ x) (take-append n xs ys (omega arith))

  drop-append : (n : ℕ) (xs ys : List A) → n ≤ length xs → drop n (xs ++ ys) ≡ drop n xs ++ ys
  drop-append zero xs ys h = refl
  drop-append (suc n) [] ys h = absurd (omega arith)
  drop-append (suc n) (x ∷ xs) ys h = drop-append n xs ys (omega arith)

-- A first step that is the same on both sides.
bind_congr {ℓ κ} :
    {A : Type ℓ} {B : Type κ} (m : Outcome A) (f g : A → Outcome B)
    → ((a : A) → f a ≡ g a)
    → (m >>= f) ≡ (m >>= g)
bind_congr (done a) f g h = h a
bind_congr exits f g h = refl
bind_congr undefined f g h = refl

bind_assoc {ℓ κ μ} :
    {A : Type ℓ} {B : Type κ} {C : Type μ} (m : Outcome A) (f : A → Outcome B) (g : B → Outcome C)
    → (m >>= f >>= g) ≡ (m >>= λ a. f a >>= g)
bind_assoc (done a) f g = refl
bind_assoc exits f g = refl
bind_assoc undefined f g = refl

module _ {ℓ} {S : Type ℓ} (size : ℕ) (on_message : List ℕ → S → Outcome S)
    (some_bytes : 0 < size) where
  -- Fuel above the number of bytes is enough, and more changes nothing.
  take_messages-fuel :
      (fuel more : ℕ) (bytes : List ℕ) (s : S)
      → length bytes < fuel
      → length bytes < more
      → take_messages size on_message fuel bytes s ≡ take_messages size on_message more bytes s
  unfolding take_messages
  take_messages-fuel zero more bytes s h k = absurd (omega arith)
  take_messages-fuel (suc fuel) zero bytes s h k = absurd (omega arith)
  take_messages-fuel (suc fuel) (suc more) bytes s h k =
      elim (Bool-cases (leb size (length bytes))) [
        | inl whole ↦
            let fits : size ≤ length bytes = ground (arith, whole) in
            rw whole (
              bind_congr (on_message (take size bytes) s) _ _ (λ s'.
                take_messages-fuel fuel more (drop size bytes) s'
                  (omega (arith, length-drop size bytes)) (omega (arith, length-drop size bytes))))
        | inr part ↦ rw part refl
      ]

  take_messages-whole :
      (fuel : ℕ) (bytes : List ℕ) (s : S)
      → size ≤ length bytes
      → take_messages size on_message (suc fuel) bytes s ≡ (
          on_message (take size bytes) s >>= λ s'.
          take_messages size on_message fuel (drop size bytes) s')
  unfolding take_messages
  take_messages-whole fuel bytes s fits =
      let whole : leb size (length bytes) ≡ true = ground (arith, fits) in rw whole refl

  take_messages-part :
      (fuel : ℕ) (bytes : List ℕ) (s : S)
      → length bytes < size
      → take_messages size on_message (suc fuel) bytes s ≡ done (bytes, s)
  unfolding take_messages
  take_messages-part fuel bytes s few =
      let part : leb size (length bytes) ≡ false = ground (arith, few) in rw part refl

  -- The rest of the run on what is left and more bytes.
  abbrev and_then : List ℕ → List ℕ × S → Outcome (List ℕ × S)
  and_then ys r = take_messages size on_message (suc (length (r.0 ++ ys))) (r.0 ++ ys) r.1

  take_messages-append :
      (fuel : ℕ) (xs ys : List ℕ) (s : S)
      → length xs < fuel
      → take_messages size on_message (suc (length (xs ++ ys))) (xs ++ ys) s
        ≡ (take_messages size on_message fuel xs s >>= and_then ys)
  take_messages-append zero xs ys s h = absurd (omega arith)
  take_messages-append (suc fuel) xs ys s h = elim (Bool-cases (leb size (length xs))) [
    | inl whole ↦
        let fits : size ≤ length xs = ground (arith, whole) in
        let both = length-append xs ys in
        let rest = drop size xs in
        let shorter = length-drop size xs in
        let longer = length-append rest ys in
        take_messages-whole (length (xs ++ ys)) (xs ++ ys) s (omega (arith, both))
        ∙ rw (take-append size xs ys fits, drop-append size xs ys fits) refl
        ∙ bind_congr (on_message (take size xs) s)
            (λ s'. take_messages size on_message (length (xs ++ ys)) (rest ++ ys) s')
            (λ s'. take_messages size on_message fuel rest s' >>= and_then ys)
            (λ s'.
              take_messages-fuel (length (xs ++ ys)) (suc (length (rest ++ ys))) (rest ++ ys) s'
                (omega (arith, both, longer, shorter)) (omega arith)
              ∙ take_messages-append fuel rest ys s' (omega (arith, shorter)))
        ∙ sym (
            bind_assoc (on_message (take size xs) s)
              (λ s'. take_messages size on_message fuel rest s') (and_then ys))
        ∙ ap (λ o. o >>= and_then ys) (sym (take_messages-whole fuel xs s fits))
    | inr part ↦
        ap (λ o. o >>= and_then ys) (sym (take_messages-part fuel xs s (ground (arith, part))))
  ]

  recv_messages-eq :
      (bytes : List ℕ) (s : S)
      → recv_messages size on_message bytes s
        ≡ take_messages size on_message (suc (length bytes)) bytes s
  unfolding recv_messages
  recv_messages-eq bytes s = elim (Bool-cases (leb size (length bytes))) [
    | inl whole ↦ rw whole refl
    | inr part ↦ rw part (sym (take_messages-part (length bytes) bytes s (ground (arith, part))))
  ]

  pub recv_messages-append :
      (xs ys : List ℕ) (s : S)
      → recv_messages size on_message (xs ++ ys) s ≡ (
          recv_messages size on_message xs s >>= λ (r : List ℕ × S).
          recv_messages size on_message (r.0 ++ ys) r.1)
  recv_messages-append xs ys s =
      recv_messages-eq (xs ++ ys) s
      ∙ take_messages-append (suc (length xs)) xs ys s (omega arith)
      ∙ ap (λ o. o >>= and_then ys) (sym (recv_messages-eq xs s))
      ∙ bind_congr (recv_messages size on_message xs s) _ _
          (λ (r : List ℕ × S). sym (recv_messages-eq (r.0 ++ ys) r.1))

-- With messages of at least one byte, bytes that come in two pieces are handled as they are in one: the
-- second callback goes on with what the first has left and the new bytes. The server's two pieces have
-- the same time.
pub recv_callbacks-append :
    (size socket rx_time : ℕ) (read_request : List ℕ → OmClientRequest)
    (read_response : List ℕ → OmClientResponse) (xs ys : List ℕ) (s : OrderServer)
    (g : OrderGateway)
    → 0 < size
    → (server_recv_callback size read_request socket rx_time (xs ++ ys) s ≡ (
        server_recv_callback size read_request socket rx_time xs s >>= λ (r : List ℕ × OrderServer).
        server_recv_callback size read_request socket rx_time (r.0 ++ ys) r.1))
      × (gateway_recv_callback size read_response (xs ++ ys) g ≡ (
          gateway_recv_callback size read_response xs g >>= λ (r : List ℕ × OrderGateway).
          gateway_recv_callback size read_response (r.0 ++ ys) r.1))
unfolding server_recv_callback gateway_recv_callback
recv_callbacks-append size socket rx_time read_request read_response xs ys s g some_bytes = (
  recv_messages-append size (λ bytes. on_request socket rx_time (read_request bytes)) some_bytes xs
      ys s,
  recv_messages-append size (λ bytes h. done (on_response (read_response bytes) h)) some_bytes xs ys
      g,
)

-- ===== src/Exchange/Matching/Steps.antt =====
-- exchange/matcher/me_order_book.cpp, `checkForMatch`: the fills of an incoming order as steps on the
-- queues that it faces. Each takes the oldest order at the best price.
use hft_system.Base.{
  ℕ, ◌+◌, ◌-◌, ◌≤◌, ◌<◌, ◌≡◌, ◌⊎◌, inl, inr, refl, Bool, true, false, List, [], ◌∷◌, ◌++◌, arith,
  if◌then◌else◌,
}
use hft_system.Base.Int.{ℤ}
use hft_system.OrderBook.Orders.Queues.{Item, Queue}
use hft_system.OrderBook.Orders.Apart.{changed}
use hft_system.Exchange.MeOrderBook.{MeOrder, Sent}
use hft_system.Exchange.Matching.{
  Taker, set_qty, filled_taker, filled_order, traded, exhausted, reduced, out_of_reach,
}

-- What both branches of `match` send.
abbrev pub fill_messages : Taker → MeOrder → ℕ → ℕ → ℕ → Sent → List Sent
fill_messages t o fill_qty left rest final =
    Sent.response (filled_taker t o fill_qty left)
    ∷ Sent.response (filled_order t o fill_qty rest)
    ∷ Sent.update (traded t o fill_qty)
    ∷ final
    ∷ []

-- The messages of a fill that exhausts the resting order, and of one that it outlasts.
abbrev pub whole : Taker → MeOrder → ℕ → List Sent
whole t o leaves_qty =
    fill_messages t o o.qty (leaves_qty - o.qty) 0 (Sent.update (exhausted t o o.qty))

abbrev pub part : Taker → MeOrder → ℕ → List Sent
part t o leaves_qty =
    fill_messages t o leaves_qty 0 (o.qty - leaves_qty)
      (Sent.update (reduced t o (o.qty - leaves_qty)))

-- The queues without the oldest order of the first, `ts` being those behind it.
abbrev pub popped :
    Queue MeOrder → List (Item MeOrder) → List (Queue MeOrder) → List (Queue MeOrder)
popped q [] qs = qs
popped q (t ∷ ts) qs = record q { head = t; tail = ts } ∷ qs

-- From a quantity and the queues it faces, over what is sent, to what is left of both.
pub data Matches (t : Taker) (price : ℤ)
    : ℕ → List (Queue MeOrder) → List Sent → ℕ → List (Queue MeOrder) → Type 0 where
  complete : (qs : List (Queue MeOrder)) → Matches t price 0 qs [] 0 qs
  empty : (leaves_qty : ℕ) → Matches t price leaves_qty [] [] leaves_qty []
  beyond :
      (leaves_qty : ℕ) (q : Queue MeOrder) (qs : List (Queue MeOrder))
      → out_of_reach t.side price q.price ≡ true
      → Matches t price leaves_qty (q ∷ qs) [] leaves_qty (q ∷ qs)
  partly :
      (leaves_qty : ℕ) (q : Queue MeOrder) (qs : List (Queue MeOrder))
      → 0 < leaves_qty
      → out_of_reach t.side price q.price ≡ false
      → leaves_qty < q.head.order.qty
      → Matches t price leaves_qty
          (q ∷ qs)
          (part t q.head.order leaves_qty)
          0
          (record q { head = changed (set_qty (q.head.order.qty - leaves_qty)) q.head } ∷ qs)
  wholly :
      (leaves_qty : ℕ) (q : Queue MeOrder) (qs : List (Queue MeOrder)) (sent : List Sent) (left : ℕ)
      (rest : List (Queue MeOrder))
      → 0 < leaves_qty
      → out_of_reach t.side price q.price ≡ false
      → q.head.order.qty ≤ leaves_qty
      → Matches t price (leaves_qty - q.head.order.qty) (popped q q.tail qs) sent left rest
      → Matches t price leaves_qty (q ∷ qs) (whole t q.head.order leaves_qty ++ sent) left rest

abbrev pub quantity : List (Item MeOrder) → ℕ
quantity [] = 0
quantity (x ∷ xs) = x.order.qty + quantity xs

abbrev pub depth : List (Queue MeOrder) → ℕ
depth [] = 0
depth (q ∷ qs) = q.head.order.qty + quantity q.tail + depth qs

depth-popped :
    (q : Queue MeOrder) (ts : List (Item MeOrder)) (qs : List (Queue MeOrder))
    → quantity ts + depth qs ≡ depth (popped q ts qs)
depth-popped q [] qs = omega arith
depth-popped q (t ∷ ts) qs = omega arith

-- The incoming order loses what the resting ones lose.
pub Matches-depth :
    (t : Taker) (price : ℤ) (leaves_qty left : ℕ) (qs rest : List (Queue MeOrder))
    (sent : List Sent)
    → Matches t price leaves_qty qs sent left rest
    → leaves_qty + depth rest ≡ left + depth qs
Matches-depth t price _ _ _ _ _ (Matches.complete qs) = refl
Matches-depth t price _ _ _ _ _ (Matches.empty leaves_qty) = refl
Matches-depth t price _ _ _ _ _ (Matches.beyond leaves_qty q qs far) = refl
Matches-depth t price _ _ _ _ _ (Matches.partly leaves_qty q qs some near less) = omega arith
Matches-depth t price _ _ _ _ _
      (Matches.wholly leaves_qty q qs sent left rest some near less steps) =
    let ih = Matches-depth t price _ _ _ _ _ steps in
    let step = depth-popped q q.tail qs in omega arith

-- What is in reach of a price.
abbrev pub crosses : Taker → ℤ → List (Queue MeOrder) → Bool
crosses t price [] = false
crosses t price (q ∷ qs) = if out_of_reach t.side price q.price then false else true

-- The fills end with the order complete, or with nothing in its reach.
pub Matches-ends :
    (t : Taker) (price : ℤ) (leaves_qty left : ℕ) (qs rest : List (Queue MeOrder))
    (sent : List Sent)
    → Matches t price leaves_qty qs sent left rest
    → (left ≡ 0) ⊎ (crosses t price rest ≡ false)
Matches-ends t price _ _ _ _ _ (Matches.complete qs) = inl refl
Matches-ends t price _ _ _ _ _ (Matches.empty leaves_qty) = inr refl
Matches-ends t price _ _ _ _ _ (Matches.beyond leaves_qty q qs far) = inr (rw far)
Matches-ends t price _ _ _ _ _ (Matches.partly leaves_qty q qs some near less) = inl refl
Matches-ends t price _ _ _ _ _
      (Matches.wholly leaves_qty q qs sent left rest some near less steps) =
    Matches-ends t price _ _ _ _ _ steps

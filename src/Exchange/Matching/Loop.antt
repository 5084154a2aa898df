-- ===== src/Exchange/Matching/Loop.antt =====
-- exchange/matcher/me_order_book.cpp, `checkForMatch`: the loop ends, and its turns are the fills.
use hft_system.Base.{
  ℕ, zero, suc, ◌+◌, ◌-◌, ◌≤◌, ◌<◌, ◌≡◌, ◌≢◌, refl, sym, ap, ◌∙◌, subst, true, false, List, [], ◌∷◌,
  ◌++◌, ◌==◌, arith, if◌then◌else◌, append-nil, append_assoc, Outcome, done, ◌>>=◌, Bool-cases, inl,
  inr, length, ltb,
}
use hft_system.Base.Int.{ℤ}
use hft_system.Common.Types.{Side}
use hft_system.Common.MemPool.Access.{load-live}
use hft_system.OrderBook.Levels.{best_of}
use hft_system.OrderBook.Levels.Rows.{opposite, heads}
use hft_system.OrderBook.Orders.{Book}
use hft_system.OrderBook.Orders.Queues.{Item, Queue, rows, IsOrderBook}
use hft_system.OrderBook.Orders.Sides.{opposite-valid}
use hft_system.Exchange.MeOrderBook.{MeOrder, me_order_node, client_order, MeOrderBook, Sent}
use hft_system.Exchange.Matching.{Taker, match_order, facing, out_of_reach, match_loop}
use hft_system.Exchange.Matching.Steps.{whole, part, popped, Matches, crosses}
use hft_system.Exchange.Matching.Fill.{resting, Fills, match_order-whole, match_order-part}

-- The number of orders of a side.
abbrev pub count : List (Queue MeOrder) → ℕ
count [] = 0
count (q ∷ qs) = suc (length q.tail) + count qs

count-popped :
    (q : Queue MeOrder) (ts : List (Item MeOrder)) (qs : List (Queue MeOrder))
    → count (popped q ts qs) ≡ length ts + count qs
count-popped q [] qs = omega arith
count-popped q (t ∷ ts) qs = refl

facing_lem :
    (side : Side) (b : Book MeOrder (ℕ × ℕ)) (mine theirs : List (Queue MeOrder))
    → side ≢ Side.invalid
    → IsOrderBook b (opposite side) mine theirs
    → facing side b ≡ heads (rows mine)
unfolding best_of
facing_lem Side.buy b mine theirs sided h = h.levels.head
facing_lem Side.sell b mine theirs sided h = h.levels.head
facing_lem Side.invalid b mine theirs sided h = absurd (sided refl)

-- What a run of the loop comes to.
pub record Matched (t : Taker) (price : ℤ) (leaves_qty : ℕ) (m : MeOrderBook)
    (mine theirs : List (Queue MeOrder)) (run : Outcome (ℕ × MeOrderBook)) : Type 0 where
  pub left : ℕ
  pub after : MeOrderBook
  pub rest : List (Queue MeOrder)
  pub sent : List Sent
  pub returns : run ≡ done (left, after)
  pub steps : Matches t price leaves_qty mine sent left rest
  pub fills : Fills m after (opposite t.side) rest theirs sent

module _ (t : Taker) (price : ℤ) (theirs : List (Queue MeOrder))
    (sided : t.side ≢ Side.invalid) where
  stays :
      (m : MeOrderBook) (mine : List (Queue MeOrder))
      → IsOrderBook m.book (opposite t.side) mine theirs
      → Fills m m (opposite t.side) mine theirs []
  stays m mine h = record { book = h; says = sym (append-nil m.sent); next_kept = refl }

  joined :
      (m m₁ m₂ : MeOrderBook) (mine rest : List (Queue MeOrder)) (s₁ s₂ : List Sent)
      → Fills m m₁ (opposite t.side) mine theirs s₁
      → Fills m₁ m₂ (opposite t.side) rest theirs s₂
      → Fills m m₂ (opposite t.side) rest theirs (s₁ ++ s₂)
  joined m m₁ m₂ mine rest s₁ s₂ f g = record {
    book = g.book;
    says = g.says ∙ ap (λ v. v ++ s₂) f.says ∙ append_assoc m.sent s₁ s₂;
    next_kept = g.next_kept ∙ f.next_kept;
  }

  -- One turn of the loop.
  turn :
      (fuel leaves_qty : ℕ) (m : MeOrderBook) (q : Queue MeOrder) (qs : List (Queue MeOrder))
      → (leaves_qty == 0) ≡ false
      → IsOrderBook m.book (opposite t.side) (q ∷ qs) theirs
      → match_loop (suc fuel) t price leaves_qty m ≡ (
          if out_of_reach t.side price q.price
          then done (leaves_qty, m)
          else (match_order t q.head.at leaves_qty m >>= λ r. match_loop fuel t price r.0 r.1))
  unfolding match_loop
  turn fuel leaves_qty m q qs more h =
      let (l, level, _, _, heads) = h.levels.laid.levels.0 in
      let item = h.queues.0.items.0 in
      let r = resting m.book.order_pool m.book.oid_to_order (opposite t.side) q.price q.head item in
      let cost : r.order.price ≡ q.price = ap (λ (o : MeOrder). o.price) r.same ∙ item.2 in
      rw (
        more,
        facing_lem t.side m.book (q ∷ qs) theirs sided h,
        load-live m.book.levels.pool q.at level,
        heads,
        load-live m.book.order_pool q.head.at r.at,
        cost,
      )

  empty_lem :
      (fuel leaves_qty : ℕ) (m : MeOrderBook)
      → (leaves_qty == 0) ≡ false
      → IsOrderBook m.book (opposite t.side) [] theirs
      → match_loop (suc fuel) t price leaves_qty m ≡ done (leaves_qty, m)
  unfolding match_loop
  empty_lem fuel leaves_qty m more h = rw (more, facing_lem t.side m.book [] theirs sided h)

  ended : (fuel : ℕ) (m : MeOrderBook) → 0 < fuel → match_loop fuel t price 0 m ≡ done (0, m)
  unfolding match_loop
  ended zero m h = absurd (omega arith)
  ended (suc fuel) m h = refl

  -- Nothing in reach ends the loop at once.
  pub match_loop_idle :
      (fuel leaves_qty : ℕ) (m : MeOrderBook) (mine : List (Queue MeOrder))
      → (leaves_qty == 0) ≡ false
      → crosses t price mine ≡ false
      → IsOrderBook m.book (opposite t.side) mine theirs
      → match_loop (suc fuel) t price leaves_qty m ≡ done (leaves_qty, m)
  match_loop_idle fuel leaves_qty m [] more far h = empty_lem fuel leaves_qty m more h
  match_loop_idle fuel leaves_qty m (q ∷ qs) more far h =
      elim (Bool-cases (out_of_reach t.side price q.price)) [
        | inl out ↦ turn fuel leaves_qty m q qs more h ∙ rw out
        | inr near ↦ absurd (ground (arith, near, far))
      ]

  complete_lem :
      (fuel leaves_qty : ℕ) (m : MeOrderBook) (mine : List (Queue MeOrder))
      → (leaves_qty == 0) ≡ true
      → IsOrderBook m.book (opposite t.side) mine theirs
      → Matched t price leaves_qty m mine theirs (match_loop (suc fuel) t price leaves_qty m)
  unfolding match_loop
  complete_lem fuel leaves_qty m mine finished h =
      let same : leaves_qty ≡ 0 = ground (arith, finished) in
      record {
        left = 0;
        after = m;
        rest = mine;
        sent = [];
        returns = rw finished (ap (λ v. done (v, m)) same);
        steps = subst (λ v. Matches t price v mine [] 0 mine) (sym same) (Matches.complete mine);
        fills = stays m mine h;
      }

  -- A turn whose order is filled against the first one of the queues.
  fill_lem :
      (fuel leaves_qty : ℕ) (m : MeOrderBook) (q : Queue MeOrder) (qs : List (Queue MeOrder))
      → ((m' : MeOrderBook)
          → IsOrderBook m'.book (opposite t.side) (popped q q.tail qs) theirs
          → Matched t price
              (leaves_qty - q.head.order.qty)
              m'
              (popped q q.tail qs)
              theirs
              (match_loop fuel t price (leaves_qty - q.head.order.qty) m'))
      → 0 < fuel
      → (leaves_qty == 0) ≡ false
      → out_of_reach t.side price q.price ≡ false
      → IsOrderBook m.book (opposite t.side) (q ∷ qs) theirs
      → Matched t price leaves_qty m (q ∷ qs) theirs (match_loop (suc fuel) t price leaves_qty m)
  fill_lem fuel leaves_qty m q qs goes_on enough more near h =
      let side = opposite t.side in
      let valid = opposite-valid t.side sided in
      let begun = turn fuel leaves_qty m q qs more h in
      let something : 0 < leaves_qty = ground (arith, more) in
      elim (Bool-cases (ltb leaves_qty q.head.order.qty)) [
        | inl outlasts ↦
            let less : leaves_qty < q.head.order.qty = ground (arith, outlasts) in
            let (m', ok, f) = match_order-part t m side q qs theirs leaves_qty valid h less in
            record {
              left = 0;
              after = m';
              rest = _;
              sent = part t q.head.order leaves_qty;
              returns = begun ∙ rw (near, ok) (ended fuel m' enough);
              steps = Matches.partly leaves_qty q qs something near less;
              fills = f;
            }
        | inr exhausts ↦
            let less : q.head.order.qty ≤ leaves_qty = ground (arith, exhausts) in
            let (m', ok, f) = match_order-whole t m side q qs theirs leaves_qty valid h less in
            let r = goes_on m' f.book in
            record {
              left = r.left;
              after = r.after;
              rest = r.rest;
              sent = whole t q.head.order leaves_qty ++ r.sent;
              returns = begun ∙ rw (near, ok) r.returns;
              steps =
                  Matches.wholly leaves_qty q qs r.sent r.left r.rest something near less r.steps;
              fills =
                  joined m m' r.after _ r.rest (whole t q.head.order leaves_qty) r.sent f r.fills;
            }
      ]

  pub match_loop-Matched :
      (fuel leaves_qty : ℕ) (m : MeOrderBook) (mine : List (Queue MeOrder))
      → count mine < fuel
      → IsOrderBook m.book (opposite t.side) mine theirs
      → Matched t price leaves_qty m mine theirs (match_loop fuel t price leaves_qty m)
  match_loop-Matched zero leaves_qty m mine enough h = absurd (omega arith)
  match_loop-Matched (suc fuel) leaves_qty m [] enough h = elim (Bool-cases (leaves_qty == 0)) [
    | inl finished ↦ complete_lem fuel leaves_qty m [] finished h
    | inr more ↦ record {
      left = leaves_qty;
      after = m;
      rest = [];
      sent = [];
      returns = empty_lem fuel leaves_qty m more h;
      steps = Matches.empty leaves_qty;
      fills = stays m [] h;
    }
  ]
  match_loop-Matched (suc fuel) leaves_qty m (q ∷ qs) enough h =
      elim (Bool-cases (leaves_qty == 0)) [
        | inl finished ↦ complete_lem fuel leaves_qty m (q ∷ qs) finished h
        | inr more ↦ elim (Bool-cases (out_of_reach t.side price q.price)) [
          | inl far ↦ record {
            left = leaves_qty;
            after = m;
            rest = q ∷ qs;
            sent = [];
            returns = turn fuel leaves_qty m q qs more h ∙ rw far;
            steps = Matches.beyond leaves_qty q qs far;
            fills = stays m (q ∷ qs) h;
          }
          | inr near ↦
              let shorter = count-popped q q.tail qs in
              fill_lem fuel leaves_qty m q qs
                (λ m' h'.
                  match_loop-Matched fuel (leaves_qty - q.head.order.qty) m' (popped q q.tail qs)
                    (omega arith) h')
                (omega arith) more near h
        ]
      ]

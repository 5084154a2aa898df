-- ===== src/OrderBook/Orders/Joining.antt =====
-- trading/strategy/market_order_book.h, `addOrder`: what the order's place in the ring means for the
-- queues.
use hft_system.Base.{
  ℕ, ◌≡◌, ◌≢◌, sym, ap, ◌∙◌, subst, Bool, true, Option, none, some, List, [], ◌∷◌, ◌++◌, arith,
  Bool-cases, inl, inr, done,
}
use hft_system.Base.Int.{ℤ}
use hft_system.Common.Types.{Side}
use hft_system.Common.MemPool.{MemPool, live}
use hft_system.Common.Node.{Node, next_at, prev_at, payload_at, link_last, link_self, read_payload}
use hft_system.Common.Node.Writes.{Edits}
use hft_system.Common.Node.Linking.{link_last-Inserts, link_self_lem}
use hft_system.Common.Ring.{All, Distinct, Ring, Chain-end, last, last-All, All-append}
use hft_system.Common.Ring.Edit.{Ring-insert_first, Distinct-rotate}
use hft_system.OrderBook.Orders.{BookOrder, entered}
use hft_system.OrderBook.Orders.Queues.{Item, Queue, spots, IsItem, IsQueue, Spares, Elsewhere}
use hft_system.OrderBook.Orders.Links.{spots-append}

pub entered_here :
    {K : Type 0} (same : K → K → Bool) (oids : K → Option ℕ) (k : K) (v : Option ℕ)
    → same k k ≡ true
    → entered same oids k v k ≡ v
entered_here same oids k v h = rw h

module _ {T K : Type 0} ⦃node : Node T⦄ ⦃order : BookOrder T K node⦄ where
  -- No order at a level is the same as one elsewhere.
  pub apart-Elsewhere :
      (p : MemPool T) (oids : K → Option ℕ) (side : Side) (price : ℤ) (xs : List (Item T)) (j : ℕ)
      (t : T)
      → All (IsItem p oids side price) xs
      → payload_at p j ≡ some t
      → Elsewhere (order.side t) (order.price t) side price
      → All (λ y. j ≢ y) (spots xs)
  apart-Elsewhere p oids side price [] j t h at off = tt
  apart-Elsewhere p oids side price (x ∷ xs) j t h at off = (
    (λ e.
        let same : t ≡ x.order = ground (arith, at, h.0.0, ap (payload_at p) e) in
        off (ap order.side same ∙ h.0.1, ap order.price same ∙ h.0.2)),
    apart-Elsewhere p oids side price xs j t h.1 at off,
  )

  module _ (p : MemPool T) (oids : K → Option ℕ) (o : T) (i : ℕ) (at : live p i ≡ some o)
      (fresh : oids (order.key o) ≡ none) (ranged : order.in_range (order.key o) ≡ true) where
    abbrev pub joiner : Item T
    joiner = record { at = i; order = node.payload o }

    payload_i : payload_at p i ≡ some (node.payload o)
    payload_i = ap read_payload at

    -- An order that the array does not know is in no queue.
    pub fresh_apart :
        (side : Side) (price : ℤ) (xs : List (Item T))
        → All (IsItem p oids side price) xs
        → All (λ y. i ≢ y) (spots xs)
    fresh_apart side price [] h = tt
    fresh_apart side price (x ∷ xs) h = (
      (λ e.
          let same : node.payload o ≡ x.order =
            ground (arith, payload_i, h.0.0, ap (payload_at p) e) in
          let key : order.key o ≡ order.key x.order =
            sym (order.key-payload o) ∙ ap order.key same in
          let found : oids (order.key o) ≡ some x.at = ap oids key ∙ h.0.3 in
          ground (arith, fresh, found)),
      fresh_apart side price xs h.1,
    )

    -- What the array knows, it still knows.
    known_kept :
        (t : T) (j : ℕ)
        → oids (order.key t) ≡ some j
        → entered order.same oids (order.key o) (some i) (order.key t) ≡ some j
    known_kept t j h = elim (Bool-cases (order.same (order.key t) (order.key o))) [
      | inl same ↦
          let eq : oids (order.key t) ≡ oids (order.key o) =
            ap oids (order.same-eq (order.key t) (order.key o) same) in
          absurd (ground (arith, eq, fresh, h))
      | inr other ↦ rw other h
    ]

    module _ (p' : MemPool T) (e : Edits p p') where
      items_after :
          (side : Side) (price : ℤ) (xs : List (Item T))
          → All (IsItem p oids side price) xs
          → All (IsItem p' (entered order.same oids (order.key o) (some i)) side price) xs
      items_after side price [] h = tt
      items_after side price (x ∷ xs) h = (
        (e.payloads x.at ∙ h.0.0, h.0.1, h.0.2, known_kept x.order x.at h.0.3, h.0.4),
        items_after side price xs h.1,
      )

      joiner_after :
          IsItem p'
            (entered order.same oids (order.key o) (some i))
            (order.side o)
            (order.price o)
            joiner
      joiner_after = (
        e.payloads i ∙ payload_i,
        order.side-payload o,
        order.price-payload o,
        ap (entered order.same oids (order.key o) (some i)) (order.key-payload o)
            ∙ entered_here order.same oids (order.key o) (some i) (order.same-refl (order.key o)),
        ap order.in_range (order.key-payload o) ∙ ranged,
      )

      -- Only the orders `i ∷ spots xs` may change.
      Spares-outside :
          (xs : List (Item T))
          → All (IsItem p oids (order.side o) (order.price o)) xs
          → ((j : ℕ)
              → All (λ y. j ≢ y) (i ∷ spots xs)
              → (next_at p' j ≡ next_at p j) × (prev_at p' j ≡ prev_at p j))
          → Spares p p' oids
              (entered order.same oids (order.key o) (some i))
              (order.side o)
              (order.price o)
      Spares-outside xs h outside =
          let off =
            λ (j : ℕ) (t : T)
                (away : Elsewhere (order.side t) (order.price t) (order.side o) (order.price o))
                (here : payload_at p j ≡ some t).
              outside j (
                (λ e'.
                    let same : t ≡ node.payload o =
                      ground (arith, here, payload_i, ap (payload_at p) e') in
                    away (
                      ap order.side same ∙ order.side-payload o,
                      ap order.price same ∙ order.price-payload o,
                    )),
                apart-Elsewhere p oids (order.side o) (order.price o) xs j t h here away,
              ) in
          record {
            payloads = λ j t away here. e.payloads j ∙ here;
            nexts = λ j t away here. (off j t away here).0;
            prevs = λ j t away here. (off j t away here).1;
            known = λ j t away here found. known_kept t j found;
          }

    -- The order takes its place behind the last of its level.
    pub join_behind :
        (q : Queue T)
        → IsQueue p oids (order.side o) q
        → q.price ≡ order.price o
        → (p' : MemPool T) × (link_last q.head.at i p ≡ done p')
          × Edits p p'
          × IsQueue p'
              (entered order.same oids (order.key o) (some i))
              (order.side o)
              (record q { tail = q.tail ++ joiner ∷ [] })
          × Spares p p' oids
              (entered order.same oids (order.key o) (some i))
              (order.side o)
              (order.price o)
    join_behind q h same_price =
        let items =
          subst (λ v. All (IsItem p oids (order.side o) v) (q.head ∷ q.tail)) same_price h.items in
        let off = fresh_apart (order.side o) (order.price o) (q.head ∷ q.tail) items in
        let x = q.head.at in
        let xs = spots q.tail in
        let l = last x xs in
        let end = Chain-end (next_at p) (prev_at p) x xs x h.threaded in
        let not_l : i ≢ l = last-All (λ y. i ≢ y) x xs off.0 off.1 in
        let (p', ok, e, ins) =
          link_last-Inserts p x l i (o, at) (λ e'. off.0 (sym e')) (λ e'. not_l (sym e')) end.1
            end.0 in
        let grows = spots-append q.tail (joiner ∷ []) in
        let distinct : Distinct (x ∷ xs ++ i ∷ []) =
          Distinct-rotate (i ∷ []) (x ∷ xs) (off, h.distinct) in
        (
          p',
          ok,
          e,
          record {
            threaded =
                subst (λ zs. Ring (next_at p') (prev_at p') x zs) (sym grows)
                  (Ring-insert_first (next_at p) (prev_at p) (next_at p') (prev_at p') x xs i
                    (off, h.distinct) ins h.threaded);
            distinct = subst (λ zs. Distinct (x ∷ zs)) (sym grows) distinct;
            items =
                subst
                  (λ v.
                    All
                      (IsItem p' (entered order.same oids (order.key o) (some i)) (order.side o) v)
                      (q.head ∷ q.tail ++ joiner ∷ []))
                  (sym same_price)
                  (All-append
                    (IsItem p' (entered order.same oids (order.key o) (some i)) (order.side o)
                      (order.price o))
                    (q.head ∷ q.tail) (joiner ∷ [])
                    (items_after p' e (order.side o) (order.price o) (q.head ∷ q.tail) items)
                    (joiner_after p' e, tt));
          },
          Spares-outside p' e (q.head ∷ q.tail) items (λ j ne. (
            ins.next_other j (last-All (λ y. j ≢ y) x xs ne.1.0 ne.1.1) ne.0,
            ins.prev_other j ne.1.0 ne.0,
          )),
        )

    -- The order is a level's only one.
    pub join_alone :
        (level : ℕ)
        → (p' : MemPool T) × (link_self i p ≡ done p')
          × Edits p p'
          × IsQueue p'
              (entered order.same oids (order.key o) (some i))
              (order.side o)
              (record { at = level; price = order.price o; head = joiner; tail = [] })
          × Spares p p' oids
              (entered order.same oids (order.key o) (some i))
              (order.side o)
              (order.price o)
    join_alone level =
        let (p', ok, e, same, n, v) = link_self_lem p i (o, at) in
        (
          p',
          ok,
          e,
          record { threaded = (n, v); distinct = (tt, tt); items = (joiner_after p' e, tt) },
          Spares-outside p' e [] tt (λ j ne. (same.nexts j ne.0, same.prevs j ne.0)),
        )

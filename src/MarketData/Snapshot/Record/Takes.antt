-- ===== src/MarketData/Snapshot/Record/Takes.antt =====
-- exchange/market_data/snapshot_synthesizer.cpp, `addToSnapshot`: each type of update.
use hft_system.Base.{
  ℕ, ◌<◌, ◌≡◌, ◌≢◌, refl, sym, ap, ◌∙◌, subst, true, false, Option, none, some, List, ◌==◌, arith,
  if◌then◌else◌, length, get_elem?, ge-length, Option-cases, Bool-cases, inl, inr, Outcome, done,
}
use hft_system.Common.LfQueue.{add_size}
use hft_system.Common.MemPool.{live}
use hft_system.Common.MemPool.Access.{
  HasSpare, load-live, modify-Wrote, Wrote-Untouched, allocate-Untouched, deallocate-Untouched,
}
use hft_system.MarketData.Updates.{MarketUpdateType, MarketUpdate, MdpMarketUpdate}
use hft_system.MarketData.Snapshot.{Synthesizer}
use hft_system.MarketData.Snapshot.Record.{
  same_side, set_entry, take_add, find_order, modified, take_modify, take_cancel, take_update,
  add_to_snapshot,
}
use hft_system.MarketData.Snapshot.Record.Held.{
  entry, row_at, pointer, behind, held, here, IsSnapshot, effect, Fits, pointer-set_entry, Rewrites,
  Rewrites-IsSnapshot, Rewrites-held,
}

-- What taking in an update comes to.
record Takes (s : Synthesizer) (u : MarketUpdate) (o : Option MarketUpdate)
    (run : Outcome Synthesizer) : Type 0 where
  after : Synthesizer
  returns : run ≡ done after
  seq_kept : after.last_inc_seq_num ≡ s.last_inc_seq_num
  valid : IsSnapshot after
  holds : (t i : ℕ) → held after t i ≡ (if here u t i then o else held s t i)

module _ (s : Synthesizer) (u : MarketUpdate) (orders : List (Option ℕ)) (h : IsSnapshot s)
    (at : get_elem? s.ticker_orders u.ticker_id ≡ some orders)
    (inside : u.order_id < length orders) where
  rewritten :
      (s' : Synthesizer) (v : Option ℕ) (o : Option MarketUpdate) (run : Outcome Synthesizer)
      → run ≡ done s'
      → s'.last_inc_seq_num ≡ s.last_inc_seq_num
      → Rewrites s s' u v o
      → Takes s u o run
  rewritten s' v o run ok same r = record {
    after = s';
    returns = ok;
    seq_kept = same;
    valid = Rewrites-IsSnapshot s s' u v o h r;
    holds = Rewrites-held s s' u v o h r;
  }

  named_entry :
      (w : Option ℕ) → pointer s u.ticker_id u.order_id ≡ w → get_elem? orders u.order_id ≡ some w
  named_entry w e = elim (Option-cases (get_elem? orders u.order_id)) [
    | inl out ↦ absurd (omega (arith, ge-length orders u.order_id out))
    | inr (w', got) ↦
        got ∙ ap some (sym (ap entry got) ∙ sym (ap (λ r. row_at r u.order_id) at) ∙ e)
  ]

  -- The pointer to an order held.
  place :
      (x : MarketUpdate)
      → held s u.ticker_id u.order_id ≡ some x
      → (j : ℕ) × (pointer s u.ticker_id u.order_id ≡ some j) × (live s.order_pool j ≡ some x)
  place x e = elim (Option-cases (pointer s u.ticker_id u.order_id)) [
    | inl gone ↦ absurd (ground (arith, e, ap (behind s.order_pool) gone))
    | inr (j, p) ↦ (j, p, sym (ap (behind s.order_pool) p) ∙ e)
  ]

  no_place : held s u.ticker_id u.order_id ≡ none → pointer s u.ticker_id u.order_id ≡ none
  no_place e = elim (Option-cases (pointer s u.ticker_id u.order_id)) [
    | inl gone ↦ gone
    | inr (j, p) ↦
        let (x, in_use, _) = h.points u.ticker_id u.order_id j p in
        absurd (ground (arith, e, ap (behind s.order_pool) p, in_use))
  ]

  here_refl : (t i : ℕ) → here u t i ≡ true → pointer s t i ≡ pointer s u.ticker_id u.order_id
  here_refl t i e =
      let first : t ≡ u.ticker_id = ground (arith, e) in
      let second : i ≡ u.order_id = ground (arith, e) in
      ap (λ k. pointer s k i) first ∙ ap (λ k. pointer s u.ticker_id k) second

  -- Other pointers lead elsewhere.
  elsewhere :
      (j : ℕ)
      → pointer s u.ticker_id u.order_id ≡ some j
      → (t i k : ℕ) → here u t i ≡ false
      → pointer s t i ≡ some k
      → k ≢ j
  elsewhere j p t i k e q same =
      let (first, second) = h.apart t i u.ticker_id u.order_id k q (p ∙ ap some (sym same)) in
      ground (arith, e, first, second)

  add-Takes :
      held s u.ticker_id u.order_id ≡ none
      → HasSpare s.order_pool
      → Takes s u (some u) (take_add u orders s)
  unfolding take_add
  add-Takes absent spare =
      let n = s.order_pool.next_free_index in
      let (p, ok, untouched, dead, lives, _, _) = allocate-Untouched u s.order_pool h.pool spare in
      let s₁ = record s { order_pool = p } in
      let got = named_entry none (no_place absent) in
      let fresh : (t i j : ℕ) → pointer s t i ≡ some j → j ≢ n = λ t i j q same.
        let (x, in_use, _) = h.points t i j q in
        ground (arith, in_use, dead, ap (live s.order_pool) same) in
      rewritten (set_entry u.ticker_id orders u.order_id (some n) s₁) (some n) (some u) _
        (rw (got, ok)) refl
        (record {
          pool = untouched;
          pointers = λ t i. pointer-set_entry s₁ u orders (some n) t i at inside;
          others = λ t i j e q. let off = fresh t i j q in lives j ∙ ground (arith, off);
          alone = λ t i j e q same. fresh t i j q (ground (arith, same));
          value = lives n ∙ ground arith;
          named = λ j same.
              let back : n ≡ j = ground (arith, same) in
              (u, subst (λ k. live p k ≡ some u) back (lives n ∙ ground arith), refl);
        })

  module _ (x : MarketUpdate) (is_held : held s u.ticker_id u.order_id ≡ some x)
      (sided : same_side x.side u.side ≡ true) where
    spot : ℕ
    spot = (place x is_held).0

    find_order_lem : find_order u orders s ≡ done spot
    unfolding find_order spot
    find_order_lem =
        let (j, p, in_use) = place x is_held in
        let (y, in_use', id) = h.points u.ticker_id u.order_id j p in
        let same : x.order_id ≡ u.order_id = ground (arith, in_use, in_use', id) in
        let test : (x.order_id == u.order_id) ≡ true = ground (arith, same) in
        rw (named_entry (some j) p, load-live s.order_pool j in_use, test, sided)

    modify-Takes : Takes s u (some (modified u x)) (take_modify u orders s)
    unfolding take_modify spot
    modify-Takes =
        let (j, p, in_use) = place x is_held in
        let (y, in_use', id) = h.points u.ticker_id u.order_id j p in
        let same : x.order_id ≡ u.order_id = ground (arith, in_use, in_use', id) in
        let (pool, ok, w) = modify-Wrote s.order_pool j (modified u) in_use in
        rewritten (record s { order_pool = pool }) (some j) (some (modified u x)) _
          (rw (find_order_lem, ok)) refl
          (record {
            pool = Wrote-Untouched w in_use h.pool;
            pointers = λ t i. elim (Bool-cases (here u t i)) [
              | inl e ↦ here_refl t i e ∙ p ∙ sym (rw e refl)
              | inr e ↦ sym (rw e refl)
            ];
            others =
                λ t i k e q. let off = elsewhere j p t i k e q in w.live_at k ∙ ground (arith, off);
            alone = λ t i k e q meet. elsewhere j p t i k e q (ground (arith, meet));
            value = w.live_at j ∙ ground arith;
            named = λ k meet.
                let back : j ≡ k = ground (arith, meet) in
                (
                  modified u x,
                  subst (λ i. live pool i ≡ some (modified u x)) back (w.live_at j ∙ ground arith),
                  same,
                );
          })

    cancel-Takes : Takes s u none (take_cancel u orders s)
    unfolding take_cancel spot
    cancel-Takes =
        let (j, p, in_use) = place x is_held in
        let (pool, ok, untouched, lives, _, _) =
          deallocate-Untouched j s.order_pool h.pool in_use in
        let s₁ = record s { order_pool = pool } in
        rewritten (set_entry u.ticker_id orders u.order_id none s₁) none none _
          (rw (find_order_lem, ok)) refl
          (record {
            pool = untouched;
            pointers = λ t i. pointer-set_entry s₁ u orders none t i at inside;
            others =
                λ t i k e q. let off = elsewhere j p t i k e q in lives k ∙ ground (arith, off);
            alone = λ t i k e q meet. ground (arith, meet);
            value = refl;
            named = λ k meet. absurd (ground (arith, meet));
          })

  kept-Takes : Takes s u (held s u.ticker_id u.order_id) (done s)
  kept-Takes = record {
    after = s;
    returns = refl;
    seq_kept = refl;
    valid = h;
    holds = λ t i. elim (Bool-cases (here u t i)) [
      | inl e ↦ ap (behind s.order_pool) (here_refl t i e) ∙ sym (rw e refl)
      | inr e ↦ sym (rw e refl)
    ];
  }

  take_update-Takes :
      (type : MarketUpdateType)
      → Fits type u (held s u.ticker_id u.order_id)
      → HasSpare s.order_pool
      → Takes s u (effect type u (held s u.ticker_id u.order_id)) (take_update type u orders s)
  unfolding take_update
  take_update-Takes MarketUpdateType.add fits spare = add-Takes fits spare
  take_update-Takes MarketUpdateType.modify (x, e, sided) spare =
      subst (λ v. Takes s u (effect MarketUpdateType.modify u v) (take_modify u orders s)) (sym e)
        (modify-Takes x e sided)
  take_update-Takes MarketUpdateType.cancel (x, e, sided) spare = cancel-Takes x e sided
  take_update-Takes MarketUpdateType.snapshot_start fits spare = kept-Takes
  take_update-Takes MarketUpdateType.clear fits spare = kept-Takes
  take_update-Takes MarketUpdateType.snapshot_end fits spare = kept-Takes
  take_update-Takes MarketUpdateType.trade fits spare = kept-Takes
  take_update-Takes MarketUpdateType.invalid fits spare = kept-Takes

-- A synthesizer whose pointers lead to orders in use of their numbers, each to its own, with room for one
-- order more, takes in the next update of the stream, for an instrument and a number in its arrays, if an
-- add is of an order not held, and a modify or a cancel of one held, on its side: the orders held are then
-- those before, but for the one that the update names, which is added, has the new quantity and price, or
-- is gone, and the pointers are as good as before.
pub add_to_snapshot-IsSnapshot :
    (q : MdpMarketUpdate) (s : Synthesizer) (orders : List (Option ℕ))
    → IsSnapshot s
    → q.seq_num ≡ add_size s.last_inc_seq_num 1
    → get_elem? s.ticker_orders q.me_market_update.ticker_id ≡ some orders
    → q.me_market_update.order_id < length orders
    → Fits q.me_market_update.type q.me_market_update
        (held s q.me_market_update.ticker_id q.me_market_update.order_id)
    → HasSpare s.order_pool
    → (s' : Synthesizer) × (add_to_snapshot q s ≡ done s')
      × IsSnapshot s'
      × ((t i : ℕ)
          → held s' t i ≡ (
              if here q.me_market_update t i
              then effect q.me_market_update.type q.me_market_update
                  (held s q.me_market_update.ticker_id q.me_market_update.order_id)
              else held s t i))
      × (s'.last_inc_seq_num ≡ q.seq_num)
unfolding add_to_snapshot
add_to_snapshot-IsSnapshot q s orders h next at inside fits spare =
    let u = q.me_market_update in
    let r = take_update-Takes s u orders h at inside u.type fits spare in
    let test : (q.seq_num == add_size r.after.last_inc_seq_num 1) ≡ true =
      ground (arith, next, r.seq_kept) in
    (
      record r.after { last_inc_seq_num = q.seq_num },
      rw (at, r.returns, test),
      record { pool = r.valid.pool; points = r.valid.points; apart = r.valid.apart },
      r.holds,
      refl,
    )

-- ===== src/OrderBook/Levels/Insert.antt =====
-- trading/strategy/market_order_book.h, `addOrdersAtPrice`: a new level takes its place in the ring.
use hft_system.Base.{
  ℕ, ◌≡◌, ◌≢◌, refl, sym, ap, ◌∙◌, subst, append-nil, true, false, none, some, List, [], ◌∷◌, ◌++◌,
  ◌==◌, arith, done,
}
use hft_system.Common.Types.{Side}
use hft_system.Common.MemPool.{MemPool, live, modify}
use hft_system.Common.MemPool.Access.{load-live}
use hft_system.Common.Node.{next_at, prev_at, link_before}
use hft_system.Common.Node.Writes.{IsLive, Edits, Edits-trans, modify-SetsNext, load-prev}
use hft_system.Common.Node.Linking.{link_before-Inserts, link_after-Inserts, link_self_lem}
use hft_system.Common.Ring.{
  All, Distinct, Ring, last, Chain-end, Ring-rotate, last-All, Chain-split, Chain-same, All-left,
  All-right,
}
use hft_system.Common.Ring.Edit.{first, Ring-insert_first, Ring-insert}
use hft_system.OrderBook.Levels.{
  OrdersAtPrice, level_node, Levels, best_of, set_best, is_worse, is_better, add_behind, add_before,
  place, relinked,
}
use hft_system.OrderBook.Levels.Rows.{
  Row, places, insert_row, IsThreaded, Laid, Edits-IsLevel, places-append, is_better-eq,
  is_worse-asym, is_worse-total, Divided, opposite,
}
use hft_system.OrderBook.Levels.Placed.{Placed, set_best_lem, best_of-pool, Inserts-outside}
use hft_system.OrderBook.Levels.Search.{Chain-next}

-- The head's pointer is written back as it is where another level follows it.
rehead :
    (p : MemPool OrdersAtPrice) (best new n : ℕ) (h : OrdersAtPrice)
    → live p best ≡ some h
    → next_at p best ≡ some n
    → n ≢ best
    → (p' : MemPool OrdersAtPrice) × (modify
          (some best)
          (λ l. record l { next_entry = relinked new best h.next_entry })
          p
        ≡ done p')
      × Edits p p'
      × ((j : ℕ) → next_at p' j ≡ next_at p j)
      × ((j : ℕ) → prev_at p' j ≡ prev_at p j)
rehead p best new n h at follows ne =
    let (p', ok, w) = modify-SetsNext p best (relinked new best h.next_entry) (h, at) in
    let next_h : h.next_entry ≡ some n = ground (arith, at, follows) in
    let kept : relinked new best h.next_entry ≡ some n = rw next_h (ground (arith, ne)) in
    (p', ok, w.edits, (λ j. w.nexts j ∙ ground (arith, kept, follows)), w.prevs)

first_apart :
    (a : ℕ) (xs : List ℕ) (o : ℕ) → All (λ y. a ≢ y) xs → a ≢ o → first a (xs ++ o ∷ []) ≢ a
first_apart a [] o h ne e = ne (sym e)
first_apart a (x ∷ xs) o h ne e = h.0 (sym e)

-- A side and the level that joins it.
module _ (b : Levels) (side : Side) (new : Row) (level : OrdersAtPrice)
    (sided : side ≢ Side.invalid) (of_side : level.side ≡ side) (of_price : level.price ≡ new.price)
    (fresh : IsLive b.pool new.at) where
  pub place_alone : (b' : Levels) × (place new.at level none b ≡ done b') × Placed b b' side [] new
  unfolding place insert_row
  place_alone =
      let (p, ok, e, same, nexts, prevs) = link_self_lem b.pool new.at fresh in
      let (head, other, pool, known) =
        set_best_lem side (some new.at) (record b { pool = p }) sided in
      (
        set_best side (some new.at) (record b { pool = p }),
        rw (ok, of_side),
        record {
          threaded = rw pool (nexts, prevs);
          head = head;
          other_head = other ∙ best_of-pool (opposite side) b p;
          known = known;
          edits = rw pool e;
          outside = λ j ne. rw pool (same.nexts j ne.0, same.prevs j ne.0);
        },
      )

  module _ (r : Row) (rs : List Row) (laid : Laid b.pool side (r ∷ rs))
      (apart : All (λ y. new.at ≢ y) (places (r ∷ rs))) (headed : best_of side b ≡ some r.at) where
    ring_end :
        (next_at b.pool (last r.at (places rs)) ≡ some r.at)
        × (prev_at b.pool r.at ≡ some (last r.at (places rs)))
    ring_end = Chain-end (next_at b.pool) (prev_at b.pool) r.at (places rs) r.at laid.threaded

    last_apart : last r.at (places rs) ≢ new.at
    last_apart e = last-All (λ y. new.at ≢ y) r.at (places rs) apart.0 apart.1 (sym e)

    grown :
        (d : Divided side new r.at rs)
        → d.behind ≡ []
        → places (insert_row side new rs) ≡ places rs ++ new.at ∷ []
    grown d none_behind =
        rw (d.with_new, none_behind, places-append d.before (new ∷ []))
          (ap (λ (xs : List Row). places xs ++ new.at ∷ [])
            (sym
              (d.whole ∙ ap (λ (ys : List Row). d.before ++ ys) none_behind ∙ append-nil d.before)))

    same : (r.at == r.at) ≡ true
    same = ground arith

    pub add_last :
        is_worse side new.price r.price ≡ true
        → (d : Divided side new r.at rs) → d.behind ≡ []
        → (b' : Levels) × (add_behind new.at r.at r.at b ≡ done b') × Placed b b' side (r ∷ rs) new
    unfolding add_behind insert_row
    add_last worse d none_behind =
        let l = last r.at (places rs) in
        let (t, loaded, prev_t, live_t) = load-prev b.pool r.at l ring_end.1 in
        let (p, ok, e, i) =
          link_after-Inserts b.pool r.at l new.at fresh (λ e. apart.0 (sym e)) last_apart ring_end.1
            ring_end.0 in
        (
          record b { pool = p },
          rw (loaded, same, prev_t, ok),
          record {
            threaded =
                rw (worse, grown d none_behind)
                  (Ring-insert_first _ _ _ _ r.at (places rs) new.at (apart, laid.distinct) i
                    laid.threaded);
            head = rw worse (best_of-pool side b p ∙ headed);
            other_head = best_of-pool (opposite side) b p;
            known = refl;
            edits = e;
            outside =
                Inserts-outside b.pool p l r.at new.at (places (r ∷ rs)) i
                  (λ P h. (last-All P r.at (places rs) h.0 h.1, h.0));
          },
        )

    pub add_middle :
        (d : Divided side new r.at rs) (q : Row) (qs : List Row)
        → is_worse side new.price r.price ≡ true
        → d.behind ≡ q ∷ qs
        → (b' : Levels) × (add_before new.at level r.at q.at b ≡ done b')
          × Placed b b' side (r ∷ rs) new
    unfolding add_before insert_row
    add_middle d q qs worse at_q =
        let around : places rs ≡ places d.before ++ q.at ∷ places qs =
          ap places d.whole
          ∙ places-append d.before d.behind
          ∙ ap (λ (ys : List Row). places d.before ++ places ys) at_q in
        let grows : places (insert_row side new rs) ≡ places d.before ++ new.at ∷ q.at ∷ places qs =
          ap places d.with_new
          ∙ places-append d.before (new ∷ d.behind)
          ∙ ap (λ (ys : List Row). places d.before ++ new.at ∷ places ys) at_q in
        let ring : Ring (next_at b.pool) (prev_at b.pool) r.at
            (places d.before ++ q.at ∷ places qs) =
          rw around at laid.threaded in
        let separate : Distinct (new.at ∷ r.at ∷ places d.before ++ q.at ∷ places qs) =
          rw (← around) (apart, laid.distinct) in
        let l = last r.at (places d.before) in
        let not_new : All (λ y. new.at ≢ y) (places d.before ++ q.at ∷ places qs) = separate.0.1 in
        let not_l : new.at ≢ l =
          last-All (λ y. new.at ≢ y) r.at (places d.before) apart.0
            (All-left (λ y. new.at ≢ y) (places d.before) (q.at ∷ places qs) not_new) in
        let not_q : new.at ≢ q.at =
          (All-right (λ y. new.at ≢ y) (places d.before) (q.at ∷ places qs) not_new).0 in
        let link =
          Chain-end (next_at b.pool) (prev_at b.pool) r.at (places d.before) q.at
            (Chain-split (next_at b.pool) (prev_at b.pool) r.at (places d.before) q.at (places qs)
              r.at ring).0 in
        let (p, ok, e, i) =
          link_before-Inserts b.pool q.at l new.at fresh (λ e. not_q (sym e)) (λ e. not_l (sym e))
            link.1 link.0 in
        let (h, at_h, _, price_h, _) = Edits-IsLevel side r e laid.levels.0 in
        let no_better : is_better level.side level.price h.price ≡ false =
          rw (of_side, of_price, price_h, is_better-eq side new.price r.price)
            (is_worse-asym side new.price r.price worse) in
        (
          record b { pool = p },
          rw (ok, load-live p r.at at_h, no_better),
          record {
            threaded =
                rw (worse, grows)
                  (Ring-insert _ _ _ _ r.at (places d.before) q.at (places qs) new.at separate i
                    ring);
            head = rw worse (best_of-pool side b p ∙ headed);
            other_head = best_of-pool (opposite side) b p;
            known = refl;
            edits = e;
            outside = Inserts-outside b.pool p l q.at new.at (places (r ∷ rs)) i (λ P h.
                let rest = rw around at h.1 in
                (
                  last-All P r.at (places d.before) h.0
                      (All-left P (places d.before) (q.at ∷ places qs) rest),
                  (All-right P (places d.before) (q.at ∷ places qs) rest).0,
                ));
          },
        )

    becomes_head :
        (p : MemPool OrdersAtPrice)
        → Edits b.pool p
        → Ring (next_at p) (prev_at p) r.at (places rs ++ new.at ∷ [])
        → link_before r.at new.at b.pool ≡ done p
        → ((j : ℕ)
            → All (λ y. j ≢ y) (new.at ∷ places (r ∷ rs))
            → (next_at p j ≡ next_at b.pool j) × (prev_at p j ≡ prev_at b.pool j))
        → is_worse side new.price r.price ≡ false
        → new.price ≢ r.price
        → (b' : Levels) × (add_before new.at level r.at r.at b ≡ done b')
          × Placed b b' side (r ∷ rs) new
    unfolding add_before insert_row
    becomes_head p e ring ok kept better differ =
        let (h, at_h, _, price_h, _) = Edits-IsLevel side r e laid.levels.0 in
        let is_best : is_better level.side level.price h.price ≡ true =
          rw (of_side, of_price, price_h, is_better-eq side new.price r.price)
            (is_worse-total side new.price r.price sided differ better) in
        let follows =
          Chain-next (next_at p) (prev_at p) r.at (places rs ++ new.at ∷ []) r.at ring in
        let (p', ok', e', nexts, prevs) =
          rehead p r.at new.at (first r.at (places rs ++ new.at ∷ [])) h at_h follows
            (first_apart r.at (places rs) new.at laid.distinct.0 (λ e. apart.0 (sym e))) in
        let (head, other, pool, known) =
          set_best_lem side (some new.at) (record b { pool = p' }) sided in
        (
          set_best side (some new.at) (record b { pool = p' }),
          rw (ok, load-live p r.at at_h, is_best, ok', of_side),
          record {
            threaded =
                subst (λ q. IsThreaded q (insert_row side new (r ∷ rs))) (sym pool)
                  (rw better (
                    Chain-same (next_at p) (prev_at p) (next_at p') (prev_at p') new.at
                      (r.at ∷ places rs) new.at nexts prevs
                      (Ring-rotate (next_at p) (prev_at p) r.at (places rs) new.at [] ring)));
            head = rw better head;
            other_head = other ∙ best_of-pool (opposite side) b p';
            known = known;
            edits = subst (λ q. Edits b.pool q) (sym pool) (Edits-trans e e');
            outside = λ j ne.
                subst (λ q. (next_at q j ≡ next_at b.pool j) × (prev_at q j ≡ prev_at b.pool j))
                  (sym pool) (nexts j ∙ (kept j ne).0, prevs j ∙ (kept j ne).1);
          },
        )

    pub add_first :
        is_worse side new.price r.price ≡ false
        → new.price ≢ r.price
        → (b' : Levels) × (add_before new.at level r.at r.at b ≡ done b')
          × Placed b b' side (r ∷ rs) new
    add_first better differ =
        let l = last r.at (places rs) in
        let (p, ok, e, i) =
          link_before-Inserts b.pool r.at l new.at fresh (λ e. apart.0 (sym e)) last_apart
            ring_end.1 ring_end.0 in
        becomes_head p e
          (Ring-insert_first _ _ _ _ r.at (places rs) new.at (apart, laid.distinct) i laid.threaded)
          ok
          (Inserts-outside b.pool p l r.at new.at (places (r ∷ rs)) i
            (λ P h. (last-All P r.at (places rs) h.0 h.1, h.0)))
          better differ

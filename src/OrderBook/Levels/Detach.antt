-- ===== src/OrderBook/Levels/Detach.antt =====
-- trading/strategy/market_order_book.h, `removeOrdersAtPrice`: a level leaves the ring of its side.
use hft_system.Base.{
  ℕ, ◌≡◌, ◌≢◌, refl, sym, ap, ◌∙◌, subst, true, false, none, some, List, [], ◌∷◌, ◌++◌, ◌==◌,
  if◌then◌else◌, arith, done,
}
use hft_system.Common.Types.{Side}
use hft_system.Common.MemPool.{MemPool}
use hft_system.Common.Node.{next_at, prev_at}
use hft_system.Common.Node.Writes.{IsLive, Edits, Edits-refl, Edits-trans, load-next}
use hft_system.Common.Node.Linking.{Removed, unlink-Removes, clear_links_lem}
use hft_system.Common.Ring.{
  All, Distinct, Ring, last, Chain-end, All-map, All-left, All-right, last-All, Chain-split,
}
use hft_system.Common.Ring.Edit.{first-All, first, Ring-remove, Ring-remove_first, Distinct-split}
use hft_system.OrderBook.Levels.{
  OrdersAtPrice, level_node, Levels, best_of, set_best, is_at, detach,
}
use hft_system.OrderBook.Levels.Rows.{
  Row, places, heads, IsLevel, IsThreaded, Laid, places-append, opposite,
}
use hft_system.OrderBook.Levels.Search.{Chain-next}
use hft_system.OrderBook.Levels.Placed.{set_best_lem, best_of-pool}

-- What taking the level at `x` out of the ring does, where `l` and `y` are its neighbours.
record Cut (b : Levels) (side : Side) (l x y : ℕ) : Type 0 where
  after : MemPool OrdersAtPrice
  edits : Edits b.pool after
  removed : Removed b.pool after l x y
  ok :
      detach side x (some y) b
      ≡ done (
          if is_at (best_of side b) x
          then set_best side (some y) (record b { pool = after })
          else record b { pool = after })

cut :
    (b : Levels) (side : Side) (l x y : ℕ)
    → x ≢ l
    → x ≢ y
    → prev_at b.pool x ≡ some l
    → next_at b.pool x ≡ some y
    → IsLive b.pool l
    → IsLive b.pool y
    → Cut b side l x y
unfolding detach
cut b side l x y not_l not_y back forth live_l live_y =
    let (p, ok, e, r, next) = unlink-Removes b.pool x l y not_l not_y back forth live_l live_y in
    let (t, loaded, next_t, live_t) = load-next p x y next in
    let (p', ok', e', same) = clear_links_lem p x (t, live_t) in
    let apart : (y == x) ≡ false = ground (arith, not_y) in
    record {
      after = p';
      edits = Edits-trans e e';
      removed = record {
        next_other = λ j a c. same.nexts j c ∙ r.next_other j a c;
        prev_other = λ j a c. same.prevs j c ∙ r.prev_other j a c;
        next_before = same.nexts l (λ e. not_l (sym e)) ∙ r.next_before;
        prev_after = same.prevs y (λ e. not_y (sym e)) ∙ r.prev_after;
      };
      ok = rw (apart, ok, loaded, ok', next_t);
    }

-- What is left of a side, and of the book, when a level is out of its ring but still in the pool.
pub record Detached (b b' : Levels) (side : Side) (mine rest : List Row) : Type 0 where
  pub threaded : IsThreaded b'.pool rest
  pub head : best_of side b' ≡ heads rest
  pub other_head : best_of (opposite side) b' ≡ best_of (opposite side) b
  pub known : b'.price_orders_at_price ≡ b.price_orders_at_price
  pub edits : Edits b.pool b'.pool
  pub outside :
      (j : ℕ)
      → All (λ y. j ≢ y) (places mine)
      → (next_at b'.pool j ≡ next_at b.pool j) × (prev_at b'.pool j ≡ prev_at b.pool j)

IsLive-places :
    (p : MemPool OrdersAtPrice) (side : Side) (rows : List Row)
    → All (IsLevel p side) rows
    → All (IsLive p) (places rows)
IsLive-places p side [] h = tt
IsLive-places p side (r ∷ rs) h = ((h.0.0, h.0.1), IsLive-places p side rs h.1)

module _ (b : Levels) (side : Side) (sided : side ≢ Side.invalid) where
  detach_only :
      (x : Row)
      → Laid b.pool side (x ∷ [])
      → (b' : Levels) × (detach side x.at (some x.at) b ≡ done b') × Detached b b' side (x ∷ []) []
  unfolding detach
  detach_only x laid =
      let (head, other, pool, known) = set_best_lem side none b sided in
      let same : (x.at == x.at) ≡ true = ground arith in
      (
        set_best side none b,
        rw same,
        record {
          threaded = tt;
          head = head;
          other_head = other;
          known = known;
          edits = subst (λ q. Edits b.pool q) (sym pool) (Edits-refl b.pool);
          outside = λ j ne. rw pool (refl, refl);
        },
      )

  -- The book after the best level is cut out and the one behind it takes its place.
  rehead :
      (x y : ℕ) (mine ys : List Row) (yr : Row) (c : Cut b side (last y (places ys)) x y)
      → yr.at ≡ y
      → best_of side b ≡ some x
      → Ring (next_at c.after) (prev_at c.after) yr.at (places ys)
      → ((j : ℕ)
          → All (λ z. j ≢ z) (places mine)
          → (next_at c.after j ≡ next_at b.pool j) × (prev_at c.after j ≡ prev_at b.pool j))
      → (b' : Levels) × (detach side x (some y) b ≡ done b') × Detached b b' side mine (yr ∷ ys)
  rehead x y mine ys yr c at_y is_best ring outside =
      let (head, other, pool, known) =
        set_best_lem side (some y) (record b { pool = c.after }) sided in
      let same : (x == x) ≡ true = ground arith in
      (
        set_best side (some y) (record b { pool = c.after }),
        c.ok ∙ rw (is_best, same),
        record {
          threaded = subst (λ q. IsThreaded q (yr ∷ ys)) (sym pool) ring;
          head = head ∙ ap some (sym at_y);
          other_head = other ∙ best_of-pool (opposite side) b c.after;
          known = known;
          edits = subst (λ q. Edits b.pool q) (sym pool) c.edits;
          outside =
              subst
                (λ q.
                  (j : ℕ)
                  → All (λ z. j ≢ z) (places mine)
                  → (next_at q j ≡ next_at b.pool j) × (prev_at q j ≡ prev_at b.pool j))
                (sym pool) outside;
        },
      )

  detach_head :
      (x y : Row) (ys : List Row)
      → Laid b.pool side (x ∷ y ∷ ys)
      → best_of side b ≡ some x.at
      → (b' : Levels) × (detach side x.at (some y.at) b ≡ done b')
        × Detached b b' side (x ∷ y ∷ ys) (y ∷ ys)
  detach_head x y ys laid is_best =
      let nxt = next_at b.pool in
      let prv = prev_at b.pool in
      let lives = IsLive-places b.pool side (x ∷ y ∷ ys) laid.levels in
      let l = last y.at (places ys) in
      let not_l : x.at ≢ l =
        last-All (λ z. x.at ≢ z) y.at (places ys) laid.distinct.0.0 laid.distinct.0.1 in
      let c =
        cut b side l x.at y.at not_l laid.distinct.0.0
          (Chain-end nxt prv x.at (y.at ∷ places ys) x.at laid.threaded).1 laid.threaded.0.0
          (last-All (IsLive b.pool) y.at (places ys) lives.1.0 lives.1.1) lives.1.0 in
      rehead x.at y.at (x ∷ y ∷ ys) ys y c refl is_best
        (Ring-remove_first nxt prv (next_at c.after) (prev_at c.after) x.at y.at (places ys)
          laid.distinct c.removed laid.threaded)
        (λ j ne. (
          c.removed.next_other j (last-All (λ z. j ≢ z) y.at (places ys) ne.1.0 ne.1.1) ne.0,
          c.removed.prev_other j ne.1.0 ne.0,
        ))

  detach_inner :
      (a : Row) (mid : List Row) (x : Row) (ys : List Row)
      → Laid b.pool side (a ∷ mid ++ x ∷ ys)
      → best_of side b ≡ some a.at
      → (b' : Levels) × (detach side x.at (some (first a.at (places ys))) b ≡ done b')
        × Detached b b' side (a ∷ mid ++ x ∷ ys) (a ∷ mid ++ ys)
  detach_inner a mid x ys laid is_best =
      let nxt = next_at b.pool in
      let prv = prev_at b.pool in
      let split = places-append mid (x ∷ ys) in
      let lives : All (IsLive b.pool) (a.at ∷ places mid ++ x.at ∷ places ys) =
        subst (λ zs. All (IsLive b.pool) (a.at ∷ zs)) split
          (IsLive-places b.pool side (a ∷ mid ++ x ∷ ys) laid.levels) in
      let ring : Ring nxt prv a.at (places mid ++ x.at ∷ places ys) =
        subst (λ zs. Ring nxt prv a.at zs) split laid.threaded in
      let distinct : Distinct (a.at ∷ places mid ++ x.at ∷ places ys) =
        subst (λ zs. Distinct (a.at ∷ zs)) split laid.distinct in
      let (da, dx, apart) = Distinct-split (a.at ∷ places mid) (x.at ∷ places ys) distinct in
      let (to_x, from_x) = Chain-split nxt prv a.at (places mid) x.at (places ys) a.at ring in
      let l = last a.at (places mid) in
      let n = first a.at (places ys) in
      let off : All (λ u. x.at ≢ u) (a.at ∷ places mid) =
        All-map _ (λ u. x.at ≢ u) (a.at ∷ places mid) (λ u h e. h.0 (sym e)) apart in
      let not_l : x.at ≢ l = last-All (λ z. x.at ≢ z) a.at (places mid) off.0 off.1 in
      let not_n : x.at ≢ n = first-All (λ z. x.at ≢ z) a.at (places ys) off.0 dx.0 in
      let rest = All-right (IsLive b.pool) (places mid) (x.at ∷ places ys) lives.1 in
      let c =
        cut b side l x.at n not_l not_n (Chain-end nxt prv a.at (places mid) x.at to_x).1
          (Chain-next nxt prv x.at (places ys) a.at from_x)
          (last-All (IsLive b.pool) a.at (places mid) lives.0
            (All-left (IsLive b.pool) (places mid) (x.at ∷ places ys) lives.1))
          (first-All (IsLive b.pool) a.at (places ys) lives.0 rest.1) in
      let elsewhere : (a.at == x.at) ≡ false = ground (arith, off.0) in
      (
        record b { pool = c.after },
        c.ok ∙ rw (is_best, elsewhere),
        record {
          threaded =
              subst (λ zs. Ring (next_at c.after) (prev_at c.after) a.at zs)
                (sym (places-append mid ys))
                (Ring-remove nxt prv (next_at c.after) (prev_at c.after) a.at (places mid) x.at
                  (places ys) distinct c.removed ring);
          head = best_of-pool side b c.after ∙ is_best;
          other_head = best_of-pool (opposite side) b c.after;
          known = refl;
          edits = c.edits;
          outside = λ j ne.
              let ne' : All (λ z. j ≢ z) (a.at ∷ places mid ++ x.at ∷ places ys) =
                subst (λ zs. All (λ z. j ≢ z) (a.at ∷ zs)) split ne in
              let right = All-right (λ z. j ≢ z) (places mid) (x.at ∷ places ys) ne'.1 in
              (
                c.removed.next_other j
                    (last-All (λ z. j ≢ z) a.at (places mid) ne'.0
                      (All-left (λ z. j ≢ z) (places mid) (x.at ∷ places ys) ne'.1))
                    right.0,
                c.removed.prev_other j (first-All (λ z. j ≢ z) a.at (places ys) ne'.0 right.1)
                    right.0,
              );
        },
      )

  -- Wherever the level stands in its side.
  pub detach_lem :
      (before : List Row) (x : Row) (behind : List Row)
      → Laid b.pool side (before ++ x ∷ behind)
      → best_of side b ≡ heads (before ++ x ∷ behind)
      → (n : ℕ) × (next_at b.pool x.at ≡ some n)
        × (b' : Levels) × (detach side x.at (some n) b ≡ done b')
        × Detached b b' side (before ++ x ∷ behind) (before ++ behind)
  detach_lem [] x [] laid best =
      let (b', ok, d) = detach_only x laid in (x.at, laid.threaded.0, b', ok, d)
  detach_lem [] x (y ∷ ys) laid best =
      let (b', ok, d) = detach_head x y ys laid best in (y.at, laid.threaded.0.0, b', ok, d)
  detach_lem (a ∷ mid) x behind laid best =
      let nxt = next_at b.pool in
      let prv = prev_at b.pool in
      let ring =
        subst (λ zs. Ring nxt prv a.at zs) (places-append mid (x ∷ behind)) laid.threaded in
      let from_x = (Chain-split nxt prv a.at (places mid) x.at (places behind) a.at ring).1 in
      let (b', ok, d) = detach_inner a mid x behind laid best in
      (first a.at (places behind), Chain-next nxt prv x.at (places behind) a.at from_x, b', ok, d)

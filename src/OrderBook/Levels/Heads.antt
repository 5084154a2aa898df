-- ===== src/OrderBook/Levels/Heads.antt =====
-- trading/strategy/market_order_book.h, `removeOrder`: the first order of a level is replaced.
use hft_system.Base.{
  ℕ, ◌≡◌, ◌≢◌, refl, sym, ap, ◌∙◌, subst, Option, some, List, [], ◌∷◌, ◌++◌, arith, done,
}
use hft_system.Common.Types.{Side}
use hft_system.Common.MemPool.{MemPool, live, modify}
use hft_system.Common.MemPool.Access.{Untouched, modify-Wrote, Wrote-Untouched}
use hft_system.Common.Node.{next_at, prev_at}
use hft_system.Common.Ring.Edit.{Apart}
use hft_system.Common.Ring.{Ring, All, Distinct, Chain-same, All-map, All-right}
use hft_system.OrderBook.Levels.{OrdersAtPrice, level_node, Levels}
use hft_system.OrderBook.Levels.Rows.{
  Row, places, heads, IsLevel, IsThreaded, IsSorted, places-append, opposite,
}
use hft_system.OrderBook.Levels.Placed.{best_of-pool}
use hft_system.OrderBook.Levels.Book.{IsBook}

abbrev pub with_first : Option ℕ → OrdersAtPrice → OrdersAtPrice
with_first f l = record l { first_order = f }

abbrev pub headed : Option ℕ → Row → Row
headed f r = record r { first_order = f }

module _ (r : Row) (f : Option ℕ) (behind : List Row) where
  places-headed :
      (before : List Row) → places (before ++ headed f r ∷ behind) ≡ places (before ++ r ∷ behind)
  places-headed [] = refl
  places-headed (x ∷ xs) = ap (◌∷◌ x.at) (places-headed xs)

  heads-headed :
      (before : List Row) → heads (before ++ headed f r ∷ behind) ≡ heads (before ++ r ∷ behind)
  heads-headed [] = refl
  heads-headed (x ∷ xs) = refl

  -- A property of the other rows, and of the changed one.
  All-headed {κ} :
      (P : Row → Type κ) (before : List Row)
      → P (headed f r)
      → All P (before ++ r ∷ behind)
      → All P (before ++ headed f r ∷ behind)
  All-headed P [] h k = (h, k.1)
  All-headed P (x ∷ xs) h k = (k.0, All-headed P xs h k.1)

  IsSorted-headed :
      (side : Side) (before : List Row)
      → IsSorted side (before ++ r ∷ behind)
      → IsSorted side (before ++ headed f r ∷ behind)
  IsSorted-headed side [] h = h
  IsSorted-headed side (x ∷ xs) h =
      (All-headed _ xs (All-right _ xs (r ∷ behind) h.0).0 h.0, IsSorted-headed side xs h.1)

  IsThreaded-headed :
      (p : MemPool OrdersAtPrice) (before : List Row)
      → IsThreaded p (before ++ r ∷ behind)
      → IsThreaded p (before ++ headed f r ∷ behind)
  IsThreaded-headed p [] h = h
  IsThreaded-headed p (x ∷ xs) h =
      subst (λ ys. Ring (next_at p) (prev_at p) x.at ys) (sym (places-headed xs)) h

-- A write that leaves the pointers of the levels alone.
record Keeps (p q : MemPool OrdersAtPrice) : Type 0 where
  nexts : (j : ℕ) → next_at q j ≡ next_at p j
  prevs : (j : ℕ) → prev_at q j ≡ prev_at p j

Keeps-IsThreaded :
    (p q : MemPool OrdersAtPrice) (rows : List Row)
    → Keeps p q
    → IsThreaded p rows
    → IsThreaded q rows
Keeps-IsThreaded p q [] k h = tt
Keeps-IsThreaded p q (r ∷ rs) k h =
    Chain-same (next_at p) (prev_at p) (next_at q) (prev_at q) r.at (places rs) r.at k.nexts k.prevs
      h

module _ (p q : MemPool OrdersAtPrice) (side : Side) (i : ℕ)
    (same : (j : ℕ) → i ≢ j → live q j ≡ live p j) where
  elsewhere :
      (rows : List Row)
      → All (λ y. i ≢ y) (places rows)
      → All (IsLevel p side) rows
      → All (IsLevel q side) rows
  elsewhere [] ne h = tt
  elsewhere (r ∷ rs) ne h =
      ((h.0.0, same r.at ne.0 ∙ h.0.1, h.0.2, h.0.3, h.0.4), elsewhere rs ne.1 h.1)

  at_row :
      (r : Row) (f : Option ℕ) (behind before : List Row) (l : OrdersAtPrice)
      → r.at ≡ i
      → live q i ≡ some (with_first f l)
      → l.side ≡ side
      → l.price ≡ r.price
      → Distinct (places (before ++ r ∷ behind))
      → All (IsLevel p side) (before ++ r ∷ behind)
      → All (IsLevel q side) (before ++ headed f r ∷ behind)
  at_row r f behind [] l e at of_side of_price d h = (
    (with_first f l, ap (live q) e ∙ at, of_side, of_price, refl),
    elsewhere behind (All-map _ (λ y. i ≢ y) (places behind) (λ y ne e'. ne (e ∙ e')) d.0) h.1,
  )
  at_row r f behind (x ∷ xs) l e at of_side of_price d h =
      let off : i ≢ x.at = λ e'.
        (All-right (λ y. x.at ≢ y) (places xs) (r.at ∷ places behind)
            (subst (λ ys. All (λ y. x.at ≢ y) ys) (places-append xs (r ∷ behind)) d.0)).0
          (sym (e ∙ e')) in
      (
        (h.0.0, same x.at off ∙ h.0.1, h.0.2, h.0.3, h.0.4),
        at_row r f behind xs l e at of_side of_price d.1 h.1,
      )

-- The level of a row is given another first order; nothing else of the book changes.
pub set_first_order-IsBook :
    (b : Levels) (side : Side) (before : List Row) (r : Row) (behind theirs : List Row)
    (f : Option ℕ)
    → IsBook b side (before ++ r ∷ behind) theirs
    → Untouched b.pool
    → (p : MemPool OrdersAtPrice) × (modify (some r.at) (with_first f) b.pool ≡ done p)
      × IsBook (record b { pool = p }) side (before ++ headed f r ∷ behind) theirs
      × Untouched p
set_first_order-IsBook b side before r behind theirs f book untouched =
    let (l, at, of_side, of_price, _) =
      (All-right (IsLevel b.pool side) before (r ∷ behind) book.laid.levels).0 in
    let (p, ok, w) = modify-Wrote b.pool r.at (with_first f) at in
    let same : (j : ℕ) → r.at ≢ j → live p j ≡ live b.pool j =
      λ j ne. w.live_at j ∙ ground (arith, ne) in
    let here : live p r.at ≡ some (with_first f l) = w.live_at r.at ∙ ground arith in
    let keeps : Keeps b.pool p = record {
      nexts = λ j. rw (w.live_at j) (ground (arith, at));
      prevs = λ j. rw (w.live_at j) (ground (arith, at));
    } in
    let other_places : All (λ y. r.at ≢ y) (places theirs) =
      All-map _ (λ y. r.at ≢ y) (places theirs)
        (λ z h e.
          (All-right (λ y. z ≢ y) (places before) (r.at ∷ places behind)
              (subst (λ ys. All (λ y. z ≢ y) ys) (places-append before (r ∷ behind)) h)).0
            (sym e))
        book.apart in
    let keep_places = places-headed r f behind before in
    (
      p,
      ok,
      record {
        laid = record {
          levels =
              at_row b.pool p side r.at same r f behind before l refl here of_side of_price
                book.laid.distinct book.laid.levels;
          threaded =
              Keeps-IsThreaded b.pool p (before ++ headed f r ∷ behind) keeps
                (IsThreaded-headed r f behind b.pool before book.laid.threaded);
          distinct = subst (λ ys. Distinct ys) (sym keep_places) book.laid.distinct;
          sorted = IsSorted-headed r f behind side before book.laid.sorted;
        };
        laid_other = record {
          levels =
              elsewhere b.pool p (opposite side) r.at same theirs other_places
                book.laid_other.levels;
          threaded = Keeps-IsThreaded b.pool p theirs keeps book.laid_other.threaded;
          distinct = book.laid_other.distinct;
          sorted = book.laid_other.sorted;
        };
        head = best_of-pool side b p ∙ book.head ∙ sym (heads-headed r f behind before);
        head_other = best_of-pool (opposite side) b p ∙ book.head_other;
        apart = subst (λ ys. Apart (places theirs) ys) (sym keep_places) book.apart;
        known =
            All-headed r f behind _ before (All-right _ before (r ∷ behind) book.known).0
              book.known;
        known_other = book.known_other;
      },
      Wrote-Untouched w at untouched,
    )

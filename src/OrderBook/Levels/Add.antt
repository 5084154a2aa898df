-- ===== src/OrderBook/Levels/Add.antt =====
-- trading/strategy/market_order_book.h, `addOrdersAtPrice`: the whole operation on a book.
use hft_system.Base.{
  ℕ, ◌≡◌, ◌≢◌, refl, sym, ap, ◌∙◌, Bool, true, false, Option, some, List, [], ◌∷◌, ◌==◌,
  if◌then◌else◌, arith, Bool-cases, inl, inr, done, ◌⊎◌,
}
use hft_system.Base.Int.{ℤ}
use hft_system.Common.Types.{Side}
use hft_system.Common.MemPool.{live}
use hft_system.Common.MemPool.Access.{load-live}
use hft_system.Common.Node.Writes.{Edits}
use hft_system.Common.Node.{next_at, prev_at}
use hft_system.Common.Node.Writes.{IsLive}
use hft_system.Common.Ring.{All, All-map, All-both}
use hft_system.OrderBook.Levels.{
  OrdersAtPrice, level_node, Levels, best_of, is_worse, place, add_orders_at_price, price_to_index,
  update, get_orders_at_price, find_target, add_behind, add_before,
}
use hft_system.OrderBook.Levels.Rows.{
  Row, places, heads, insert_row, stops, stop_at, IsLevel, Laid, Edits-levels, insert_row-IsSorted,
  insert_row-Distinct, insert_row-All, insert_row-places, divide, opposite,
}
use hft_system.OrderBook.Levels.Search.{find_target_lem}
use hft_system.OrderBook.Levels.Placed.{Placed}
use hft_system.OrderBook.Levels.Insert.{place_alone, add_last, add_middle, add_first}
use hft_system.OrderBook.Levels.Book.{IsKnown, IsBook, IsUnindexed, length-Laid, Edits-Laid}

List-cases {ℓ} : {A : Type ℓ} (xs : List A) → (xs ≡ []) ⊎ ((y : A) × (ys : List A) × (xs ≡ y ∷ ys))
List-cases [] = inl refl
List-cases (x ∷ xs) = inr (x, xs, refl)

pub update_here {ℓ} : {A : Type ℓ} (f : ℕ → A) (i : ℕ) (v : A) → update f i v i ≡ v
update_here f i v = let same : (i == i) ≡ true = ground arith in rw same

pub update_there {ℓ} :
    {A : Type ℓ} (f : ℕ → A) (i : ℕ) (v : A) (j : ℕ) → i ≢ j → update f i v j ≡ f j
update_there f i v j ne = let other : (j == i) ≡ false = ground (arith, ne) in rw other

place_found :
    (new : ℕ) (level : OrdersAtPrice) (best : ℕ) (b : Levels) (r : ℕ × Bool)
    → find_target level best b.pool ≡ done r
    → place new level (some best) b
      ≡ (if r.1 then add_behind new best r.0 b else add_before new level best r.0 b)
unfolding place
place_found new level best b r h = rw h

module _ (b : Levels) (side : Side) (new : Row) (level : OrdersAtPrice)
    (sided : side ≢ Side.invalid) (of_side : level.side ≡ side) (of_price : level.price ≡ new.price)
    (fresh : IsLive b.pool new.at) where
  place_lem :
      (rows : List Row)
      → Laid b.pool side rows
      → All (λ y. new.at ≢ y) (places rows)
      → All (λ (q : Row). new.price ≢ q.price) rows
      → best_of side b ≡ heads rows
      → (b' : Levels) × (place new.at level (heads rows) b ≡ done b') × Placed b b' side rows new
  place_lem [] laid apart differ head = place_alone b side new level sided of_side of_price fresh
  place_lem (r ∷ rs) laid apart differ head =
      let size = length-Laid b.pool side (r ∷ rs) laid in
      let found : find_target level r.at b.pool
          ≡ done (
              if is_worse side new.price r.price
              then stops side new.price r.at rs
              else (r.at, false)) =
        rw (← of_side, ← of_price)
          (find_target_lem b.pool level side r.at r.price r.first_order rs laid.levels laid.threaded
            laid.distinct.0 (omega arith)) in
      elim (Bool-cases (is_worse side new.price r.price)) [
        | inl worse ↦
            let d = divide side new r.at rs in
            let reached : find_target level r.at b.pool ≡ done (stop_at r.at d.behind) =
              found ∙ rw (worse, d.target) in
            elim (List-cases d.behind) [
              | inl none_behind ↦
                  let (b', ok, p) =
                    add_last b side new level sided of_side of_price fresh r rs laid apart head
                      worse d none_behind in
                  (
                    b',
                    place_found new.at level r.at b (r.at, true)
                          (reached ∙ ap (λ x. done (stop_at r.at x)) none_behind)
                        ∙ ok,
                    p,
                  )
              | inr (q, qs, at_q) ↦
                  let (b', ok, p) =
                    add_middle b side new level sided of_side of_price fresh r rs laid apart head d
                      q qs worse at_q in
                  (
                    b',
                    place_found new.at level r.at b (q.at, false)
                          (reached ∙ ap (λ x. done (stop_at r.at x)) at_q)
                        ∙ ok,
                    p,
                  )
            ]
        | inr better ↦
            let (b', ok, p) =
              add_first b side new level sided of_side of_price fresh r rs laid apart head better
                differ.0 in
            (b', place_found new.at level r.at b (r.at, false) (found ∙ rw better) ∙ ok, p)
      ]

pub best_of-known :
    (side : Side) (b : Levels) (known : ℕ → Option ℕ)
    → best_of side (record b { price_orders_at_price = known }) ≡ best_of side b
unfolding best_of
best_of-known Side.buy b known = refl
best_of-known Side.sell b known = refl
best_of-known Side.invalid b known = refl

pub update-IsKnown :
    (known : ℕ → Option ℕ) (price : ℤ) (v : Option ℕ) (rows : List Row)
    → IsUnindexed price rows
    → IsKnown known rows
    → IsKnown (update known (price_to_index price) v) rows
update-IsKnown known price v [] h k = tt
update-IsKnown known price v (r ∷ rs) h k = (
  update_there known (price_to_index price) v (price_to_index r.price) h.0 ∙ k.0,
  update-IsKnown known price v rs h.1 k.1,
)

-- Different indices come from different prices.
unindexed_differ :
    (price : ℤ) (rows : List Row) → IsUnindexed price rows → All (λ (q : Row). price ≢ q.price) rows
unindexed_differ price [] h = tt
unindexed_differ price (r ∷ rs) h =
    ((λ e. h.0 (ap price_to_index e)), unindexed_differ price rs h.1)

-- What stands for a book after a level was placed in it.
Placed-IsBook :
    (b b' : Levels) (side : Side) (mine theirs : List Row) (new : Row)
    → side ≢ Side.invalid
    → IsBook b side mine theirs
    → IsLevel b.pool side new
    → All (λ y. new.at ≢ y) (places mine)
    → All (λ y. new.at ≢ y) (places theirs)
    → IsUnindexed new.price mine
    → IsUnindexed new.price theirs
    → Placed
        (record b {
          price_orders_at_price =
              update b.price_orders_at_price (price_to_index new.price) (some new.at);
        })
        b'
        side
        mine
        new
    → IsBook b' side (insert_row side new mine) theirs
Placed-IsBook b b' side mine theirs new sided book level free free_other index index_other p =
    let off =
      All-both (λ x. new.at ≢ x) (λ x. All (λ y. x ≢ y) (places mine)) (places theirs) free_other
        book.apart in
    record {
      laid = record {
        levels =
            Edits-levels side (insert_row side new mine) p.edits
              (insert_row-All (IsLevel b.pool side) side new mine level book.laid.levels);
        threaded = p.threaded;
        distinct = insert_row-Distinct side new mine free book.laid.distinct;
        sorted =
            insert_row-IsSorted side new mine sided (unindexed_differ new.price mine index)
              book.laid.sorted;
      };
      laid_other =
          Edits-Laid b.pool b'.pool (opposite side) theirs p.edits
            (All-map _
              (λ j. (next_at b'.pool j ≡ next_at b.pool j) × (prev_at b'.pool j ≡ prev_at b.pool j))
              (places theirs) (λ j h. p.outside j ((λ e. h.0 (sym e)), h.1)) off)
            book.laid_other;
      head = p.head;
      head_other = p.other_head ∙ best_of-known (opposite side) b _ ∙ book.head_other;
      apart =
          All-map _ (λ x. All (λ y. x ≢ y) (places (insert_row side new mine))) (places theirs)
            (λ x h. insert_row-places (λ y. x ≢ y) side new mine (λ e. h.0 (sym e)) h.1) off;
      known = rw p.known (
          insert_row-All _ side new mine
            (update_here b.price_orders_at_price (price_to_index new.price) (some new.at))
            (update-IsKnown b.price_orders_at_price new.price (some new.at) mine index book.known));
      known_other = rw p.known (
          update-IsKnown b.price_orders_at_price new.price (some new.at) theirs index_other
            book.known_other);
    }

-- The operation looks the level up, enters it in the array, and places it.
add_orders_at_price_lem :
    (b : Levels) (new : ℕ) (l : OrdersAtPrice) (price : ℤ) (side : Side) (best : Option ℕ)
    → live b.pool new ≡ some l
    → l.side ≡ side
    → l.price ≡ price
    → best_of side b ≡ best
    → add_orders_at_price new b
      ≡ place new l best (record b {
        price_orders_at_price = update b.price_orders_at_price (price_to_index price) (some new);
      })
unfolding add_orders_at_price
add_orders_at_price_lem b new l price side best at of_side of_price head =
    rw (← head, ← of_side, ← of_price, load-live b.pool new at)

get_orders_at_price_lem :
    (b : Levels) (known : ℕ → Option ℕ) (price : ℤ) (v : Option ℕ)
    → b.price_orders_at_price ≡ update known (price_to_index price) v
    → get_orders_at_price price b ≡ v
unfolding get_orders_at_price
get_orders_at_price_lem b known price v e = rw e (update_here known (price_to_index price) v)

-- Of a book whose rings lay out two sorted sides: a level that is in use in the pool and in neither
-- side, of a valid side, and whose price has an array index that no level of either side has, takes its
-- place in the order of its side, whatever that place is; the other side stays as it is, the level
-- is found by its price, and no object of the pool changes but in its pointers.
pub add_orders_at_price-IsBook :
    (b : Levels) (side : Side) (mine theirs : List Row) (new : Row)
    → side ≢ Side.invalid
    → IsBook b side mine theirs
    → IsLevel b.pool side new
    → All (λ y. new.at ≢ y) (places mine)
    → All (λ y. new.at ≢ y) (places theirs)
    → IsUnindexed new.price mine
    → IsUnindexed new.price theirs
    → (b' : Levels) × (add_orders_at_price new.at b ≡ done b')
      × IsBook b' side (insert_row side new mine) theirs
      × (get_orders_at_price new.price b' ≡ some new.at)
      × Edits b.pool b'.pool
add_orders_at_price-IsBook b side mine theirs new sided book level free free_other index
      index_other =
    let (l, at, of_side, of_price, _) = level in
    let known = update b.price_orders_at_price (price_to_index new.price) (some new.at) in
    let b₀ : Levels = record b { price_orders_at_price = known } in
    let head : best_of side b₀ ≡ heads mine = best_of-known side b known ∙ book.head in
    let (b', ok, p) =
      place_lem b₀ side new l sided of_side of_price (l, at) mine book.laid free
        (unindexed_differ new.price mine index) head in
    (
      b',
      add_orders_at_price_lem b new.at l new.price side (heads mine) at of_side of_price book.head
          ∙ ok,
      Placed-IsBook b b' side mine theirs new sided book level free free_other index index_other p,
      get_orders_at_price_lem b' b.price_orders_at_price new.price (some new.at) p.known,
      p.edits,
    )

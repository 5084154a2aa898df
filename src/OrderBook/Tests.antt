-- ===== src/OrderBook/Tests.antt =====
-- A book with two bids and an ask: a level between the bids joins, and the best bid leaves.
use hft_system.Base.{
  ℕ, ◌≡◌, refl, subst, Option, none, some, List, [], ◌∷◌, ◌++◌, arith, done, ◌==◌, if◌then◌else◌,
  true, false,
}
use hft_system.Base.Int.{pos}
use hft_system.Common.Types.{Side}
use hft_system.Common.MemPool.{MemPool, ObjectBlock, live}
use hft_system.Common.MemPool.Access.{Untouched}
use hft_system.Common.Node.Writes.{Edits}
use hft_system.OrderBook.Levels.{
  OrdersAtPrice, level_node, Levels, best_of, add_orders_at_price, remove_orders_at_price,
  get_orders_at_price, price_to_index,
}
use hft_system.OrderBook.Levels.Rows.{Row, insert_row}
use hft_system.OrderBook.Levels.Book.{IsBook}
use hft_system.OrderBook.Levels.Add.{add_orders_at_price-IsBook}
use hft_system.OrderBook.Levels.Remove.{remove_orders_at_price-IsBook}

abbrev used : Side → ℕ → Option ℕ → Option ℕ → ObjectBlock OrdersAtPrice
used side price prev next = record {
  object = record {
    side = side;
    price = pos price;
    first_order = none;
    prev_entry = prev;
    next_entry = next;
  };
  is_free = false;
}

abbrev free_block : ObjectBlock OrdersAtPrice
free_block = record { object = (used Side.invalid 0 none none).object; is_free = true }

abbrev pool : MemPool OrdersAtPrice
pool = record {
  store =
      used Side.buy 100 (some 1) (some 1)
      ∷ used Side.buy 98 (some 0) (some 0)
      ∷ used Side.buy 99 none none
      ∷ used Side.sell 103 (some 3) (some 3)
      ∷ free_block
      ∷ [];
  next_free_index = 4;
}

abbrev index : ℕ → Option ℕ
index i = if i == 100 then some 0 else if i == 98 then some 1 else if i == 103 then some 3 else none

abbrev book : Levels
book = record {
  pool = pool;
  bids_by_price = some 0;
  asks_by_price = some 3;
  price_orders_at_price = index;
}

abbrev row : ℕ → ℕ → Row
row at price = record { at = at; price = pos price; first_order = none }

abbrev bids : List Row
bids = row 0 100 ∷ row 1 98 ∷ []

abbrev asks : List Row
asks = row 3 103 ∷ []

book-IsBook : IsBook book Side.buy bids asks
unfolding live best_of price_to_index hft_system.OrderBook.Levels.is_worse
book-IsBook = record {
  laid = record {
    levels = ((_, refl, refl, refl, refl), ((_, refl, refl, refl, refl), tt));
    threaded = ((refl, refl), (refl, refl));
    distinct = ((omega arith, tt), (tt, tt));
    sorted = ((refl, tt), (tt, tt));
  };
  laid_other = record {
    levels = ((_, refl, refl, refl, refl), tt);
    threaded = (refl, refl);
    distinct = (tt, tt);
    sorted = (tt, tt);
  };
  head = refl;
  head_other = refl;
  apart = ((omega arith, (omega arith, tt)), tt);
  known = (refl, (refl, tt));
  known_other = (refl, tt);
}

add_orders_at_price-IsBook_example :
    (b' : Levels) × (add_orders_at_price 2 book ≡ done b')
    × IsBook b' Side.buy (insert_row Side.buy (row 2 99) bids) asks
    × (get_orders_at_price (pos 99) b' ≡ some 2)
    × Edits book.pool b'.pool
unfolding live price_to_index
add_orders_at_price-IsBook_example =
    add_orders_at_price-IsBook book Side.buy bids asks (row 2 99) (λ e. absurd (ground arith))
      book-IsBook (_, refl, refl, refl, refl) (omega arith, (omega arith, tt)) (omega arith, tt)
      (omega arith, (omega arith, tt)) (omega arith, tt)

pool-Untouched : Untouched pool
unfolding live
pool-Untouched = record {
  next_in = omega arith;
  free_from =
      λ k from below. let last : 4 ≡ k = omega arith in subst (λ i. live pool i ≡ none) last refl;
}

remove_orders_at_price-IsBook_example :
    (b' : Levels) × (remove_orders_at_price Side.buy (pos 100) book ≡ done b')
    × IsBook b' Side.buy (row 1 98 ∷ []) asks
    × Untouched b'.pool
    × (live b'.pool 0 ≡ none)
    × (get_orders_at_price (pos 100) b' ≡ none)
remove_orders_at_price-IsBook_example =
    remove_orders_at_price-IsBook book Side.buy [] (row 0 100) (row 1 98 ∷ []) asks
      (λ e. absurd (ground arith)) book-IsBook pool-Untouched

placed_first_middle_last :
    (insert_row Side.buy (row 2 101) bids ≡ row 2 101 ∷ bids)
    × (insert_row Side.buy (row 2 99) bids ≡ row 0 100 ∷ row 2 99 ∷ row 1 98 ∷ [])
    × (insert_row Side.buy (row 2 97) bids ≡ bids ++ row 2 97 ∷ [])
unfolding insert_row hft_system.OrderBook.Levels.is_worse
placed_first_middle_last = (refl, refl, refl)

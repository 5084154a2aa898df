-- ===== src/MarketData/SnapshotTests.antt =====
-- A synthesizer that holds one order, whose price and quantity change.
use hft_system.Base.{
  ℕ, zero, suc, ◌≡◌, refl, sym, subst, ◌∙◌, none, some, [], ◌∷◌, if◌then◌else◌, arith, Bool, true,
  false, done,
}
use hft_system.Base.Int.{pos}
use hft_system.Common.Types.{Side}
use hft_system.Common.MemPool.{ObjectBlock, live}
use hft_system.Common.MemPool.Access.{two_left}
use hft_system.MarketData.Updates.{MarketUpdateType, MarketUpdate, MdpMarketUpdate}
use hft_system.MarketData.Snapshot.{Synthesizer}
use hft_system.MarketData.Snapshot.Record.{modified, add_to_snapshot}
use hft_system.MarketData.Snapshot.Record.Held.{pointer, held, here, IsSnapshot}
use hft_system.MarketData.Snapshot.Record.Takes.{add_to_snapshot-IsSnapshot}

abbrev update : MarketUpdateType → ℕ → ℕ → MarketUpdate
update type price qty = record {
  type = type;
  order_id = 1;
  ticker_id = 0;
  side = Side.buy;
  price = pos price;
  qty = qty;
  priority = 1;
}

abbrev block : Bool → ObjectBlock MarketUpdate
block free = record { object = update MarketUpdateType.add 100 5; is_free = free }

abbrev one_order : Synthesizer
one_order = record {
  ticker_orders = (none ∷ some 0 ∷ []) ∷ [];
  last_inc_seq_num = 8;
  order_pool = record { store = block false ∷ block true ∷ block true ∷ []; next_free_index = 1 };
}

-- The one pointer there is.
only : (t i j : ℕ) → pointer one_order t i ≡ some j → (t ≡ 0) × (i ≡ 1) × (j ≡ 0)
only zero zero j e = absurd (ground (arith, e))
only zero (suc zero) j e = (refl, refl, ground (arith, e))
only zero (suc (suc i)) j e = absurd (ground (arith, e))
only (suc t) i j e = absurd (ground (arith, e))

one_order-IsSnapshot : IsSnapshot one_order
unfolding live
one_order-IsSnapshot = record {
  pool = record {
    next_in = omega arith;
    free_from = λ k from below. two_left one_order.order_pool 1 k refl refl from below;
  };
  points = λ t i j e.
      let (_, number, place) = only t i j e in
      (
        update MarketUpdateType.add 100 5,
        subst (λ k. live one_order.order_pool k ≡ some (update MarketUpdateType.add 100 5))
            (sym place) refl,
        sym number,
      );
  apart = λ t i t' i' j e e'.
      let (a, b, _) = only t i j e in let (c, d, _) = only t' i' j e' in (a ∙ sym c, b ∙ sym d);
}

abbrev message : MdpMarketUpdate
message = record { seq_num = 9; me_market_update = update MarketUpdateType.modify 99 3 }

add_to_snapshot-IsSnapshot_example :
    (s' : Synthesizer) × (add_to_snapshot message one_order ≡ done s')
    × IsSnapshot s'
    × ((t i : ℕ)
        → held s' t i ≡ (
            if here (update MarketUpdateType.modify 99 3) t i
            then some
                (modified (update MarketUpdateType.modify 99 3) (update MarketUpdateType.add 100 5))
            else held one_order t i))
    × (s'.last_inc_seq_num ≡ 9)
unfolding live
add_to_snapshot-IsSnapshot_example =
    add_to_snapshot-IsSnapshot message one_order (none ∷ some 0 ∷ []) one_order-IsSnapshot refl refl
      (omega arith) (update MarketUpdateType.add 100 5, refl, refl) (omega arith)

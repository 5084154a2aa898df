-- ===== src/MarketData/Snapshot/Record.antt =====
-- exchange/market_data/snapshot_synthesizer.cpp, `addToSnapshot`: the synthesizer takes in the updates
-- of the incremental stream.
pub mod Held
pub mod Takes
use hft_system.Base.{
  ℕ, ◌+◌, Bool, true, false, Option, none, some, List, [], ◌∷◌, ◌==◌, if◌then◌else◌, get_elem?, set,
  Outcome, done, exits, ◌>>=◌, ◌>>◌, assert,
}
use hft_system.Base.Int.{pos}
use hft_system.Common.Types.{Side}
use hft_system.Common.LfQueue.{add_size}
use hft_system.Common.MemPool.{MemPool, load, modify, allocate, deallocate}
use hft_system.MarketData.Updates.{MarketUpdateType, MarketUpdate, MdpMarketUpdate}
use hft_system.MarketData.Snapshot.{Synthesizer}

-- `array.at(i)`, which throws out of range; nothing catches it in this thread.
abbrev pub in_range {ℓ} : {A : Type ℓ} → Option A → Outcome A
in_range none = exits
in_range (some a) = done a

-- `ASSERT(order != nullptr, ...)`
abbrev pub present : Option ℕ → Outcome ℕ
present none = exits
present (some i) = done i

abbrev pub is_null : Option ℕ → Bool
is_null none = true
is_null (some i) = false

abbrev pub same_side : Side → Side → Bool
same_side Side.buy Side.buy = true
same_side Side.sell Side.sell = true
same_side Side.invalid Side.invalid = true
same_side _ _ = false

-- `orders->at(order_id) = v`
abbrev pub set_entry : ℕ → List (Option ℕ) → ℕ → Option ℕ → Synthesizer → Synthesizer
set_entry ticker_id orders order_id v s = record s {
  ticker_orders = set s.ticker_orders ticker_id (set orders order_id v);
}

unfoldable pub take_add : MarketUpdate → List (Option ℕ) → Synthesizer → Outcome Synthesizer
take_add u orders s = do
  order ← in_range (get_elem? orders u.order_id)
  assert (is_null order)
  (i, p) ← allocate u s.order_pool
  done (set_entry u.ticker_id orders u.order_id (some i) (record s { order_pool = p }))

-- The order that a modify or a cancel is about.
unfoldable pub find_order : MarketUpdate → List (Option ℕ) → Synthesizer → Outcome ℕ
find_order u orders s = do
  entry ← in_range (get_elem? orders u.order_id)
  order ← present entry
  o ← load (some order) s.order_pool
  assert (o.order_id == u.order_id)
  assert (same_side o.side u.side)
  done order

abbrev pub modified : MarketUpdate → MarketUpdate → MarketUpdate
modified u o = record o { qty = u.qty; price = u.price }

unfoldable pub take_modify : MarketUpdate → List (Option ℕ) → Synthesizer → Outcome Synthesizer
take_modify u orders s = do
  order ← find_order u orders s
  p ← modify (some order) (modified u) s.order_pool
  done (record s { order_pool = p })

unfoldable pub take_cancel : MarketUpdate → List (Option ℕ) → Synthesizer → Outcome Synthesizer
take_cancel u orders s = do
  order ← find_order u orders s
  p ← deallocate (pos order) s.order_pool
  done (set_entry u.ticker_id orders u.order_id none (record s { order_pool = p }))

unfoldable pub take_update :
    MarketUpdateType → MarketUpdate → List (Option ℕ) → Synthesizer → Outcome Synthesizer
take_update MarketUpdateType.add u orders s = take_add u orders s
take_update MarketUpdateType.modify u orders s = take_modify u orders s
take_update MarketUpdateType.cancel u orders s = take_cancel u orders s
take_update MarketUpdateType.snapshot_start u orders s = done s
take_update MarketUpdateType.clear u orders s = done s
take_update MarketUpdateType.snapshot_end u orders s = done s
take_update MarketUpdateType.trade u orders s = done s
take_update MarketUpdateType.invalid u orders s = done s

unfoldable pub add_to_snapshot : MdpMarketUpdate → Synthesizer → Outcome Synthesizer
add_to_snapshot market_update s = do
  orders ← in_range (get_elem? s.ticker_orders market_update.me_market_update.ticker_id)
  s' ← take_update market_update.me_market_update.type market_update.me_market_update orders s
  assert (market_update.seq_num == add_size s'.last_inc_seq_num 1)
  done (record s' { last_inc_seq_num = market_update.seq_num })

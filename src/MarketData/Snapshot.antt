-- ===== src/MarketData/Snapshot.antt =====
-- exchange/market_data/snapshot_synthesizer.h and .cpp: the messages of a snapshot.
pub mod Publish
pub mod Record
mod Passes
use hft_system.Base.{
  ℕ, zero, suc, ◌+◌, ◌≡◌, Option, none, some, List, [], ◌∷◌, ◌++◌, Outcome, done, ◌>>=◌,
}
use hft_system.Common.Types.{
  Side, ticker_id_invalid, order_id_invalid, price_invalid, qty_invalid, priority_invalid,
}
use hft_system.Common.LfQueue.{add_size}
use hft_system.Common.MemPool.{MemPool, load}
use hft_system.MarketData.Updates.{MarketUpdateType, MarketUpdate, MdpMarketUpdate}

-- The members of `SnapshotSynthesizer` that a snapshot is made from. A ticker's orders are an array
-- of pointers into the pool.
pub record Synthesizer : Type 0 where
  pub ticker_orders : List (List (Option ℕ))
  pub last_inc_seq_num : ℕ
  pub order_pool : MemPool MarketUpdate

-- `MEMarketUpdate` with its default members.
abbrev pub blank : MarketUpdateType → MarketUpdate
blank type = record {
  type = type;
  order_id = order_id_invalid;
  ticker_id = ticker_id_invalid;
  side = Side.invalid;
  price = price_invalid;
  qty = qty_invalid;
  priority = priority_invalid;
}

-- `{MarketUpdateType::SNAPSHOT_START, last_inc_seq_num_}`
abbrev pub mark : MarketUpdateType → ℕ → MarketUpdate
mark type last_inc_seq_num = record (blank type) { order_id = last_inc_seq_num }

abbrev pub clear_of : ℕ → MarketUpdate
clear_of ticker_id = record (blank MarketUpdateType.clear) { ticker_id = ticker_id }

abbrev pub numbered : ℕ → MarketUpdate → MdpMarketUpdate
numbered seq_num u = record { seq_num = seq_num; me_market_update = u }

-- What is sent, and `snapshot_size` after it.
abbrev pub Sent : Type 0
Sent = List MdpMarketUpdate × ℕ

-- `for (const auto order: orders)`
unfoldable pub publish_orders : MemPool MarketUpdate → ℕ → List (Option ℕ) → Outcome Sent
publish_orders p snapshot_size [] = done ([], snapshot_size)
publish_orders p snapshot_size (none ∷ orders) = publish_orders p snapshot_size orders
publish_orders p snapshot_size (some order ∷ orders) = do
  u ← load (some order) p
  (rest, size) ← publish_orders p (add_size snapshot_size 1) orders
  done (numbered snapshot_size u ∷ rest, size)

-- `for (size_t ticker_id = 0; ticker_id < ticker_orders_.size(); ++ticker_id)`
unfoldable pub publish_tickers :
    MemPool MarketUpdate → ℕ → ℕ → List (List (Option ℕ)) → Outcome Sent
publish_tickers p snapshot_size ticker_id [] = done ([], snapshot_size)
publish_tickers p snapshot_size ticker_id (orders ∷ more) = do
  (sent, size) ← publish_orders p (add_size snapshot_size 1) orders
  (rest, size') ← publish_tickers p size (ticker_id + 1) more
  done (numbered snapshot_size (clear_of ticker_id) ∷ sent ++ rest, size')

unfoldable pub publish_snapshot : Synthesizer → Outcome (List MdpMarketUpdate)
publish_snapshot s = do
  let start = numbered 0 (mark MarketUpdateType.snapshot_start s.last_inc_seq_num)
  (sent, size) ← publish_tickers s.order_pool 1 0 s.ticker_orders
  done (start ∷ sent ++ numbered size (mark MarketUpdateType.snapshot_end s.last_inc_seq_num) ∷ [])

-- ===== src/MarketData/Updates.antt =====
-- exchange/market_data/market_update.h: what the feed carries.
use hft_system.Base.{ℕ, Bool, true, false}
use hft_system.Base.Int.{ℤ}
use hft_system.Common.Types.{Side}

pub data MarketUpdateType : Type 0 where
  invalid clear add modify cancel trade snapshot_start snapshot_end : MarketUpdateType

-- `MEMarketUpdate`
pub record MarketUpdate : Type 0 where
  pub type : MarketUpdateType
  pub order_id : ℕ
  pub ticker_id : ℕ
  pub side : Side
  pub price : ℤ
  pub qty : ℕ
  pub priority : ℕ

-- `MDPMarketUpdate`
pub record MdpMarketUpdate : Type 0 where
  pub seq_num : ℕ
  pub me_market_update : MarketUpdate

abbrev pub is_start : MarketUpdateType → Bool
is_start MarketUpdateType.snapshot_start = true
is_start MarketUpdateType.invalid = false
is_start MarketUpdateType.clear = false
is_start MarketUpdateType.add = false
is_start MarketUpdateType.modify = false
is_start MarketUpdateType.cancel = false
is_start MarketUpdateType.trade = false
is_start MarketUpdateType.snapshot_end = false

abbrev pub is_end : MarketUpdateType → Bool
is_end MarketUpdateType.snapshot_end = true
is_end MarketUpdateType.invalid = false
is_end MarketUpdateType.clear = false
is_end MarketUpdateType.add = false
is_end MarketUpdateType.modify = false
is_end MarketUpdateType.cancel = false
is_end MarketUpdateType.trade = false
is_end MarketUpdateType.snapshot_start = false

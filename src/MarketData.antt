-- ===== src/MarketData.antt =====
-- The market data feed: exchange/market_data/ publishes it, trading/market_data/ takes it in.
pub mod Updates
pub mod Consumer
pub mod Snapshot
pub mod Publisher
mod Tests
mod SnapshotTests
mod PublisherTests

-- ===== src/OrderBook.antt =====
-- The limit order book of a market participant, trading/strategy/market_order_book.h and .cpp: price
-- levels and orders in two pools, threaded by pointers.
pub mod Levels
pub mod Orders
pub mod Market
mod Tests
mod Samples
mod OrderTests

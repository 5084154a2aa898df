-- ===== src/Exchange.antt =====
-- The matching engine of the exchange, exchange/matcher/.
pub mod MeOrderBook
pub mod Matching
pub mod Requests
mod Samples
mod Tests

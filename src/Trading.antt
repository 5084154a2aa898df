-- ===== src/Trading.antt =====
-- A participant's strategy side, trading/strategy/.
pub mod OrderManager
pub mod Doubles
pub mod Positions
pub mod Risk
pub mod Features
pub mod Strategies
pub mod Engine
mod EngineTests
mod RunTests

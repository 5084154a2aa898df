-- ===== src/OrderFlow.antt =====
-- The order flow between the participants and the exchange: exchange/order_server/, trading/order_gw/.
pub mod Server
pub mod Buffer
pub mod Sequencer
pub mod Sending
pub mod Responses
mod Tests
mod SequencerTests

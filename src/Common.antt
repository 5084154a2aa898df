-- ===== src/Common.antt =====
-- The `Common` namespace (utils/): the shared types, the lock-free queue and the memory pool.
pub mod Types
pub mod AlgoTypes
pub mod LfQueue
pub mod MemPool
pub mod Ring
pub mod Node
mod Tests

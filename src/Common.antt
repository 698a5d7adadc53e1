-- ===== src/Common.antt =====
-- The shared containers of include/smartquant/common.
pub mod MemoryPool
pub mod SpscQueue
pub mod TscClock

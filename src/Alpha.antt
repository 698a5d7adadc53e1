-- ===== src/Alpha.antt =====
-- The factors and the signal engine of include/smartquant/alpha and src/alpha.
pub mod Buckets
pub mod DeltaFactor
pub mod CancelFactor
pub mod SignalEngine
mod Tests

-- ===== src/Log.antt =====
-- The ring of raw messages of include/smartquant/log and src/log.
pub mod BinaryLogger

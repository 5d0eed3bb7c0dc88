-- ===== src/Util.antt =====
-- The common utilities: common/include and common/src.
pub mod Codes
pub mod Queue
pub mod Pool
pub mod Logging
mod Tests

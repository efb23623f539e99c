-- ===== src/BlockLog.antt =====
-- The printing of the block log, src/eosio-blocklog2/blocklog.cpp.
pub mod Read
pub mod Range
pub mod Headers

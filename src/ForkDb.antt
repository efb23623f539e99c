-- ===== src/ForkDb.antt =====
-- The printing of the fork database, src/eosio-forkdb/forkdb.cpp.
pub mod Read
pub mod Walk
pub mod Run
pub mod Options
pub mod Main
pub mod Only
pub mod Temporary

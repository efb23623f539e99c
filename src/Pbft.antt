-- ===== src/Pbft.antt =====
-- The printers of the pbft database and of the checkpoints: src/eosio-pbftdb and
-- src/eosio-checkpoints.
pub mod Index
pub mod Types
pub mod Read
pub mod Printed

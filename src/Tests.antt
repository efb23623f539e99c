-- ===== src/Tests.antt =====
pub mod Digest
pub mod Merkle
pub mod Launcher
pub mod BlockLog
pub mod ForkDb
pub mod ForkDbMain
pub mod Pbft
pub mod Commands
pub mod Config
pub mod Starting
pub mod Servers
pub mod Topology
pub mod Layers
pub mod Bytes

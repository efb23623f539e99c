-- ===== src/Merkle.antt =====
-- src/merkle/incremental_merkle.cpp: a chain of simulated blocks, each with the incremental merkle
-- tree of the ids of all blocks before it, and merkle paths from a block to a later anchor block.
-- A layer counts from 1 at the leaves upwards, and so does an index within a layer from left to
-- right. `none` is undefined behaviour, and an error return is the value that the source returns.
pub mod Digest
pub mod Chain
pub mod Position
pub mod Node
pub mod Path
pub mod Tree
pub mod Active
pub mod Cover
pub mod Value
pub mod Way
pub mod Layers
pub mod LayersCorrect
pub mod Correct
pub mod Sim
pub mod Start
pub mod SimCorrect
pub mod Faults

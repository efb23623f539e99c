-- ===== src/Merkle/Chain.antt =====
-- The vector `sim_chain` of src/merkle/incremental_merkle.cpp and its two accessors.
use eos_tools.Prelude.{ℕ, Option, none, some, List, [], ◌∷◌, ◌>>=◌, get_elem?}
use eos_tools.Prelude.Word.{sub32}
use eos_tools.Merkle.Digest.{IncrementalMerkle}

pub record SimBlock (D : Type 0) : Type 0 where
  pub block_num : ℕ
  pub block_id : D
  pub blockroot_merkle : IncrementalMerkle D

module _ {D : Type 0} where
  -- `sim_chain[ block_num - sim_chain.front().block_num ]`
  unfoldable pub block_by_num : List (SimBlock D) → ℕ → Option (SimBlock D)
  block_by_num [] num = none
  block_by_num (b ∷ bs) num = get_elem? (b ∷ bs) (sub32 num b.block_num)

  unfoldable pub get_block_id_by_num : List (SimBlock D) → ℕ → Option D
  get_block_id_by_num sim_chain num = do b ← block_by_num sim_chain num; some b.block_id

  unfoldable pub get_inc_merkle_by_block_num : List (SimBlock D) → ℕ → Option (IncrementalMerkle D)
  get_inc_merkle_by_block_num sim_chain num = do
    b ← block_by_num sim_chain num
    some b.blockroot_merkle

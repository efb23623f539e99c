-- ===== src/Pbft/Types.antt =====
-- The states of src/eosio-pbftdb/pbft_database.hpp and src/eosio-checkpoints/checkpoints.hpp, and the
-- order of the index that each tool prints. `I` is the type of sha256 values, `K` that of public
-- keys and `G` that of signatures; a time point is a number.
use eos_tools.Prelude.{ℕ, Bool, true, false, List, ◌≤◌, ◌≡◌, ◌⊎◌}
use eos_tools.Prelude.Text.{String}

pub record PbftPrepare (I K G : Type 0) : Type 0 where
  pub uuid : String
  pub view : ℕ
  pub block_num : ℕ
  pub block_id : I
  pub public_key : K
  pub chain_id : I
  pub producer_signature : G
  pub timestamp : ℕ

pub record PbftCommit (I K G : Type 0) : Type 0 where
  pub uuid : String
  pub view : ℕ
  pub block_num : ℕ
  pub block_id : I
  pub public_key : K
  pub chain_id : I
  pub producer_signature : G
  pub timestamp : ℕ

pub record PbftState (I K G : Type 0) : Type 0 where
  pub block_id : I
  pub block_num : ℕ
  pub prepares : List (PbftPrepare I K G)
  pub should_prepared : Bool
  pub commits : List (PbftCommit I K G)
  pub should_committed : Bool

pub record PbftCheckpoint (I K G : Type 0) : Type 0 where
  pub uuid : String
  pub block_num : ℕ
  pub block_id : I
  pub public_key : K
  pub chain_id : I
  pub producer_signature : G
  pub timestamp : ℕ

pub record PbftCheckpointState (I K G : Type 0) : Type 0 where
  pub block_id : I
  pub block_num : ℕ
  pub checkpoints : List (PbftCheckpoint I K G)
  pub is_stable : Bool

module _ {I K G : Type 0} where
  -- `by_num`, with `less<>`.
  abbrev pub ByNum : PbftCheckpointState I K G → PbftCheckpointState I K G → Type 0
  ByNum a b = a.block_num ≤ b.block_num

  -- `by_commit_and_num`, with `greater<>` twice: the committed states first, then by falling number.
  abbrev pub ByCommitAndNum : PbftState I K G → PbftState I K G → Type 0
  ByCommitAndNum a b =
      ((a.should_committed ≡ true) × (b.should_committed ≡ false))
      ⊎ ((a.should_committed ≡ b.should_committed) × (b.block_num ≤ a.block_num))

-- ===== src/Tests/Merkle.antt =====
-- Runs and instances of src/merkle/incremental_merkle.cpp.
use eos_tools.Prelude.{
  ℕ, ◌+◌, ◌*◌, ◌^◌, ◌≤◌, ◌<◌, ◌≡◌, ◌↔◌, ◌⊎◌, refl, ap, true, none, some, List, [], ◌∷◌, arith, All,
  length,
}
use eos_tools.Merkle.Digest.{IncrementalMerkle}
use eos_tools.Merkle.Chain.{SimBlock}
use eos_tools.Merkle.Node.{get_inc_merkle_full_branch_root_cover_from}
use eos_tools.Merkle.Path.{get_block_id_merkle_path_to_anchor_block, verify_merkle_path}
use eos_tools.Merkle.Tree.{Tree, Active, Realizes, Blocks}
use eos_tools.Merkle.Cover.{Covered}
use eos_tools.Merkle.Value.{inc_merkle_found}
use eos_tools.Merkle.Correct.{cover_found}
use eos_tools.Merkle.Start.{node_from, tree_from, IsStart-zero}
use eos_tools.Merkle.Sim.{fill_loop, main}
use eos_tools.Merkle.SimCorrect.{path_verifies, length-fill_loop, fill_loop-Blocks, main_yes}
use eos_tools.Merkle.Faults.{path_from_zero, verify_faults}
use eos_tools.Tests.Digest.{ops, ops_laws, ops_grows}

abbrev digest : ℕ → ℕ
digest i = i * 7 + 3

abbrev genesis : SimBlock ℕ
genesis = record {
  block_num = 1;
  block_id = digest 1;
  blockroot_merkle = record { node_count = 0; active_nodes = [] };
}

-- Blocks 1 to 21.
abbrev chain : List (SimBlock ℕ)
chain = fill_loop ops digest 20 2 genesis

abbrev tree : Tree ops 0
tree = tree_from ops 0 0 digest

chain-Blocks : Blocks tree.node 0 chain
unfolding tree_from node_from
chain-Blocks =
    fill_loop-Blocks ops ops_laws ops_grows digest tree 20 2 0 genesis
      (λ i n h e. ap digest (omega arith)) (omega arith) (omega arith) (omega arith) (omega arith)
      refl refl (record { counted = refl; active = Active.top refl })

length-chain : length chain ≡ 21
length-chain = length-fill_loop ops digest 20 2 genesis

path_from_zero_example : get_block_id_merkle_path_to_anchor_block ops chain 0 14 ≡ none
path_from_zero_example =
    path_from_zero ops tree chain chain-Blocks (rw length-chain (omega arith)) 13 (omega arith)
      (omega arith) (rw length-chain (omega arith))

path_verifies_example :
    (path : List ℕ) × (get_block_id_merkle_path_to_anchor_block ops chain 6 14 ≡ some path)
    × (verify_merkle_path ops path ≡ some true)
path_verifies_example =
    path_verifies ops ops_laws tree chain chain-Blocks (rw length-chain (omega arith)) IsStart-zero
      6 14 (omega arith) (omega arith) (rw length-chain (omega arith))

main_yes_example : All (λ r. r.2 ≡ some true) (main ops digest)
main_yes_example = main_yes ops ops_laws ops_grows digest

small : 0 + length chain < 2 ^ 31
small = rw length-chain (omega arith)

-- The tree of block 14.
abbrev anchor : IncrementalMerkle ℕ
anchor =
    (inc_merkle_found ops tree chain chain-Blocks small 13 (omega arith)
      (rw length-chain (omega arith))).0

anchor-Realizes : Realizes tree.node 13 anchor
anchor-Realizes =
    (inc_merkle_found ops tree chain chain-Blocks small 13 (omega arith)
      (rw length-chain (omega arith))).2

cover_found_example :
    Covered tree.node 5 13 (get_inc_merkle_full_branch_root_cover_from ops 6 anchor)
cover_found_example =
    cover_found ops ops_laws tree 5 13 anchor anchor-Realizes (omega arith) (omega arith)

verify_faults_example :
    (verify_merkle_path ops (3 ∷ 4 ∷ []) ≡ none) ↔ ((◌≡◌ {A = ℕ} 2 2) ⊎ (2 ^ 31 + 2 ≤ 2))
verify_faults_example = verify_faults ops (3 ∷ 4 ∷ []) (omega arith)

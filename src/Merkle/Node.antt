-- ===== src/Merkle/Node.antt =====
-- The walks over the active nodes of an incremental merkle tree in
-- src/merkle/incremental_merkle.cpp: the node of a layer, the full branch that covers a block, and
-- the value of a node in a full sub branch.
use eos_tools.Prelude.{
  ℕ, zero, suc, ◌+◌, ◌-◌, ◌/◌, ◌%◌, Bool, true, false, ◌&&◌, not, Option, none, some, List, [], ◌∷◌,
  ltb, leb, ◌==◌, if◌then◌else◌, ◌>>=◌, back?,
}
use mathlib.Core.List.{head?}
use eos_tools.Prelude.Word.{u32_mod, add32, sub32, shl32}
use eos_tools.Merkle.Digest.{IncrementalMerkle, DigestOps}
use eos_tools.Merkle.Chain.{SimBlock, get_block_id_by_num, get_inc_merkle_by_block_num}
use eos_tools.Merkle.Position.{is_odd}

-- `*active_iter; ++active_iter`, where `active` is what the iterator has before it.
unfoldable pub take_active : {D : Type 0} → List D → Option (D × List D)
take_active [] = none
take_active (x ∷ xs) = some (x, xs)

-- `first <= from_block_num && from_block_num <= last`
unfoldable pub covers : ℕ → ℕ → ℕ → Bool
covers from_block_num index diff =
    let last = shl32 index diff in
    let first = add32 (sub32 last (shl32 1 diff)) 1 in
    leb first from_block_num && leb from_block_num last

module _ {D : Type 0} (o : DigestOps D) where
  open o use {zero_digest, beq, hash, make_canonical_pair, calcluate_max_depth}

  -- `while ( current_layer < max_layers )`, with the number of rounds that are left.
  unfoldable pub left_node_loop : ℕ → ℕ → ℕ → ℕ → List D → Option D
  unfolding take_active
  left_node_loop zero current_layer layer index active = some zero_digest
  left_node_loop (suc rounds) current_layer layer index active = do
    (current_layer_node, active') ←
        (if is_odd index then take_active active else some (zero_digest, active))
    let rest = left_node_loop rounds (current_layer + 1) layer (index / 2) active'
    if current_layer == layer then some current_layer_node else rest

  unfoldable pub get_inc_merkle_layer_left_node : IncrementalMerkle D → ℕ → Option D
  get_inc_merkle_layer_left_node inc_mkl layer =
      let max_layers = calcluate_max_depth inc_mkl.node_count in
      if inc_mkl.node_count == 0
      then some zero_digest
      else if leb max_layers layer
      then some zero_digest
      else if layer == 1
      then back? inc_mkl.active_nodes
      else left_node_loop (max_layers - 1) 1 layer inc_mkl.node_count inc_mkl.active_nodes

  -- `while (current_layer <= max_layers )`, with the number of rounds that are left; the result is
  -- the layer, the index and the value, or the value-initialised tuple.
  unfoldable pub cover_loop : ℕ → ℕ → ℕ → ℕ → List D → Option (ℕ × ℕ × D)
  unfolding take_active
  cover_loop zero from_block_num current_layer index active = some (0, 0, zero_digest)
  cover_loop (suc rounds) from_block_num current_layer index active = elim (is_odd index) [
    | true ↦ do
      (current_layer_node, active') ← take_active active
      let rest = cover_loop rounds from_block_num (current_layer + 1) (index / 2) active'
      if covers from_block_num index (current_layer - 1)
          then some (current_layer, index % u32_mod, current_layer_node)
          else rest
    | false ↦ cover_loop rounds from_block_num (current_layer + 1) (index / 2) active
  ]

  unfoldable pub get_inc_merkle_full_branch_root_cover_from :
      ℕ → IncrementalMerkle D → Option (ℕ × ℕ × D)
  get_inc_merkle_full_branch_root_cover_from from_block_num inc_mkl =
      if ltb inc_mkl.node_count from_block_num
      then some (0, 0, zero_digest)
      else cover_loop (calcluate_max_depth inc_mkl.node_count) from_block_num 1 inc_mkl.node_count
          inc_mkl.active_nodes

  -- `digest_type::hash(make_canonical_pair(left, right))`
  unfoldable pub hash_pair : D → D → D
  hash_pair left right = hash (make_canonical_pair left right)

  -- `while ( current_layer < layer )`, with the number of rounds that are left.
  unfoldable pub hash_up_loop : ℕ → List D → D → Option D
  unfolding take_active
  hash_up_loop zero active top = some top
  hash_up_loop (suc rounds) active top = do
    (left_value, active') ← take_active active
    hash_up_loop rounds active' (hash_pair left_value top)

  -- The even case: the last block under the node ends a full sub branch.
  unfoldable pub right_node_value : List (SimBlock D) → ℕ → ℕ → Option D
  right_node_value sim_chain layer index = do
    let block_num = shl32 index (layer - 1)
    inc_merkle ← get_inc_merkle_by_block_num sim_chain block_num
    block_id ← get_block_id_by_num sim_chain block_num
    hash_up_loop (layer - 1) inc_merkle.active_nodes block_id

  -- The odd case where the reference tree does not have the node.
  unfoldable pub left_node_value : List (SimBlock D) → ℕ → ℕ → Option D
  left_node_value sim_chain layer index = do
    inc_merkle ← get_inc_merkle_by_block_num sim_chain (add32 (shl32 index (layer - 1)) 1)
    head? inc_merkle.active_nodes

  unfoldable pub get_merkle_node_value_in_full_sub_branch :
      List (SimBlock D) → IncrementalMerkle D → ℕ → ℕ → Option D
  get_merkle_node_value_in_full_sub_branch sim_chain reference layer index =
      if ltb layer 2
      then some zero_digest
      else if is_odd index
      then (if ltb layer (calcluate_max_depth reference.node_count)
          then (do
            ret ← get_inc_merkle_layer_left_node reference layer
            if not (beq ret zero_digest) then some ret else left_node_value sim_chain layer index)
          else left_node_value sim_chain layer index)
      else right_node_value sim_chain layer index

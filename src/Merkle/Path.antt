-- ===== src/Merkle/Path.antt =====
-- The merkle path from a block to an anchor block, and its check, of
-- src/merkle/incremental_merkle.cpp.
use eos_tools.Prelude.{
  ℕ, zero, suc, ◌+◌, ◌-◌, ◌%◌, ◌^◌, Bool, true, false, ◌||◌, not, Option, some, List, [], ◌∷◌, ◌++◌,
  leb, ◌==◌, if◌then◌else◌, ◌>>=◌, length, get_elem?, back?, without_back,
}
use eos_tools.Prelude.Word.{add32, sub32, as_int}
use eos_tools.Merkle.Digest.{IncrementalMerkle, DigestOps}
use eos_tools.Merkle.Chain.{SimBlock, get_block_id_by_num, get_inc_merkle_by_block_num}
use eos_tools.Merkle.Position.{is_odd, get_merkle_path_positions_to_layer_in_full_branch}
use eos_tools.Merkle.Node.{
  get_inc_merkle_full_branch_root_cover_from, get_merkle_node_value_in_full_sub_branch, hash_pair,
}

-- The first two elements: the block and its neighbour, left one first.
unfoldable pub first_two : {D : Type 0} → List (SimBlock D) → ℕ → Option (D × D)
first_two sim_chain from_block_num =
    if from_block_num % 2 == 1
    then (do
      a ← get_block_id_by_num sim_chain from_block_num
      b ← get_block_id_by_num sim_chain (add32 from_block_num 1)
      some (a, b))
    else (do
      a ← get_block_id_by_num sim_chain (sub32 from_block_num 1)
      b ← get_block_id_by_num sim_chain from_block_num
      some (a, b))

module _ {D : Type 0} (o : DigestOps D) where
  open o use {beq, hash, make_canonical_left, make_canonical_right, is_canonical_left}

  -- The sibling at each position, marked for its side.
  unfoldable pub siblings_loop :
      List (SimBlock D) → IncrementalMerkle D → List (ℕ × ℕ) → Option (List D)
  siblings_loop sim_chain reference [] = some []
  siblings_loop sim_chain reference ((layer, index) ∷ position_path) = do
    value ← get_merkle_node_value_in_full_sub_branch o sim_chain reference layer index
    rest ← siblings_loop sim_chain reference position_path
    some ((if is_odd index then make_canonical_left value else make_canonical_right value) ∷ rest)

  unfoldable pub get_block_id_merkle_path_to_anchor_block :
      List (SimBlock D) → ℕ → ℕ → Option (List D)
  get_block_id_merkle_path_to_anchor_block sim_chain from_block_num anchor_block_num =
      if leb anchor_block_num from_block_num then some [] else do
        anchor ← get_inc_merkle_by_block_num sim_chain anchor_block_num
        (full_root_layer, full_root_index, full_root_value) ←
            get_inc_merkle_full_branch_root_cover_from o from_block_num anchor
        if full_root_layer == 1 then some (full_root_value ∷ []) else do
          let position_path =
              get_merkle_path_positions_to_layer_in_full_branch from_block_num full_root_layer
          (last_layer, last_index) ← back? position_path
          if not (last_layer == full_root_layer) || not (last_index == full_root_index)
              then some []
              else do
                (a, b) ← first_two sim_chain from_block_num
                reference ← get_inc_merkle_by_block_num sim_chain from_block_num
                siblings ← siblings_loop sim_chain reference (without_back position_path)
                some (a ∷ b ∷ siblings ++ full_root_value ∷ [])

  -- One round: the next element is the left or the right partner of what was found so far.
  unfoldable pub combine : D → D → D
  combine result node =
      if is_canonical_left node
      then hash (node, make_canonical_right result)
      else hash (make_canonical_left result, node)

  unfoldable pub verify_loop : ℕ → ℕ → List D → D → Option D
  unfolding combine
  verify_loop zero i merkle_path result = some result
  verify_loop (suc rounds) i merkle_path result = do
    next ← as_int (i + 2)
    node ← get_elem? merkle_path next
    verify_loop rounds (i + 1) merkle_path (combine result node)

  -- The bound `merkle_path.size() - 3` of the loop is a `size_t`.
  unfoldable pub verify_merkle_path : List D → Option Bool
  verify_merkle_path [] = some false
  verify_merkle_path (p ∷ []) = some true
  verify_merkle_path (p ∷ q ∷ rest) = do
    let merkle_path = p ∷ q ∷ rest
    let bound = (length merkle_path + 2 ^ 64 - 3) % 2 ^ 64
    result ← verify_loop bound 0 merkle_path (hash_pair o p q)
    root ← back? merkle_path
    some (beq result root)

-- ===== src/Merkle/Position.antt =====
-- get_merkle_path_positions_to_layer_in_full_branch of src/merkle/incremental_merkle.cpp: the
-- positions of the siblings on the way up, and of the root of the full branch at the end.
use eos_tools.Prelude.{
  ℕ, zero, suc, ◌+◌, ◌-◌, ◌/◌, ◌%◌, Bool, List, [], ◌∷◌, ◌++◌, ltb, ◌==◌, if◌then◌else◌,
}
use eos_tools.Prelude.Word.{add32, sub32}

-- `x & 0x1`
abbrev pub is_odd : ℕ → Bool
is_odd x = x % 2 == 1

-- nodes in layer range [ 2, max_layers ]
-- The loop makes `to_layer - 2` rounds.
unfoldable pub positions_loop : ℕ → ℕ → ℕ → List (ℕ × ℕ) × ℕ
positions_loop zero current_layer index = ([], index)
positions_loop (suc rounds) current_layer index =
    let half = add32 index 1 / 2 in
    let rest = positions_loop rounds (current_layer + 1) half in
    let sibling = if is_odd half then add32 half 1 else sub32 half 1 in
    ((current_layer, sibling) ∷ rest.0, rest.1)

unfoldable pub get_merkle_path_positions_to_layer_in_full_branch : ℕ → ℕ → List (ℕ × ℕ)
get_merkle_path_positions_to_layer_in_full_branch from_block_num to_layer =
    if ltb to_layer 2
    then []
    else let (path, index) = positions_loop (to_layer - 2) 2 from_block_num in
      path ++ (to_layer, add32 index 1 / 2) ∷ []

-- ===== src/Tests/Layers.antt =====
-- The layers of three digests.
use eos_tools.Prelude.{ℕ, some, List, [], ◌∷◌, ◌≡◌, refl, arith}
use eos_tools.Prelude.Word.{as_int}
use eos_tools.Merkle.Node.{hash_pair}
use eos_tools.Merkle.Layers.{
  Line, layer_line, id_line, root_line, print_merkle_tree, layers_loop, next_layer, make_even,
  pairs_loop, set, resize, id_lines,
}
use eos_tools.Merkle.LayersCorrect.{Layers, print_merkle_tree-Layers}
use eos_tools.Tests.Digest.{ops}

three_layers :
    print_merkle_tree ops (3 ∷ 5 ∷ 6 ∷ [])
    ≡ some (
        layer_line 0
        ∷ id_line 0 3
        ∷ id_line 1 5
        ∷ id_line 2 6
        ∷ layer_line 1
        ∷ id_line 0 (hash_pair ops 3 5)
        ∷ id_line 1 (hash_pair ops 6 6)
        ∷ root_line (hash_pair ops (hash_pair ops 3 5) (hash_pair ops 6 6))
        ∷ [])
unfolding print_merkle_tree layers_loop next_layer make_even pairs_loop set resize id_lines as_int
    hash_pair
three_layers = refl

print_merkle_tree-Layers_example :
    (lines : List (Line ℕ)) × (print_merkle_tree ops (3 ∷ 5 ∷ 6 ∷ []) ≡ some lines)
    × Layers ops 0 (3 ∷ 5 ∷ 6 ∷ []) lines
print_merkle_tree-Layers_example = print_merkle_tree-Layers ops 3 (5 ∷ 6 ∷ []) (omega arith)

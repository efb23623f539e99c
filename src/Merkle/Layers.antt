-- ===== src/Merkle/Layers.antt =====
-- `print_merkle_tree` of src/merkle/incremental_merkle.cpp: the layers of a merkle tree over digests,
-- each computed in place of the one below. The indexes and the layer are of type `int`, of which an
-- overflow is undefined behaviour. What is written is a list of lines, of which the text of a digest
-- is fc's.
use eos_tools.Prelude.{
  ℕ, zero, suc, true, false, Option, none, some, List, [], ◌∷◌, ◌++◌, ◌+◌, ◌*◌, ◌/◌, ◌%◌, ◌==◌, ltb,
  length, get_elem?, back?, if◌then◌else◌, ◌>>=◌,
}
use eos_tools.Prelude.Word.{as_int}
use eos_tools.Merkle.Digest.{DigestOps}
use eos_tools.Merkle.Node.{hash_pair}

pub data Line (D : Type 0) : Type 0 where
  layer_line : ℕ → Line D
  id_line : ℕ → D → Line D
  root_line : D → Line D

module _ {D : Type 0} where
  unfoldable pub id_lines : ℕ → List D → Option (List (Line D))
  id_lines i [] = some []
  id_lines i (d ∷ ids) = do
    next ← as_int (i + 1)
    lines ← id_lines next ids
    some (id_line i d ∷ lines)

  -- `ids[i] = d`
  unfoldable pub set : List D → ℕ → D → Option (List D)
  set [] i d = none
  set (x ∷ ids) zero d = some (d ∷ ids)
  set (x ∷ ids) (suc i) d = do later ← set ids i d; some (x ∷ later)

  -- `ids.resize(count)`, for `count` elements at most.
  unfoldable pub resize : List D → ℕ → List D
  resize ids zero = []
  resize [] (suc count) = []
  resize (x ∷ ids) (suc count) = x ∷ resize ids count

  -- `if( ids.size() % 2 ) ids.push_back(ids.back());`
  unfoldable pub make_even : List D → Option (List D)
  make_even ids =
      if length ids % 2 == 0 then some ids else (do last ← back? ids; some (ids ++ last ∷ []))

  module _ (o : DigestOps D) where
    -- The loop over the pairs from `i` on.
    unfoldable pub pairs_loop : ℕ → ℕ → List D → Option (List D)
    pairs_loop zero i ids = some ids
    pairs_loop (suc count) i ids = do
      even ← as_int (2 * i)
      left ← get_elem? ids even
      odd ← as_int (2 * i + 1)
      right ← get_elem? ids odd
      written ← set ids i (hash_pair o left right)
      next ← as_int (i + 1)
      pairs_loop count next written

    unfoldable pub next_layer : List D → Option (List D)
    next_layer ids = do
      evened ← make_even ids
      hashed ← pairs_loop (length evened / 2) 0 evened
      some (resize hashed (length evened / 2))

    -- The loop over the layers; `none` also where the rounds do not do.
    unfoldable pub layers_loop : ℕ → ℕ → List D → Option (List (Line D))
    layers_loop zero layer ids = none
    layers_loop (suc rounds) layer ids = elim (ltb 1 (length ids)) [
      | false ↦ (do root ← get_elem? ids 0; some (root_line root ∷ []))
      | true ↦ (do
        next ← as_int (layer + 1)
        shown ← id_lines 0 ids
        above ← next_layer ids
        lines ← layers_loop rounds next above
        some (layer_line layer ∷ shown ++ lines))
    ]

    -- A layer has fewer digests than the one below, so that their number is enough for the rounds.
    unfoldable pub print_merkle_tree : List D → Option (List (Line D))
    print_merkle_tree [] = some []
    print_merkle_tree (d ∷ ids) = layers_loop (length (d ∷ ids)) 0 (d ∷ ids)

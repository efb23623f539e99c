-- ===== src/Merkle/LayersCorrect.antt =====
-- The layers that `print_merkle_tree` of src/merkle/incremental_merkle.cpp computes in place.
use eos_tools.Prelude.{
  ℕ, zero, suc, Bool, true, false, Option, none, some, List, [], ◌∷◌, ◌++◌, ◌+◌, ◌*◌, ◌/◌, ◌^◌, ◌%◌,
  ◌==◌, ◌<◌, ◌≤◌, ◌≡◌, refl, ap, sym, ◌∙◌, lt→ltb, length, length-append, get_elem?,
  get_elem?-append, back?, if◌then◌else◌, ◌>>=◌, arith,
}
use mathlib.Core.List.{append_assoc, append-nil}
use eos_tools.Prelude.Word.{int_mod, as_int_lem}
use eos_tools.Merkle.Digest.{DigestOps}
use eos_tools.Merkle.Node.{hash_pair}
use eos_tools.Merkle.Layers.{
  Line, layer_line, id_line, root_line, id_lines, set, resize, make_even, pairs_loop, next_layer,
  layers_loop, print_merkle_tree,
}

module _ {D : Type 0} where
  -- The last digest twice where their number is odd.
  unfoldable evened : List D → List D
  evened [] = []
  evened (a ∷ []) = a ∷ a ∷ []
  evened (a ∷ b ∷ ids) = a ∷ b ∷ evened ids

  abbrev IsPaired : List D → Type 0
  IsPaired [] = Unit
  IsPaired (a ∷ []) = ⊥
  IsPaired (a ∷ b ∷ ids) = IsPaired ids

  evened-IsPaired : (ids : List D) → IsPaired (evened ids)
  unfolding evened
  evened-IsPaired [] = tt
  evened-IsPaired (a ∷ []) = tt
  evened-IsPaired (a ∷ b ∷ ids) = evened-IsPaired ids

  length-evened : (ids : List D) → length (evened ids) ≤ suc (length ids)
  unfolding evened
  length-evened [] = omega arith
  length-evened (a ∷ []) = omega arith
  length-evened (a ∷ b ∷ ids) = omega (arith, length-evened ids)

  -- The digests of a layer with their indexes.
  abbrev pub numbered : ℕ → List D → List (Line D)
  numbered i [] = []
  numbered i (d ∷ ids) = id_line i d ∷ numbered (i + 1) ids

  id_lines-numbered :
      (ids : List D) (i : ℕ) → i + length ids < int_mod → id_lines i ids ≡ some (numbered i ids)
  unfolding id_lines
  id_lines-numbered [] i h = refl
  id_lines-numbered (d ∷ ids) i h =
      rw (as_int_lem (i + 1) (omega arith), id_lines-numbered ids (i + 1) (omega arith)) refl

  make_even-cons :
      (a b c : D) (ids : List D)
      → make_even (a ∷ b ∷ c ∷ ids) ≡ (make_even (c ∷ ids) >>= λ later. some (a ∷ b ∷ later))
  unfolding make_even
  make_even-cons a b c ids =
      let same : (length (a ∷ b ∷ c ∷ ids) % 2 == 0) ≡ (length (c ∷ ids) % 2 == 0) =
        ap (λ n. n == 0) (omega arith) in
      rw same (by_parity (length (c ∷ ids) % 2 == 0) (back? (c ∷ ids)))
    where
      by_parity :
          (even : Bool) (last : Option D)
          → (if even
              then some (a ∷ b ∷ c ∷ ids)
              else (last >>= λ l. some ((a ∷ b ∷ c ∷ ids) ++ l ∷ [])))
            ≡ ((if even then some (c ∷ ids) else (last >>= λ l. some ((c ∷ ids) ++ l ∷ [])))
                >>= λ later. some (a ∷ b ∷ later))
      by_parity true last = refl
      by_parity false none = refl
      by_parity false (some l) = refl

  make_even_lem : (ids : List D) → make_even ids ≡ some (evened ids)
  unfolding evened make_even
  make_even_lem [] = refl
  make_even_lem (a ∷ []) = refl
  make_even_lem (a ∷ b ∷ []) = refl
  make_even_lem (a ∷ b ∷ c ∷ ids) = make_even-cons a b c ids ∙ rw (make_even_lem (c ∷ ids)) refl

  set-append :
      (xs : List D) (x d : D) (ys : List D) → set (xs ++ x ∷ ys) (length xs) d ≡ some (xs ++ d ∷ ys)
  unfolding set
  set-append [] x d ys = refl
  set-append (y ∷ xs) x d ys = rw (set-append xs x d ys) refl

  resize-append : (xs ys : List D) → resize (xs ++ ys) (length xs) ≡ xs
  unfolding resize
  resize-append [] ys = by_rest ys
    where
      by_rest : (ys : List D) → resize ys 0 ≡ []
      by_rest [] = refl
      by_rest (y ∷ ys) = refl
  resize-append (x ∷ xs) ys = ap (λ l. x ∷ l) (resize-append xs ys)

  -- The list that begins with what stands before two digests.
  uncons :
      (junk : List D) (a b : D)
      → (x : D) × (rest : List D) × (junk ++ a ∷ b ∷ [] ≡ x ∷ rest)
        × (length rest ≡ suc (length junk))
  uncons [] a b = (a, b ∷ [], refl, refl)
  uncons (j ∷ junk) a b =
      (j, junk ++ a ∷ b ∷ [], refl, length-append junk (a ∷ b ∷ []) ∙ omega arith)

  get_at :
      (xs : List D) (x : D) (ys ids : List D) (i : ℕ)
      → ids ≡ xs ++ x ∷ ys
      → i ≡ length xs
      → get_elem? ids i ≡ some x
  get_at xs x ys ids i e h = rw (e, h) (get_elem?-append xs x ys)

  module _ (o : DigestOps D) where
    -- The layer above: the hashes of the pairs, a last digest with itself.
    unfoldable pub pairs : List D → List D
    pairs [] = []
    pairs (a ∷ []) = hash_pair o a a ∷ []
    pairs (a ∷ b ∷ ids) = hash_pair o a b ∷ pairs ids

    pairs-evened : (ids : List D) → pairs (evened ids) ≡ pairs ids
    unfolding pairs evened
    pairs-evened [] = refl
    pairs-evened (a ∷ []) = refl
    pairs-evened (a ∷ b ∷ ids) = ap (λ l. hash_pair o a b ∷ l) (pairs-evened ids)

    length-pairs : (ids : List D) → IsPaired ids → length ids / 2 ≡ length (pairs ids)
    unfolding pairs
    length-pairs [] h = refl
    length-pairs (a ∷ []) h = absurd h
    length-pairs (a ∷ b ∷ ids) h =
        let later : length ids / 2 ≡ length (pairs ids) = length-pairs ids h in omega arith

    -- `ahead` is written, `junk` is read but not yet written over, and `rest` is to come.
    loop_pairs :
        (rest ids ahead junk : List D) (i : ℕ)
        → IsPaired rest
        → ids ≡ ahead ++ (junk ++ rest)
        → i ≡ length ahead
        → length junk ≡ i
        → 2 * i + length rest ≤ int_mod
        → (old : List D) × (pairs_loop o (length (pairs rest)) i ids
            ≡ some ((ahead ++ pairs rest) ++ old))
    unfolding pairs_loop pairs
    loop_pairs [] ids ahead junk i p e n m z = (
      junk,
      ap some (
          e
          ∙ ap (λ l. ahead ++ l) (append-nil junk)
          ∙ ap (λ l. l ++ junk) (sym (append-nil ahead))),
    )
    loop_pairs (a ∷ []) ids ahead junk i p e n m z = absurd p
    loop_pairs (a ∷ b ∷ rest) ids ahead junk i p e n m z =
        let (x, after, u, k) = uncons junk a b in
        let h : D = hash_pair o a b in
        let whole : ids ≡ (ahead ++ junk) ++ (a ∷ b ∷ rest) =
          e ∙ sym (append_assoc ahead junk (a ∷ b ∷ rest)) in
        let count : length (ahead ++ junk) ≡ length ahead + length junk =
          length-append ahead junk in
        let e1 : get_elem? ids (2 * i) ≡ some a =
          get_at (ahead ++ junk) a _ ids _ whole (omega arith) in
        let more : length ((ahead ++ junk) ++ a ∷ []) ≡ length (ahead ++ junk) + 1 =
          length-append (ahead ++ junk) (a ∷ []) in
        let e2 : get_elem? ids (2 * i + 1) ≡ some b =
          get_at ((ahead ++ junk) ++ a ∷ []) b rest ids _
            (whole ∙ sym (append_assoc (ahead ++ junk) (a ∷ []) (b ∷ rest))) (omega arith) in
        let split : junk ++ a ∷ b ∷ rest ≡ x ∷ (after ++ rest) =
          sym (append_assoc junk (a ∷ b ∷ []) rest) ∙ ap (λ l. l ++ rest) u in
        let e3 : set ids i h ≡ some (ahead ++ h ∷ (after ++ rest)) =
          rw (e, n, split) (set-append ahead x h (after ++ rest)) in
        let one : length (ahead ++ h ∷ []) ≡ length ahead + 1 = length-append ahead (h ∷ []) in
        let (old, q) =
          loop_pairs rest (ahead ++ h ∷ (after ++ rest)) (ahead ++ h ∷ []) after (i + 1) p
            (sym (append_assoc ahead (h ∷ []) (after ++ rest))) (omega arith) (omega arith)
            (omega arith) in
        (
          old,
          rw
              (
                as_int_lem (2 * i) (omega arith),
                e1,
                as_int_lem (2 * i + 1) (omega arith),
                e2,
                e3,
                as_int_lem (i + 1) (omega arith),
              )
              (q ∙ ap (λ l. some (l ++ old)) (append_assoc ahead (h ∷ []) (pairs rest))),
        )

    next_layer-pairs : (ids : List D) → length ids < int_mod → next_layer o ids ≡ some (pairs ids)
    unfolding next_layer
    next_layer-pairs ids h =
        let longer : length (evened ids) ≤ suc (length ids) = length-evened ids in
        let count : length (evened ids) / 2 ≡ length (pairs (evened ids)) =
          length-pairs (evened ids) (evened-IsPaired ids) in
        let (old, q) =
          loop_pairs (evened ids) (evened ids) [] [] 0 (evened-IsPaired ids) refl refl refl
            (omega arith) in
        rw (make_even_lem ids, count, q)
          (ap some (resize-append (pairs (evened ids)) old ∙ pairs-evened ids))

    pairs_shorter : (a b : D) (ids : List D) → length (pairs (a ∷ b ∷ ids)) < length (a ∷ b ∷ ids)
    unfolding pairs
    pairs_shorter a b [] = omega arith
    pairs_shorter a b (c ∷ []) = omega arith
    pairs_shorter a b (c ∷ d ∷ ids) =
        let later : length (pairs (c ∷ d ∷ ids)) < length (c ∷ d ∷ ids) = pairs_shorter c d ids in
        omega arith

    -- The lines of a tree from a layer on: each layer with its number and its digests, and then the
    -- pairs of it, up to the root.
    pub data Layers : ℕ → List D → List (Line D) → Type 0 where
      top : (layer : ℕ) (root : D) → Layers layer (root ∷ []) (root_line root ∷ [])
      below :
          (layer : ℕ) (a b : D) (ids : List D) (lines : List (Line D))
          → Layers (layer + 1) (pairs (a ∷ b ∷ ids)) lines
          → Layers layer (a ∷ b ∷ ids) (layer_line layer ∷ numbered 0 (a ∷ b ∷ ids) ++ lines)

    layers_loop-suc :
        (rounds layer : ℕ) (d b : D) (ids above : List D) (lines : List (Line D))
        → layer + 1 < int_mod
        → length (d ∷ b ∷ ids) < int_mod
        → next_layer o (d ∷ b ∷ ids) ≡ some above
        → layers_loop o rounds (layer + 1) above ≡ some lines
        → layers_loop o (suc rounds) layer (d ∷ b ∷ ids)
          ≡ some (layer_line layer ∷ numbered 0 (d ∷ b ∷ ids) ++ lines)
    unfolding layers_loop
    layers_loop-suc rounds layer d b ids above lines h k e f =
        rw
          (
            lt→ltb 1 (length (d ∷ b ∷ ids)) (omega arith),
            layers_loop,
            as_int_lem (layer + 1) h,
            id_lines-numbered (d ∷ b ∷ ids) 0 (omega arith),
            e,
            f,
          )
          refl

    layers_loop-Layers :
        (rounds layer : ℕ) (d : D) (ids : List D)
        → length (d ∷ ids) ≤ rounds
        → layer + rounds < int_mod
        → (lines : List (Line D)) × (layers_loop o rounds layer (d ∷ ids) ≡ some lines)
          × Layers layer (d ∷ ids) lines
    unfolding layers_loop pairs
    layers_loop-Layers zero layer d ids h g = absurd (omega arith)
    layers_loop-Layers (suc rounds) layer d [] h g = (root_line d ∷ [], refl, top layer d)
    layers_loop-Layers (suc rounds) layer d (b ∷ ids) h g =
        let fewer : length (pairs (d ∷ b ∷ ids)) < length (d ∷ b ∷ ids) = pairs_shorter d b ids in
        let (lines, e, tower) =
          layers_loop-Layers rounds (layer + 1) (hash_pair o d b) (pairs ids) (omega arith)
            (omega arith) in
        (
          layer_line layer ∷ numbered 0 (d ∷ b ∷ ids) ++ lines,
          layers_loop-suc rounds layer d b ids _ lines (omega arith) (omega arith)
              (next_layer-pairs (d ∷ b ∷ ids) (omega arith)) e,
          below layer d b ids lines tower,
        )

    -- For one digest at least and fewer than 2 ^ 31, `print_merkle_tree` ends without undefined
    -- behaviour, and writes the layers of the tree, each the hashes of the pairs of the one below, a
    -- last digest with itself.
    pub print_merkle_tree-Layers :
        (d : D) (ids : List D)
        → length (d ∷ ids) < 2 ^ 31
        → (lines : List (Line D)) × (print_merkle_tree o (d ∷ ids) ≡ some lines)
          × Layers 0 (d ∷ ids) lines
    unfolding print_merkle_tree
    print_merkle_tree-Layers d ids h =
        layers_loop-Layers (length (d ∷ ids)) 0 d ids (omega arith) (omega arith)

-- ===== src/Merkle/Value.antt =====
-- get_merkle_node_value_in_full_sub_branch finds the node's value in the trees of the blocks.
use eos_tools.Prelude.{
  ℕ, zero, suc, ◌+◌, ◌-◌, ◌*◌, ◌/◌, ◌%◌, ◌^◌, ◌≤◌, ◌<◌, ◌≡◌, refl, inl, inr, some, List, [], ◌∷◌,
  arith, Bool-cases, length, get_elem?,
}
use mathlib.Core.List.{head?}
use eos_tools.Prelude.Word.{u32_mod, add32, sub32, shl32, add32_lem, sub32_lem, shl32_lem}
use eos_tools.Merkle.Digest.{DigestOps, IncrementalMerkle}
use eos_tools.Merkle.Chain.{
  SimBlock, block_by_num, get_block_id_by_num, get_inc_merkle_by_block_num,
}
use eos_tools.Merkle.Position.{is_odd}
use eos_tools.Merkle.Node.{
  get_inc_merkle_layer_left_node, left_node_value, right_node_value,
  get_merkle_node_value_in_full_sub_branch,
}
use eos_tools.Merkle.Tree.{
  Tree, Realizes, Blocks, shr, shr_unique, shr-suc, shr_bounds, pow_pos, le-times_pow, times-suc,
  halved, sibling,
}
use eos_tools.Merkle.Active.{head-Active, left_node_loop_found, hash_up_loop_found}

module _ {D : Type 0} (node : ℕ → ℕ → D) where
  -- Block `a + 1` as it should be.
  pub record IsBlock (a : ℕ) (b : SimBlock D) : Type 0 where
    pub id : b.block_id ≡ node 0 (suc a)
    pub tree : Realizes node a b.blockroot_merkle

  get_elem?-Blocks :
      (n i a : ℕ) (bs : List (SimBlock D))
      → Blocks node n bs
      → i < length bs
      → a ≡ n + i
      → (b : SimBlock D) × (get_elem? bs i ≡ some b) × IsBlock a b
  get_elem?-Blocks n i a [] c h e = elim h [ ]
  get_elem?-Blocks n zero a (b ∷ bs) (Blocks.block p q r c) h e =
      (b, refl, let same : a ≡ n = omega arith in rw same (record { id = q; tree = r }))
  get_elem?-Blocks n (suc i) a (b ∷ bs) (Blocks.block p q r c) h e =
      get_elem?-Blocks (suc n) i a bs c (omega arith) (omega arith)

  pub block_by_num_found :
      (n a : ℕ) (bs : List (SimBlock D))
      → Blocks node n bs
      → n ≤ a
      → a < n + length bs
      → n + length bs < u32_mod
      → (b : SimBlock D) × (block_by_num bs (suc a) ≡ some b) × IsBlock a b
  unfolding block_by_num
  block_by_num_found n a [] c h g m = absurd (omega arith)
  block_by_num_found n a (b ∷ bs) (Blocks.block p q r c) h g m =
      let away : sub32 (suc a) b.block_num ≡ a - n =
        omega (arith, sub32_lem (suc a) b.block_num (omega arith) (omega arith)) in
      rw away
        (get_elem?-Blocks n (a - n) a (b ∷ bs) (Blocks.block p q r c) (omega arith) (omega arith))

module _ {D : Type 0} (o : DigestOps D) {base : ℕ} (t : Tree o base) (bs : List (SimBlock D))
    (blocks : Blocks t.node base bs) (small : base + length bs < 2 ^ 31) where
  open t use {node}

  pub block_id_found :
      (a : ℕ)
      → base ≤ a
      → a < base + length bs
      → get_block_id_by_num bs (suc a) ≡ some (node 0 (suc a))
  unfolding get_block_id_by_num
  block_id_found a h g =
      let (b, found, b_lem) = block_by_num_found node base a bs blocks h g (omega arith) in
      rw found (rw b_lem.id)

  pub inc_merkle_found :
      (a : ℕ)
      → base ≤ a
      → a < base + length bs
      → (m : IncrementalMerkle D) × (get_inc_merkle_by_block_num bs (suc a) ≡ some m)
        × Realizes node a m
  unfolding get_inc_merkle_by_block_num
  inc_merkle_found a h g =
      let (b, found, b_lem) = block_by_num_found node base a bs blocks h g (omega arith) in
      (b.blockroot_merkle, rw found, b_lem.tree)

  -- An odd node begins the tree of the block after its last leaf.
  left_value_found :
      (h s : ℕ)
      → s % 2 ≡ 1
      → base ≤ s * 2 ^ h
      → s * 2 ^ h < base + length bs
      → left_node_value o bs (suc h) s ≡ some (node h s)
  unfolding left_node_value
  left_value_found h s p lo hi =
      let (m, found, m_lem) = inc_merkle_found (s * 2 ^ h) lo hi in
      let at : shr (s * 2 ^ h) h ≡ s =
        shr_unique (s * 2 ^ h) h s (omega arith) (omega (arith, pow_pos h)) in
      let first : head? m.active_nodes ≡ some (node h s) = rw at at (
        head-Active node h 0 (s * 2 ^ h) h m.active_nodes m_lem.active (rw at) (rw at p)
          (omega arith)) in
      let layer : suc h - 1 ≡ h = omega arith in
      let num : add32 (shl32 s (suc h - 1)) 1 ≡ suc (s * 2 ^ h) = rw layer (
        omega (
          arith,
          shl32_lem s h (omega arith),
          add32_lem (shl32 s h) 1 (omega (arith, shl32_lem s h (omega arith))),
        )) in
      rw num (rw found first)

  -- An even node ends with the block of its last leaf.
  right_value_found :
      (h j : ℕ)
      → base < suc j * 2 ^ h
      → suc j * 2 ^ h ≤ base + length bs
      → right_node_value o bs (suc h) (suc j) ≡ some (node h (suc j))
  unfolding right_node_value
  right_value_found h j lo hi =
      let a = suc j * 2 ^ h - 1 in
      let last : suc a ≡ suc j * 2 ^ h = omega arith in
      let (m, found, m_lem) = inc_merkle_found a (omega arith) (omega arith) in
      let layer : suc h - 1 ≡ h = omega arith in
      let num : shl32 (suc j) h ≡ suc a = omega (arith, shl32_lem (suc j) h (omega arith)) in
      rw layer (
        rw num (
          rw found (
            rw (block_id_found a (omega arith) (omega arith)) (
              hash_up_loop_found o t h 0 a j h m.active_nodes m_lem.active last (omega arith)
                (omega arith)))))

  -- The reference tree of leaf `a` has every odd node to the left of the way up from that leaf.
  reference_found :
      (h a : ℕ) (m : IncrementalMerkle D)
      → Realizes node a m
      → 0 < h
      → shr a h % 2 ≡ 1
      → suc h < o.calcluate_max_depth m.node_count
      → get_inc_merkle_layer_left_node o m (suc h) ≡ some (node h (shr a h))
  unfolding get_inc_merkle_layer_left_node
  reference_found h a m w p b d =
      let found =
        left_node_loop_found o node (o.calcluate_max_depth m.node_count - 1) h 0 a 1 (suc h) h
          m.active_nodes w.active b (omega arith) (omega arith) (omega arith) (omega arith) in
      ground (arith, w.counted, found, shr_bounds a h, le-times_pow (shr a h) h)

  pub sibling_value_found :
      ((a h : ℕ) → base ≤ a → shr a h % 2 ≡ 1 → base ≤ shr a h * 2 ^ h)
      → (h a : ℕ) (reference : IncrementalMerkle D) → Realizes node a reference
      → 0 < h
      → base ≤ a
      → suc (shr a (suc h)) * 2 ^ suc h ≤ base + length bs
      → get_merkle_node_value_in_full_sub_branch o bs reference (suc h) (sibling a h)
        ≡ some (node h (sibling a h))
  unfolding get_merkle_node_value_in_full_sub_branch
  sibling_value_found aligned h a m w p b f = elim (Bool-cases (is_odd (shr a h))) [
    | inl left ↦
        let s = shr a h in
        let odd : s % 2 ≡ 1 = ground arith in
        let under = shr_bounds a h in
        let over = shr_bounds a (suc h) in
        rw left (
          ground (
            arith,
            reference_found h a m w p odd,
            left_value_found h s odd (aligned a h b odd) (omega arith),
          ))
    | inr right ↦
        let s = shr a h in
        let even : s % 2 ≡ 0 = ground arith in
        let under = shr_bounds a h in
        let up : shr a (suc h) ≡ s / 2 = shr-suc a h in
        let last : suc (suc s) * 2 ^ h ≡ suc (shr a (suc h)) * 2 ^ suc h =
          halved (suc (suc s)) (suc (shr a (suc h))) h (omega arith) in
        rw right (
          ground
            (arith, right_value_found h (suc s) (omega (arith, times-suc (suc s) h)) (omega arith)))
  ]

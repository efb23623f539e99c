-- ===== src/Merkle/Correct.antt =====
-- A path that get_block_id_merkle_path_to_anchor_block builds passes verify_merkle_path.
use eos_tools.Prelude.{
  ℕ, zero, suc, ◌+◌, ◌-◌, ◌*◌, ◌/◌, ◌%◌, ◌^◌, ◌≤◌, ◌<◌, ◌≡◌, refl, sym, ap, true, false, inl, inr,
  some, List, [], ◌∷◌, ◌++◌, arith, Bool-cases, ltb, leb, ◌==◌, length, length-append, back?-append,
  without_back-append, ==_self,
}
use eos_tools.Merkle.Digest.{DigestOps, DigestLaws, IncrementalMerkle}
use eos_tools.Prelude.Word.{add32, sub32, add32_lem, sub32_lem}
use eos_tools.Merkle.Chain.{SimBlock, get_inc_merkle_by_block_num}
use eos_tools.Merkle.Position.{is_odd}
use eos_tools.Merkle.Node.{hash_pair, get_inc_merkle_full_branch_root_cover_from}
use eos_tools.Merkle.Path.{first_two, get_block_id_merkle_path_to_anchor_block, verify_merkle_path}
use eos_tools.Merkle.Tree.{Tree, Realizes, Blocks, IsStart, shr, last_mono, lt-pow}
use eos_tools.Merkle.Cover.{Covered, cover_loop_found}
use eos_tools.Merkle.Value.{inc_merkle_found, block_id_found}
use eos_tools.Merkle.Way.{
  way, positions-way, partners, length-partners, verify_loop-partners, siblings_loop-way,
}

module _ {D : Type 0} (o : DigestOps D) (laws : DigestLaws o) {base : ℕ} (t : Tree o base) where
  open t use {node}

  -- On an incremental tree that holds the full branches of the first `n` leaves, with n below
  -- 2 ^ 31, and for a leaf `a` (from 0) below n, get_inc_merkle_full_branch_root_cover_from returns
  -- layer, index and value of a node above that leaf whose last leaf is among the n.
  pub cover_found :
      (a n : ℕ) (m : IncrementalMerkle D)
      → Realizes node n m
      → a < n
      → n < 2 ^ 31
      → Covered node a n (get_inc_merkle_full_branch_root_cover_from o (suc a) m)
  unfolding get_inc_merkle_full_branch_root_cover_from
  cover_found a n m w h b =
      let rounds = o.calcluate_max_depth n in
      let enough : n < 2 ^ rounds =
        lt-pow n rounds (laws.depth_pos n (omega arith)) (laws.depth_lem n (omega arith)) in
      let some_left : ltb n (suc a) ≡ false = ground arith in
      rw w.counted (
        rw some_left (
          cover_loop_found o node a n (omega arith) rounds 0 n 1 m.active_nodes w.active enough
            (omega arith) (omega arith) refl))

  -- The elements of a path to the node at height h above leaf `a`.
  abbrev pub path_to : ℕ → ℕ → List D
  path_to a zero = node 0 (suc a) ∷ []
  path_to a (suc r) =
      node 0 (suc (2 * (a / 2))) ∷ node 0 (suc (suc (2 * (a / 2)))) ∷ partners o t a 1 r
      ++ node (suc r) (suc (shr a (suc r))) ∷ []

  pub verify-path_to :
      (a h : ℕ) → base ≤ a → h + 1 < 2 ^ 31 → verify_merkle_path o (path_to a h) ≡ some true
  unfolding verify_merkle_path
  verify-path_to a zero b l = refl
  verify-path_to a (suc r) b l =
      let left = node 0 (suc (2 * (a / 2))) in
      let right = node 0 (suc (suc (2 * (a / 2)))) in
      let ps = partners o t a 1 r in
      let root = node (suc r) (suc (shr a (suc r))) in
      let rounds : (suc (suc (length (ps ++ root ∷ []))) + 2 ^ 64 - 3) % 2 ^ 64 ≡ r =
        omega (arith, length-append ps (root ∷ []), length-partners o t a 1 r) in
      let first : hash_pair o left right ≡ node 1 (suc (a / 2)) =
        sym (t.law 0 (a / 2) (omega arith)) in
      rw rounds (
        rw first (
          rw
            (verify_loop-partners o t laws r a 1 0 (suc r) _ (left ∷ right ∷ []) (root ∷ []) b
              (omega arith) refl refl (omega arith))
            (rw (back?-append (left ∷ right ∷ ps) root) (rw ((laws.beq_iff root root).1 refl)))))

  module _ (bs : List (SimBlock D)) (blocks : Blocks node base bs)
      (small : base + length bs < 2 ^ 31) (start : IsStart base) where
    -- The first two elements are the two leaves under the parent of leaf `a`.
    first_two_found :
        (a : ℕ)
        → base ≤ a
        → suc (suc (2 * (a / 2))) ≤ base + length bs
        → first_two bs (suc a) ≡ some (node 0 (suc (2 * (a / 2))), node 0 (suc (suc (2 * (a / 2)))))
    unfolding first_two
    first_two_found a b f = elim (Bool-cases (is_odd a)) [
      | inl right ↦
          let odd : a ≡ suc (2 * (a / 2)) = ground arith in
          let even = start.even in
          let from : suc a % 2 == 1 ≡ false = ground arith in
          let before : sub32 (suc a) 1 ≡ suc (2 * (a / 2)) =
            omega (arith, sub32_lem (suc a) 1 (omega arith) (omega arith)) in
          rw from (
            rw before (
              rw (block_id_found o t bs blocks small (2 * (a / 2)) (omega arith) (omega arith)) (
                rw (block_id_found o t bs blocks small a b (omega arith))
                  (ap (λ (x : ℕ). some (node 0 (suc (2 * (a / 2))), node 0 (suc x))) odd))))
      | inr left ↦
          let even : a ≡ 2 * (a / 2) = ground arith in
          let from : suc a % 2 == 1 ≡ true = ground arith in
          let after : add32 (suc a) 1 ≡ suc (suc (2 * (a / 2))) =
            omega (arith, add32_lem (suc a) 1 (omega arith)) in
          rw from (
            rw after (
              rw (block_id_found o t bs blocks small a b (omega arith)) (
                rw
                  (block_id_found o t bs blocks small (suc (2 * (a / 2))) (omega arith)
                    (omega arith))
                  (ap (λ (x : ℕ). some (node 0 (suc x), node 0 (suc (suc (2 * (a / 2)))))) even))))
    ]

    merkle_path_at :
        (a n h : ℕ) (anchor : IncrementalMerkle D)
        → base ≤ a
        → a < n
        → n < base + length bs
        → suc (shr a h) * 2 ^ h ≤ n
        → get_inc_merkle_by_block_num bs (suc n) ≡ some anchor
        → get_inc_merkle_full_branch_root_cover_from o (suc a) anchor
          ≡ some (suc h, suc (shr a h), node h (suc (shr a h)))
        → get_block_id_merkle_path_to_anchor_block o bs (suc a) (suc n) ≡ some (path_to a h)
    unfolding get_block_id_merkle_path_to_anchor_block
    merkle_path_at a n zero m b l f top p q =
        let later : leb (suc n) (suc a) ≡ false = ground arith in rw later (rw p (rw q))
    merkle_path_at a n (suc r) m b l f top p q =
        let later : leb (suc n) (suc a) ≡ false = ground arith in
        let high : suc (suc r) == 1 ≡ false = ground arith in
        let (reference, own, r_lem) = inc_merkle_found o t bs blocks small a b (omega arith) in
        let pair = first_two_found a b (omega (arith, last_mono r a 1 (suc r) (omega arith))) in
        let siblings =
          siblings_loop-way o t bs blocks small start.aligned r a 1 (suc r) reference r_lem
            (omega arith) b (omega arith) (omega arith) in
        rw later (
          rw p (
            rw q (
              rw high (
                rw (positions-way a r (omega arith)) (
                  rw (back?-append (way a 1 r) (suc (suc r), suc (shr a (suc r)))) (
                    rw (==_self (suc (suc r))) (
                      rw (==_self (suc (shr a (suc r)))) (
                        rw pair (
                          rw own (
                            rw (without_back-append (way a 1 r) (suc (suc r), suc (shr a (suc r))))
                              (rw siblings)))))))))))

    pub merkle_path_found :
        (a n : ℕ)
        → base ≤ a
        → a < n
        → n < base + length bs
        → (h : ℕ) × (get_block_id_merkle_path_to_anchor_block o bs (suc a) (suc n)
            ≡ some (path_to a h))
          × (suc (shr a h) * 2 ^ h ≤ n)
    merkle_path_found a n b l f =
        let (m, anchor, m_lem) = inc_merkle_found o t bs blocks small n (omega arith) f in
        let (h, cover, top) = cover_found a n m m_lem l (omega arith) in
        (h, merkle_path_at a n h m b l f top anchor cover, top)

-- ===== src/Merkle/Faults.antt =====
-- Inputs at which src/merkle/incremental_merkle.cpp runs into undefined behaviour.
use eos_tools.Prelude.{
  Option, ◌>>=◌, ℕ, zero, suc, ◌+◌, ◌-◌, ◌*◌, ◌%◌, ◌/◌, ◌^◌, ◌≤◌, ◌<◌, ◌≡◌, ◌≢◌, ◌↔◌, refl,
  get_elem?_total, back?_total, false, none, some, List, [], ◌∷◌, arith, length, leb, ltb, ltb→lt,
  Bool-cases, ◌⊎◌, inl, inr,
}
use eos_tools.Prelude.Word.{
  int_mod, as_int, as_int_lem, as_int_overflow, u32_mod, add32, sub32, shl32,
}
use eos_tools.Merkle.Digest.{DigestOps}
use eos_tools.Merkle.Chain.{SimBlock}
use eos_tools.Merkle.Position.{get_merkle_path_positions_to_layer_in_full_branch}
use eos_tools.Merkle.Node.{
  hash_pair, covers, cover_loop, get_inc_merkle_full_branch_root_cover_from,
}
use eos_tools.Merkle.Path.{
  get_block_id_merkle_path_to_anchor_block, verify_merkle_path, verify_loop, combine,
}
use eos_tools.Merkle.Tree.{Tree, Active, Blocks, halved, pow_pos, pred_times, le-times_pow}
use eos_tools.Merkle.Value.{inc_merkle_found}

module _ {D : Type 0} (o : DigestOps D) where
  verify_loop_total :
      (rounds i : ℕ) (path : List D) (result : D)
      → i + 2 + rounds ≤ length path
      → i + 2 + rounds ≤ int_mod
      → (d : D) × (verify_loop o rounds i path result ≡ some d)
  unfolding verify_loop
  verify_loop_total zero i path d h g = (d, refl)
  verify_loop_total (suc r) i path d h g =
      let (node, found) = get_elem?_total path (i + 2) (omega arith) in
      let (d', rest) =
        verify_loop_total r (i + 1) path (combine o d node) (omega arith) (omega arith) in
      (d', rw (as_int_lem (i + 2) (omega arith), found) rest)

  -- Where `i + 2` has to go beyond the largest `int`.
  verify_loop_overflow :
      (rounds i : ℕ) (path : List D) (result : D)
      → i + 2 + rounds ≤ length path
      → i + 2 ≤ int_mod
      → int_mod < i + 2 + rounds
      → verify_loop o rounds i path result ≡ none
  unfolding verify_loop
  verify_loop_overflow zero i path d h g k = absurd (omega arith)
  verify_loop_overflow (suc r) i path d h g k = elim (Bool-cases (ltb (i + 2) int_mod)) [
    | inl small ↦
        let less : i + 2 < int_mod = ltb→lt (i + 2) int_mod small in
        let (node, found) = get_elem?_total path (i + 2) (omega arith) in
        rw (as_int_lem (i + 2) less, found)
          (verify_loop_overflow r (i + 1) path (combine o d node) (omega arith) (omega arith)
            (omega arith))
    | inr large ↦
        let last : int_mod ≤ i + 2 = ground arith in rw (as_int_overflow (i + 2) last) refl
  ]

  both_some :
      (x y : Option D) {a b : D}
      → x ≡ some a
      → y ≡ some b
      → (x >>= λ d. y >>= λ root. some (o.beq d root)) ≢ none
  both_some (some a) (some b) p q e = cc
  both_some none y p q e = cc
  both_some (some a) none p q e = cc

  -- The rounds of the loop for a path of three elements at least.
  bound_lem : (n : ℕ) → n + 3 < 2 ^ 64 → (suc (suc (suc n)) + 2 ^ 64 - 3) % 2 ^ 64 ≡ n
  bound_lem n h = omega arith

  verify_total :
      (p q r : D) (rest : List D)
      → length rest + 2 ≤ int_mod
      → verify_merkle_path o (p ∷ q ∷ r ∷ rest) ≢ none
  unfolding verify_merkle_path
  verify_total p q r rest h =
      let (d, checked) =
        verify_loop_total (length rest) 0 (p ∷ q ∷ r ∷ rest) (hash_pair o p q) (omega arith)
          (omega arith) in
      let (root, last) = back?_total p (q ∷ r ∷ rest) in
      rw (bound_lem (length rest) (omega arith)) (both_some _ _ checked last)

  verify_overflow :
      (p q r : D) (rest : List D)
      → int_mod < length rest + 2
      → length rest + 3 < 2 ^ 64
      → verify_merkle_path o (p ∷ q ∷ r ∷ rest) ≡ none
  unfolding verify_merkle_path
  verify_overflow p q r rest h k = rw (
    bound_lem (length rest) k,
    verify_loop_overflow (length rest) 0 (p ∷ q ∷ r ∷ rest) (hash_pair o p q) (omega arith)
        (omega arith) (omega arith),
  )

  -- The check of a path, of less than 2 ^ 64 elements, has undefined behaviour exactly if the path
  -- has two elements, or 2 ^ 31 + 2 at least: with two the bound `size() - 3` wraps, and the loop
  -- reads past the end; with so many the `int` `i + 2` overflows.
  pub verify_faults :
      (path : List D)
      → length path < 2 ^ 64
      → (verify_merkle_path o path ≡ none) ↔ ((length path ≡ 2) ⊎ (2 ^ 31 + 2 ≤ length path))
  unfolding verify_merkle_path verify_loop as_int
  verify_faults [] h = (λ e. cc, λ e. absurd (ground arith))
  verify_faults (p ∷ []) h = (λ e. cc, λ e. absurd (ground arith))
  verify_faults (p ∷ q ∷ []) h = (λ e. inl refl, λ e. refl)
  verify_faults (p ∷ q ∷ r ∷ rest) h = elim (Bool-cases (ltb int_mod (length rest + 2))) [
    | inl long ↦
        let more : int_mod < length rest + 2 = ltb→lt int_mod (length rest + 2) long in
        (λ e. inr (omega arith), λ e. verify_overflow p q r rest more (omega arith))
    | inr short ↦
        let fits : length rest + 2 ≤ int_mod = ground arith in
        (λ e. absurd (verify_total p q r rest fits e), λ e. absurd (ground arith))
  ]

-- No full branch covers block 0.
not_covers_zero : (n k : ℕ) → 0 < n → n * 2 ^ k < u32_mod → covers 0 n k ≡ false
unfolding covers add32 sub32 shl32
not_covers_zero n k p h = ground (arith, pred_times n k p, pow_pos k, le-times_pow n k)

module _ {D : Type 0} (o : DigestOps D) (node : ℕ → ℕ → D) where
  cover_loop_zero :
      (rounds k n current_layer : ℕ) (xs : List D)
      → Active node k n xs
      → n * 2 ^ k < u32_mod
      → current_layer ≡ suc k
      → cover_loop o rounds 0 current_layer n xs ≡ some (0, 0, o.zero_digest)
  unfolding cover_loop
  cover_loop_zero zero k n c xs w h e = refl
  cover_loop_zero (suc r) k n c (x ∷ xs) (Active.odd p q w) h e =
      let left = halved (n - 1) (n / 2) k (omega arith) in
      let before = pred_times n k (omega arith) in
      ground (
        arith,
        not_covers_zero n k,
        cover_loop_zero r (suc k) (n / 2) (c + 1) xs w (omega arith) (omega arith),
      )
  cover_loop_zero (suc r) k n c xs (Active.even p w) h e =
      let same = halved n (n / 2) k (omega arith) in
      ground (arith, cover_loop_zero r (suc k) (n / 2) (c + 1) xs w (omega arith) (omega arith))
  cover_loop_zero (suc r) k n c xs (Active.top z) h e =
      let same = halved n (n / 2) k (omega arith) in
      let none_left : n / 2 ≡ 0 = omega arith in
      ground (
        arith,
        cover_loop_zero r (suc k) (n / 2) (c + 1) xs (Active.top none_left) (omega arith)
            (omega arith),
      )

module _ {D : Type 0} (o : DigestOps D) {base : ℕ} (t : Tree o base) (bs : List (SimBlock D))
    (blocks : Blocks t.node base bs) (small : base + length bs < 2 ^ 31) where
  -- A path from block 0 to an anchor block of the chain other than the first has undefined
  -- behaviour: no full branch covers block 0, and `back()` is taken of an empty `position_path`.
  pub path_from_zero :
      (n : ℕ)
      → base ≤ n
      → 0 < n
      → n < base + length bs
      → get_block_id_merkle_path_to_anchor_block o bs 0 (suc n) ≡ none
  unfolding get_block_id_merkle_path_to_anchor_block get_inc_merkle_full_branch_root_cover_from
      get_merkle_path_positions_to_layer_in_full_branch
  path_from_zero n b p l =
      let (m, found, m_lem) = inc_merkle_found o t bs blocks small n b l in
      let cover =
        cover_loop_zero o t.node (o.calcluate_max_depth n) 0 n 1 m.active_nodes m_lem.active
          (omega arith) refl in
      let later : leb (suc n) 0 ≡ false = ground arith in
      let some_left : ltb n 0 ≡ false = ground arith in
      rw later (rw found (rw m_lem.counted (rw some_left (rw cover))))

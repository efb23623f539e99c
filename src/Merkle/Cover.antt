-- ===== src/Merkle/Cover.antt =====
-- get_inc_merkle_full_branch_root_cover_from finds the full branch above a block.
use eos_tools.Prelude.{
  ℕ, zero, suc, ◌+◌, ◌-◌, ◌*◌, ◌/◌, ◌^◌, ◌≤◌, ◌<◌, ◌≡◌, ap, inl, inr, Option, some, List, ◌∷◌,
  arith, Bool-cases, leb, leb→le,
}
use native.Mathlib.Nat.{pow-suc}
use eos_tools.Prelude.Word.{u32_mod, add32, sub32, shl32}
use eos_tools.Merkle.Digest.{DigestOps}
use eos_tools.Merkle.Node.{covers, cover_loop}
use eos_tools.Merkle.Tree.{Active, shr, shr_unique, halved, pow_pos, le-times_pow, pred_times}

-- A leaf at or before the last one under a node is covered exactly if it is not before the first.
pub covers_lem :
    (a n k : ℕ)
    → 0 < n
    → n * 2 ^ k < u32_mod
    → a < n * 2 ^ k
    → covers (suc a) n k ≡ leb ((n - 1) * 2 ^ k) a
unfolding covers add32 sub32 shl32
covers_lem a n k p h b = ground (arith, pred_times n k p, pow_pos k, le-times_pow n k)

-- The result for leaf `a` (from 0): the node above it at some height, a full branch of the tree.
no_leaf : (a n k : ℕ) → n ≡ 0 → a < n * 2 ^ k → ⊥
no_leaf a n k z h = omega (arith, ap (λ (x : ℕ). x * 2 ^ k) z)

abbrev pub Covered : {D : Type 0} → (ℕ → ℕ → D) → ℕ → ℕ → Option (ℕ × ℕ × D) → Type 0
Covered node a N r =
    (h : ℕ) × (r ≡ some (suc h, suc (shr a h), node h (suc (shr a h))))
    × (suc (shr a h) * 2 ^ h ≤ N)

module _ {D : Type 0} (o : DigestOps D) (node : ℕ → ℕ → D) (a N : ℕ) (small : N < u32_mod) where
  pub cover_loop_found :
      (rounds k n current_layer : ℕ) (xs : List D)
      → Active node k n xs
      → n < 2 ^ rounds
      → a < n * 2 ^ k
      → n * 2 ^ k ≤ N
      → current_layer ≡ suc k
      → Covered node a N (cover_loop o rounds (suc a) current_layer n xs)
  unfolding cover_loop
  cover_loop_found zero k n c xs w r h b e = absurd (no_leaf a n k (omega arith) h)
  cover_loop_found (suc rounds) k n c xs (Active.top z) r h b e = absurd (no_leaf a n k z h)
  cover_loop_found (suc rounds) k n c (x ∷ xs) (Active.odd p q w) r h b e =
      let left : (n - 1) * 2 ^ k ≡ n / 2 * 2 ^ suc k = halved (n - 1) (n / 2) k (omega arith) in
      let before = pred_times n k (omega arith) in
      elim (Bool-cases (leb ((n - 1) * 2 ^ k) a)) [
        | inl here ↦
            let at : shr a k ≡ n - 1 =
              shr_unique a k (n - 1) (leb→le _ _ here)
                (let whole : suc (n - 1) ≡ n = omega arith in rw whole h) in
            let index : suc (shr a k) ≡ n = omega arith in
            (k, rw index (ground (arith, covers_lem a n k, le-times_pow n k)), rw index b)
        | inr further ↦
            let (j, found, fits) =
              cover_loop_found rounds (suc k) (n / 2) (c + 1) xs w (omega (arith, pow-suc 2 rounds))
                (ground arith) (omega arith) (omega arith) in
            (j, ground (arith, covers_lem a n k), fits)
      ]
  cover_loop_found (suc rounds) k n c xs (Active.even p w) r h b e =
      let same : n * 2 ^ k ≡ n / 2 * 2 ^ suc k = halved n (n / 2) k (omega arith) in
      let (j, found, fits) =
        cover_loop_found rounds (suc k) (n / 2) (c + 1) xs w (omega (arith, pow-suc 2 rounds))
          (omega arith) (omega arith) (omega arith) in
      (j, ground arith, fits)

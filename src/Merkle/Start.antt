-- ===== src/Merkle/Start.antt =====
-- Where a chain may begin, and a merkle tree over given block ids from there on.
use eos_tools.Prelude.{
  ℕ, zero, suc, ◌+◌, ◌*◌, ◌/◌, ◌%◌, ◌^◌, ◌≤◌, ◌<◌, ◌≡◌, refl, List, ◌∷◌, arith, leb, if◌then◌else◌,
}
use native.Mathlib.Nat.{pow-suc}
use eos_tools.Merkle.Digest.{DigestOps}
use eos_tools.Merkle.Node.{hash_pair}
use eos_tools.Merkle.Tree.{Tree, Active, IsStart, shr, doubled, le-times_pow}

pub IsStart-zero : IsStart 0
IsStart-zero = record { even = refl; aligned = λ a h b p. omega arith }

aligned_pow : (m a h : ℕ) → 2 ^ m ≤ a → shr a h % 2 ≡ 1 → 2 ^ m ≤ shr a h * 2 ^ h
aligned_pow m a zero b p = omega arith
aligned_pow zero a (suc h) b p = omega (arith, le-times_pow (shr a (suc h)) (suc h))
aligned_pow (suc m) a (suc h) b p =
    let half = pow-suc 2 m in
    omega (arith, aligned_pow m (a / 2) h (omega arith) p, doubled (shr (a / 2) h) h)

pub IsStart-pow : (m : ℕ) → IsStart (2 ^ suc m)
IsStart-pow m = record {
  even = omega (arith, pow-suc 2 m);
  aligned = λ a h. aligned_pow (suc m) a h;
}

module _ {D : Type 0} (o : DigestOps D) (base : ℕ) (free : D) (id : ℕ → D) where
  -- Nodes wholly below `base` are `free`, the leaves beyond it have the given ids.
  unfoldable pub node_from : ℕ → ℕ → D
  node_from zero j = id j
  node_from (suc k) zero = free
  node_from (suc k) (suc j) =
      if leb (suc j * 2 ^ suc k) base
      then free
      else hash_pair o (node_from k (suc (2 * j))) (node_from k (suc (suc (2 * j))))

  pub node_from-law :
      (k j : ℕ)
      → base < suc j * 2 ^ suc k
      → node_from (suc k) (suc j)
        ≡ hash_pair o (node_from k (suc (2 * j))) (node_from k (suc (suc (2 * j))))
  unfolding node_from
  node_from-law k j h = ground arith

  unfoldable pub tree_from : Tree o base
  tree_from = record { node = node_from; law = node_from-law }

-- A tree of 2 ^ d leaves has one active node.
pub Active-pow :
    {D : Type 0} (node : ℕ → ℕ → D) (d k h : ℕ) (x : D) (xs : List D)
    → h ≡ k + d
    → x ≡ node h 1
    → Active node k (2 ^ d) (x ∷ xs)
Active-pow node zero k h x xs e p =
    let same : k ≡ h = omega arith in Active.odd refl (rw same p) (Active.top refl)
Active-pow node (suc d) k h x xs e p = Active.even (omega (arith, pow-suc 2 d)) (
    let half : 2 ^ suc d / 2 ≡ 2 ^ d = omega (arith, pow-suc 2 d) in
    rw half (Active-pow node d (suc k) h x xs (omega arith) p))

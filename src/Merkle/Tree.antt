-- ===== src/Merkle/Tree.antt =====
-- What the trees of src/merkle/incremental_merkle.cpp stand for: one merkle tree over all block
-- ids, of which a block's incremental tree holds the roots of the largest full branches.
use eos_tools.Prelude.{
  ℕ, zero, suc, ◌+◌, ◌-◌, ◌*◌, ◌/◌, ◌%◌, ◌^◌, ◌≤◌, ◌<◌, ◌≡◌, refl, ap, if◌then◌else◌, List, [], ◌∷◌,
  arith,
}
use native.Mathlib.Nat.{pow-suc, mul_assoc, le_refl}
use eos_tools.Merkle.Digest.{IncrementalMerkle, DigestOps}
use eos_tools.Merkle.Chain.{SimBlock}
use eos_tools.Merkle.Position.{is_odd}
use eos_tools.Merkle.Node.{hash_pair}

-- `node k j` is the value at height k (layer k + 1) and index j. The hash law is asked of the nodes
-- that cover a leaf beyond `base`; what lies wholly below is free.
pub record Tree {D : Type 0} (o : DigestOps D) (base : ℕ) : Type 0 where
  pub node : ℕ → ℕ → D
  pub law :
      (k j : ℕ)
      → base < suc j * 2 ^ suc k
      → node (suc k) (suc j) ≡ hash_pair o (node k (suc (2 * j))) (node k (suc (suc (2 * j))))

-- `n >> k`, a bit at a time.
abbrev pub shr : ℕ → ℕ → ℕ
shr n zero = n
shr n (suc k) = shr (n / 2) k

pub shr-zero : (k : ℕ) → shr 0 k ≡ 0
shr-zero zero = refl
shr-zero (suc k) = shr-zero k

pub shr-suc : (n k : ℕ) → shr n (suc k) ≡ shr n k / 2
shr-suc n zero = refl
shr-suc n (suc k) = shr-suc (n / 2) k

-- A node of height k + 1 covers as many leaves as two of height k.
pub doubled : (j k : ℕ) → j * 2 ^ suc k ≡ 2 * (j * 2 ^ k)
doubled j k = rw pow-suc (grind arith)

pub halved : (n m k : ℕ) → n ≡ 2 * m → n * 2 ^ k ≡ m * 2 ^ suc k
halved n m k e = rw e (omega (arith, doubled m k, mul_assoc 2 m (2 ^ k)))

pub pow_pos : (k : ℕ) → 0 < 2 ^ k
pow_pos zero = omega arith
pow_pos (suc k) = omega (arith, pow_pos k, pow-suc 2 k)

pub lt_pow_self : (k : ℕ) → k < 2 ^ k
lt_pow_self zero = omega arith
lt_pow_self (suc k) = omega (arith, lt_pow_self k, pow-suc 2 k)

pub lt-pow : (n k : ℕ) → 0 < k → n ≤ 2 ^ (k - 1) → n < 2 ^ k
lt-pow n zero p h = absurd (omega arith)
lt-pow n (suc k) p h =
    let same : suc k - 1 ≡ k = omega arith in
    omega (arith, ap (λ (x : ℕ). 2 ^ x) same, pow_pos k, pow-suc 2 k)

pub le-times_pow : (n k : ℕ) → n ≤ n * 2 ^ k
le-times_pow n k = grind (arith, pow_pos k)

pub times-suc : (j k : ℕ) → suc j * 2 ^ k ≡ j * 2 ^ k + 2 ^ k
times-suc j k = grind arith

pub pred_times : (n k : ℕ) → 0 < n → (n - 1) * 2 ^ k + 2 ^ k ≡ n * 2 ^ k
pred_times zero k p = absurd (omega arith)
pred_times (suc n) k p = rw (let e : suc n - 1 ≡ n = omega arith in e) (grind arith)

-- The leaf `a` (from 0) lies under the node `shr a k` (from 0) at height k.
pub shr_bounds : (a k : ℕ) → (shr a k * 2 ^ k ≤ a) × (a < suc (shr a k) * 2 ^ k)
shr_bounds a zero = omega arith
shr_bounds a (suc k) =
    let j = shr (a / 2) k in omega (arith, shr_bounds (a / 2) k, doubled j k, doubled (suc j) k)

-- That node is the only one.
pub shr_unique : (a k j : ℕ) → j * 2 ^ k ≤ a → a < suc j * 2 ^ k → shr a k ≡ j
shr_unique a zero j h g = omega arith
shr_unique a (suc k) j h g =
    let above = doubled (suc j) k in
    let below = doubled j k in shr_unique (a / 2) k j (omega arith) (omega arith)

pub shr-le : (a k : ℕ) → shr a k ≤ a
shr-le a k = omega (arith, shr_bounds a k, le-times_pow (shr a k) k)

-- On the way up from a leaf the last leaf under the node only moves on.
pub last_mono : (d a k top : ℕ) → top ≡ k + d → suc (shr a k) * 2 ^ k ≤ suc (shr a top) * 2 ^ top
last_mono zero a k top e = let same : top ≡ k = omega arith in rw same (le_refl _)
last_mono (suc d) a k top e =
    let j = shr a (suc k) in
    let wide : suc (shr a k) * 2 ^ k ≤ (2 * suc j) * 2 ^ k =
      le-times (2 ^ k) (omega (arith, shr-suc a k)) in
    let same = halved (2 * suc j) (suc j) k refl in
    omega (arith, last_mono d a (suc k) top (omega arith))
  where
    le-times : {x y : ℕ} (z : ℕ) → x ≤ y → x * z ≤ y * z
    le-times z h = grind arith

-- The index (from 1) of the neighbour of the node above leaf `a` at height k.
abbrev pub sibling : ℕ → ℕ → ℕ
sibling a k = if is_odd (shr a k) then shr a k else suc (suc (shr a k))

pub sibling_parity : (a k : ℕ) → is_odd (sibling a k) ≡ is_odd (shr a k)
sibling_parity a k = ground arith

-- Where a chain may begin: every tree that the walks read belongs to a block of the chain.
pub record IsStart (base : ℕ) : Type 0 where
  pub even : base % 2 ≡ 0
  pub aligned : (a h : ℕ) → base ≤ a → shr a h % 2 ≡ 1 → base ≤ shr a h * 2 ^ h

module _ {D : Type 0} (node : ℕ → ℕ → D) where
  -- The active nodes from height k on, where `n` full nodes of that height are there: the root of a
  -- full branch for each one bit, the lowest first. What follows the top bit is not constrained.
  pub data Active : ℕ → ℕ → List D → Type 0 where
    top : {k n : ℕ} {xs : List D} → n ≡ 0 → Active k n xs
    odd :
        {k n : ℕ} {x : D} {xs : List D}
        → n % 2 ≡ 1
        → x ≡ node k n
        → Active (suc k) (n / 2) xs
        → Active k n (x ∷ xs)
    even : {k n : ℕ} {xs : List D} → n % 2 ≡ 0 → Active (suc k) (n / 2) xs → Active k n xs

  -- The incremental tree of the first `n` leaves.
  pub record Realizes (n : ℕ) (m : IncrementalMerkle D) : Type 0 where
    pub counted : m.node_count ≡ n
    pub active : Active 0 n m.active_nodes

  -- Block `n` has the id of leaf `n`, and the tree of the leaves before it; the next follows.
  pub data Blocks : ℕ → List (SimBlock D) → Type 0 where
    end : {n : ℕ} → Blocks n []
    block :
        {n : ℕ} {b : SimBlock D} {bs : List (SimBlock D)}
        → b.block_num ≡ suc n
        → b.block_id ≡ node 0 (suc n)
        → Realizes n b.blockroot_merkle
        → Blocks (suc n) bs
        → Blocks n (b ∷ bs)

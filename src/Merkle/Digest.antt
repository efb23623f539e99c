-- ===== src/Merkle/Digest.antt =====
-- What src/merkle/incremental_merkle.cpp takes from eosio::chain and fc: the digest type with its
-- hash and canonical pairs, and the incremental merkle tree, whose two members the program reads.
use eos_tools.Prelude.{ℕ, ◌-◌, ◌≤◌, ◌<◌, ◌^◌, ◌≡◌, Bool, true, false, List, ◌↔◌}

-- eosio::chain::incremental_merkle
pub record IncrementalMerkle (D : Type 0) : Type 0 where
  pub node_count : ℕ
  pub active_nodes : List D

-- The calls that the program makes of eosio::chain.
pub record DigestOps (D : Type 0) : Type 0 where
  -- `digest_type()`
  pub zero_digest : D
  -- `==` on digests
  pub beq : D → D → Bool
  -- `digest_type::hash` of a pair
  pub hash : D × D → D
  pub make_canonical_pair : D → D → D × D
  pub make_canonical_left : D → D
  pub make_canonical_right : D → D
  pub is_canonical_left : D → Bool
  -- `detail::calcluate_max_depth`
  pub calcluate_max_depth : ℕ → ℕ
  pub append : IncrementalMerkle D → D → IncrementalMerkle D

-- What the program relies on of those calls.
pub record DigestLaws {D : Type 0} (o : DigestOps D) : Type 0 where
  pub beq_iff : (a b : D) → (o.beq a b ≡ true) ↔ (a ≡ b)
  pub pair_lem :
      (a b : D) → o.make_canonical_pair a b ≡ (o.make_canonical_left a, o.make_canonical_right b)
  pub left_is_left : (a : D) → o.is_canonical_left (o.make_canonical_left a) ≡ true
  pub right_not_left : (a : D) → o.is_canonical_left (o.make_canonical_right a) ≡ false
  -- a tree of `n` leaves fits under a root at this layer
  pub depth_lem : (n : ℕ) → 0 < n → n ≤ 2 ^ (o.calcluate_max_depth n - 1)
  pub depth_pos : (n : ℕ) → 0 < n → 0 < o.calcluate_max_depth n

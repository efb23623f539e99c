-- ===== src/Merkle/Active.antt =====
-- The walks over the active nodes, on a tree that holds the full branches of one merkle tree.
use eos_tools.Prelude.{
  ℕ, zero, suc, ◌+◌, ◌*◌, ◌/◌, ◌%◌, ◌^◌, ◌<◌, ◌≡◌, sym, ap, ◌∙◌, some, List, ◌∷◌, arith,
}
use mathlib.Core.Path.{ap₂}
use mathlib.Core.List.{head?}
use eos_tools.Merkle.Digest.{DigestOps}
use eos_tools.Merkle.Node.{left_node_loop, hash_up_loop, hash_pair}
use eos_tools.Merkle.Tree.{Tree, Active, shr, shr-zero, doubled, halved}

module _ {D : Type 0} (node : ℕ → ℕ → D) where
  -- The first active node is that of the lowest one bit.
  pub head-Active :
      (d k n h : ℕ) (xs : List D)
      → Active node k n xs
      → n ≡ shr n d * 2 ^ d
      → shr n d % 2 ≡ 1
      → h ≡ k + d
      → head? xs ≡ some (node h (shr n d))
  head-Active d k n h xs (Active.top z) m b e =
      absurd (omega (arith, shr-zero d, ap (λ m. shr m d) z))
  head-Active zero k n h (x ∷ xs) (Active.odd p q a) m b e = ground arith
  head-Active zero k n h xs (Active.even p a) m b e = absurd (omega arith)
  head-Active (suc d) k n h (x ∷ xs) (Active.odd p q a) m b e =
      absurd (omega (arith, doubled (shr (n / 2) d) d))
  head-Active (suc d) k n h xs (Active.even p a) m b e =
      head-Active d (suc k) (n / 2) h xs a (omega (arith, doubled (shr (n / 2) d) d)) b
        (omega arith)

module _ {D : Type 0} (o : DigestOps D) (node : ℕ → ℕ → D) where
  -- The walk finds the active node of a layer whose bit is one.
  pub left_node_loop_found :
      (rounds d k n current_layer layer h : ℕ) (xs : List D)
      → Active node k n xs
      → shr n d % 2 ≡ 1
      → d < rounds
      → current_layer ≡ suc k
      → h ≡ k + d
      → layer ≡ suc h
      → left_node_loop o rounds current_layer layer n xs ≡ some (node h (shr n d))
  unfolding left_node_loop
  left_node_loop_found zero d k n c layer h xs a b r e g l = elim r [ ]
  left_node_loop_found (suc rounds) d k n c layer h xs (Active.top z) b r e g l =
      absurd (omega (arith, shr-zero d, ap (λ m. shr m d) z))
  left_node_loop_found (suc rounds) zero k n c layer h (x ∷ xs) (Active.odd p q a) b r e g l =
      ground arith
  left_node_loop_found (suc rounds) (suc d) k n c layer h (x ∷ xs) (Active.odd p q a) b r e g l =
      ground (arith, left_node_loop_found rounds d (suc k) (n / 2) (c + 1) layer h xs a b)
  left_node_loop_found (suc rounds) zero k n c layer h xs (Active.even p a) b r e g l =
      absurd (omega arith)
  left_node_loop_found (suc rounds) (suc d) k n c layer h xs (Active.even p a) b r e g l =
      ground (arith, left_node_loop_found rounds d (suc k) (n / 2) (c + 1) layer h xs a b)

module _ {D : Type 0} (o : DigestOps D) {base : ℕ} (t : Tree o base) where
  open t use {node, law}

  -- The parent of a node with an odd index from the right, the last one of `m + 1`.
  pub law_last :
      (k m : ℕ)
      → m % 2 ≡ 1
      → base < suc m * 2 ^ k
      → hash_pair o (node k m) (node k (suc m)) ≡ node (suc k) (suc (m / 2))
  law_last k m p h =
      ap₂ (λ (x y : ℕ). hash_pair o (node k x) (node k y)) (omega arith) (omega arith)
      ∙ sym (law k (m / 2) (omega (arith, halved (suc m) (suc (m / 2)) k (omega arith))))

  -- From the last leaf under a node the active nodes lead up to that node.
  pub hash_up_loop_found :
      (r k m j h : ℕ) (xs : List D)
      → Active node k m xs
      → suc m ≡ suc j * 2 ^ r
      → base < suc m * 2 ^ k
      → h ≡ k + r
      → hash_up_loop o r xs (node k (suc m)) ≡ some (node h (suc j))
  unfolding hash_up_loop
  hash_up_loop_found zero k m j h xs a e b g = ground arith
  hash_up_loop_found (suc r) k m j h xs (Active.top z) e b g =
      absurd (omega (arith, doubled (suc j) r))
  hash_up_loop_found (suc r) k m j h (x ∷ xs) (Active.odd p q a) e b g =
      let half : m / 2 * 2 + 1 ≡ m = omega arith in
      let up : suc (m / 2) ≡ suc j * 2 ^ r = omega (arith, doubled (suc j) r) in
      rw q (
        rw (law_last k m p b) (
          hash_up_loop_found r (suc k) (m / 2) j h xs a up
            (omega (arith, halved (suc m) (suc (m / 2)) k (omega arith))) (omega arith)))
  hash_up_loop_found (suc r) k m j h xs (Active.even p a) e b g =
      absurd (omega (arith, doubled (suc j) r))

-- ===== src/Merkle/SimCorrect.antt =====
-- Paths that are built from the chain pass the check; the run of `main` prints `yes` on every line.
use eos_tools.Prelude.{
  ℕ, zero, suc, ◌+◌, ◌-◌, ◌*◌, ◌^◌, ◌≤◌, ◌<◌, ◌≡◌, refl, sym, ap, true, false, some, List, [],
  arith, ◌==◌, if◌then◌else◌, length, All, All-append,
}
use eos_tools.Prelude.Word.{add32_lem}
use eos_tools.Merkle.Digest.{DigestOps, DigestLaws, IncrementalMerkle}
use eos_tools.Merkle.Chain.{SimBlock}
use eos_tools.Merkle.Path.{get_block_id_merkle_path_to_anchor_block, verify_merkle_path}
use eos_tools.Merkle.Tree.{Tree, Realizes, Blocks, IsStart, shr, lt_pow_self}
use eos_tools.Merkle.Correct.{merkle_path_found, verify-path_to}
use eos_tools.Merkle.Sim.{
  block_one, next_block, fill_loop, sim_chain, check_path, from_loop, anchor_loop, main,
}
use eos_tools.Merkle.Start.{IsStart-pow, node_from, tree_from, Active-pow}

le-suc_times : (h j : ℕ) → 2 ^ h ≤ suc j * 2 ^ h
le-suc_times h j = grind arith

module _ {D : Type 0} (o : DigestOps D) (laws : DigestLaws o) {base : ℕ} (t : Tree o base)
    (bs : List (SimBlock D)) (blocks : Blocks t.node base bs) (small : base + length bs < 2 ^ 31)
    (start : IsStart base) where
  -- In a chain whose block numbers are below 2 ^ 31, whose trees hold the ids of the blocks before
  -- them, and that begins behind an even number of blocks such that each right node above a block
  -- of it covers no block before it (`IsStart`: as with 0 or 2 ^ m blocks from 2 on), and under the
  -- laws on the digests, the path from each block to each later block of the chain is built without
  -- undefined behaviour, and passes verify_merkle_path.
  pub path_verifies :
      (from_block_num anchor_block_num : ℕ)
      → base < from_block_num
      → from_block_num < anchor_block_num
      → anchor_block_num ≤ base + length bs
      → (path : List D) × (get_block_id_merkle_path_to_anchor_block o bs from_block_num
            anchor_block_num
          ≡ some path)
        × (verify_merkle_path o path ≡ some true)
  path_verifies zero n b l f = elim b [ ]
  path_verifies (suc a) zero b l f = elim l [ ]
  path_verifies (suc a) (suc n) b l f =
      let (h, found, top) =
        merkle_path_found o laws t bs blocks small start a n (omega arith) (omega arith)
          (omega arith) in
      (
        _,
        found,
        verify-path_to o laws t a h (omega arith)
            (omega (arith, lt_pow_self h, le-suc_times h (shr a h))),
      )

  from_loop_yes :
      (rounds from_block_num anchor_block_num : ℕ)
      → base < from_block_num
      → from_block_num + rounds ≤ anchor_block_num
      → anchor_block_num ≤ base + length bs
      → All (λ r. r.2 ≡ some true) (from_loop o bs rounds from_block_num anchor_block_num)
  unfolding from_loop check_path
  from_loop_yes zero f n b l e = tt
  from_loop_yes (suc r) f n b l e =
      let (path, built, passed) = path_verifies f n b (omega arith) e in
      (rw built passed, from_loop_yes r (f + 1) n (omega arith) (omega arith) e)

  anchor_loop_yes :
      (rounds start_block_num anchor_block_num : ℕ)
      → base < start_block_num
      → start_block_num ≤ anchor_block_num
      → anchor_block_num + rounds ≤ base + length bs + 1
      → All (λ r. r.2 ≡ some true) (anchor_loop o bs rounds start_block_num anchor_block_num)
  unfolding anchor_loop
  anchor_loop_yes zero f n b l e = tt
  anchor_loop_yes (suc r) f n b l e =
      All-append _ (from_loop o bs (n - f) f n) _
        (from_loop_yes (n - f) f n b (omega arith) (omega arith))
        (anchor_loop_yes r f (n + 1) b (omega arith) (omega arith))

pub length-fill_loop :
    {D : Type 0} (o : DigestOps D) (digest : ℕ → D) (rounds i : ℕ) (last : SimBlock D)
    → length (fill_loop o digest rounds i last) ≡ suc rounds
unfolding fill_loop
length-fill_loop o digest zero i last = refl
length-fill_loop o digest (suc r) i last =
    ap suc (length-fill_loop o digest r (i + 1) (next_block o digest i last))

-- What the program relies on of `incremental_merkle::append`: the tree of the first `n` leaves
-- becomes that of the first `n + 1`.
pub record AppendLaw {D : Type 0} (o : DigestOps D) : Type 0 where
  pub append_lem :
      (base : ℕ) (t : Tree o base) (n : ℕ) (m : IncrementalMerkle D)
      → base ≤ n
      → Realizes t.node n m
      → Realizes t.node (suc n) (o.append m (t.node 0 (suc n)))

module _ {D : Type 0} (o : DigestOps D) (laws : DigestLaws o) (grows : AppendLaw o)
    (digest : ℕ → D) where
  pub fill_loop-Blocks :
      {base : ℕ} (t : Tree o base) (rounds i n : ℕ) (last : SimBlock D)
      → ((i n : ℕ) → 2 ≤ i → i + base ≡ n → t.node 0 n ≡ digest i)
      → base ≤ n
      → n + rounds + 2 < 2 ^ 32
      → i + base ≡ suc (suc n)
      → 2 ≤ i
      → last.block_num ≡ suc n
      → last.block_id ≡ t.node 0 (suc n)
      → Realizes t.node n last.blockroot_merkle
      → Blocks t.node n (fill_loop o digest rounds i last)
  unfolding fill_loop next_block
  fill_loop-Blocks t zero i n last ids b s e g num own tree = Blocks.block num own tree Blocks.end
  fill_loop-Blocks t (suc r) i n last ids b s e g num own tree = Blocks.block num own tree (
      fill_loop-Blocks t r (i + 1) (suc n) (next_block o digest i last) ids (omega arith)
        (omega arith) (omega arith) (omega arith)
        (rw num (omega (arith, add32_lem (suc n) 1 (omega arith)))) (sym (ids i (suc (suc n)) g e))
        (rw own (grows.append_lem _ t n last.blockroot_merkle b tree)))

  -- The ids of the simulated blocks, by block number.
  block_ids : ℕ → D
  block_ids n = if n == 16385 then digest 0 else digest (n - 16384)

  later_ids : (i n : ℕ) → 2 ≤ i → i + 16384 ≡ n → block_ids n ≡ digest i
  unfolding block_ids
  later_ids i n h e =
      let other : n == 16385 ≡ false = ground arith in rw other (ap digest (omega arith))

  -- Whatever digests `generate_digest` returns, each line that `main` prints says `yes`.
  pub main_yes : All (λ r. r.2 ≡ some true) (main o digest)
  unfolding main sim_chain block_one block_ids node_from tree_from
  main_yes =
      let t : Tree o 16384 = tree_from o 16384 (digest 1) block_ids in
      let blocks : Blocks t.node 16384 (fill_loop o digest 2000 2 (block_one o digest)) =
        fill_loop-Blocks t 2000 2 16384 (block_one o digest) later_ids (omega arith) (omega arith)
          (omega arith) (omega arith) refl refl
          (record { counted = refl; active = Active-pow t.node 14 0 14 (digest 1) [] refl refl }) in
      let size = length-fill_loop o digest 2000 2 (block_one o digest) in
      anchor_loop_yes o laws t _ blocks (omega arith) (IsStart-pow 13) 1791 16485 16585
        (omega arith) (omega arith) (omega arith)

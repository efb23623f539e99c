-- ===== src/Merkle/Sim.antt =====
-- The run of `main` in src/merkle/incremental_merkle.cpp: it fills `sim_chain` and checks the path
-- from each block of a range to each anchor block of another. `digest i` is what the call number i
-- of `generate_digest` returns.
use eos_tools.Prelude.{ℕ, zero, suc, ◌+◌, ◌-◌, Bool, Option, List, [], ◌∷◌, ◌++◌, ◌>>=◌}
use eos_tools.Prelude.Word.{add32}
use eos_tools.Merkle.Digest.{DigestOps}
use eos_tools.Merkle.Chain.{SimBlock}
use eos_tools.Merkle.Path.{get_block_id_merkle_path_to_anchor_block, verify_merkle_path}

abbrev pub sim_chain_start_block_num : ℕ
sim_chain_start_block_num = 16385

abbrev pub sim_chain_length : ℕ
sim_chain_length = 2000

module _ {D : Type 0} (o : DigestOps D) (digest : ℕ → D) where
  unfoldable pub block_one : SimBlock D
  block_one = record {
    block_num = 16385;
    block_id = digest 0;
    blockroot_merkle = record { node_count = 16384; active_nodes = digest 1 ∷ [] };
  }

  -- The block that follows `last`, with call number `i`.
  unfoldable pub next_block : ℕ → SimBlock D → SimBlock D
  next_block i last = record {
    block_num = add32 last.block_num 1;
    block_id = digest i;
    blockroot_merkle = o.append last.blockroot_merkle last.block_id;
  }

  -- The chain from `last` on, `rounds` blocks more.
  unfoldable pub fill_loop : ℕ → ℕ → SimBlock D → List (SimBlock D)
  fill_loop zero i last = last ∷ []
  fill_loop (suc rounds) i last = last ∷ fill_loop rounds (i + 1) (next_block i last)

  unfoldable pub sim_chain : List (SimBlock D)
  sim_chain = fill_loop sim_chain_length 2 block_one

module _ {D : Type 0} (o : DigestOps D) (chain : List (SimBlock D)) where
  -- A line of the output: the two blocks, and `yes` or `no`.
  unfoldable pub check_path : ℕ → ℕ → ℕ × ℕ × Option Bool
  check_path from_block_num anchor_block_num = (
    from_block_num,
    anchor_block_num,
    (do
      path_nodes ← get_block_id_merkle_path_to_anchor_block o chain from_block_num anchor_block_num
      verify_merkle_path o path_nodes),
  )

  unfoldable pub from_loop : ℕ → ℕ → ℕ → List (ℕ × ℕ × Option Bool)
  from_loop zero from_block_num anchor_block_num = []
  from_loop (suc rounds) from_block_num anchor_block_num =
      check_path from_block_num anchor_block_num
      ∷ from_loop rounds (from_block_num + 1) anchor_block_num

  unfoldable pub anchor_loop : ℕ → ℕ → ℕ → List (ℕ × ℕ × Option Bool)
  anchor_loop zero start_block_num anchor_block_num = []
  anchor_loop (suc rounds) start_block_num anchor_block_num =
      from_loop (anchor_block_num - start_block_num) start_block_num anchor_block_num
      ++ anchor_loop rounds start_block_num (anchor_block_num + 1)

unfoldable pub main : {D : Type 0} → DigestOps D → (ℕ → D) → List (ℕ × ℕ × Option Bool)
main o digest =
    let base_num = sim_chain_start_block_num in
    let anchor_start_num = base_num + 200 in
    let anchor_end_num = base_num + 1990 in
    anchor_loop o (sim_chain o digest) (anchor_end_num - anchor_start_num + 1) (base_num + 100)
      anchor_start_num

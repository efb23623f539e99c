-- ===== src/Tests/ForkDb.antt =====
-- The theorems on the fork database, applied to one that has the blocks from 3 on.
use eos_tools.Prelude.{
  ℕ, suc, Option, none, some, ◌≡◌, ◌-◌, ◌+◌, ◌≤◌, ltb, if◌then◌else◌, false, values, arith, refl,
}
use eos_tools.Prelude.Word.{u32_mod, add32}
use eos_tools.ForkDb.Read.{StateOps, Options, first_loop, headers_loop}
use eos_tools.ForkDb.Walk.{ancestor, first_loop-ancestor, headers_loop_one_more}

-- A state is its number here, and so is an id.
abbrev ops : StateOps ℕ ℕ
ops = record { block_num = λ s. s; previous = λ s. s - 1 }

abbrev get_block : ℕ → Option ℕ
get_block i = if ltb i 3 then none else some i

abbrev options : Options
options = record {
  first_block = 1;
  last_block = 4294967295;
  as_json_array = false;
  info = false;
  pack_header_from = 4;
  pack_header_interval = 2;
}

first_loop-ancestor_example :
    (first : ℕ) × (first_loop ops get_block u32_mod 6 ≡ some first)
    × (get_block (first - 1) ≡ none)
    × (ancestor ops get_block (6 - first) 6 ≡ some first)
    × (first ≤ 6)
first_loop-ancestor_example = first_loop-ancestor ops get_block 6 linked (omega arith)
  where
    linked : (s p : ℕ) → get_block (s - 1) ≡ some p → s ≡ suc p
    linked s p e = ground arith

headers_loop_three :
    headers_loop ops get_block get_block options u32_mod 4 ≡ some (values (λ k. k) 4 3)
unfolding headers_loop values add32
headers_loop_three = refl

headers_loop_one_more_example :
    headers_loop ops get_block get_block options u32_mod 4 ≡ some (values (λ k. k) 4 (suc 2))
headers_loop_one_more_example =
    headers_loop_one_more ops get_block get_block options (λ k. k) (omega arith) found
  where
    found : (k : ℕ) → 4 ≤ k → k ≤ 4 + 2 → get_block k ≡ some k
    found k x y = ground arith

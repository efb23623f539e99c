-- ===== src/Tests/BlockLog.antt =====
-- The theorem on the block log, applied to a log of two blocks and a database of the next.
use eos_tools.Prelude.{
  ℕ, suc, true, false, Option, none, some, List, [], ◌∷◌, ◌≡◌, ◌-◌, ◌≤◌, ◌<◌, refl, arith, min,
  values, ◌+◌, ltb, if◌then◌else◌,
}
use eos_tools.Prelude.Word.{u32_mod}
use eos_tools.BlockLog.Headers.{headers_loop-values}
use eos_tools.BlockLog.Read.{headers_loop, Options, print_blocks, find_by_num}
use eos_tools.BlockLog.Range.{range, print_blocks-range}

abbrev options : Options
options = record {
  first_block = 1;
  last_block = 4294967295;
  as_json_array = true;
  info = false;
  print_packed_header = false;
  print_packed_trx = false;
  pack_headers_from = 0;
  pack_headers_interval = 10;
}

-- A block is its number here, and holds no transactions.
abbrev two_blocks : ℕ → Option ℕ
two_blocks k = if ltb k 3 then some k else none

abbrev next_block : List (ℕ × ℕ)
next_block = (3, 3) ∷ []

print_blocks-range_example :
    print_blocks {T = ℕ} (λ (b : ℕ). b) (λ b. []) options 1 two_blocks (some next_block)
    ≡ some (
        range {T = ℕ}
          (λ (b : ℕ). b)
          (λ b. [])
          options
          (λ k. k)
          1
          (min 4 (suc 4294967295) - 1)
          false)
unfolding find_by_num
print_blocks-range_example =
    print_blocks-range {T = ℕ} (λ b. b) (λ b. []) options (λ k. k) two_blocks next_block 1 3 4
      (omega arith) (omega arith) (omega arith) (omega arith) in_log refl in_database absent
  where
    in_log : (k : ℕ) → 0 < k → k < 3 → two_blocks k ≡ some k
    in_log k x y = ground arith

    in_database : (k : ℕ) → 3 ≤ k → k < 4 → find_by_num next_block k ≡ some k
    in_database k x y = ground arith

    absent : find_by_num next_block 4 ≡ none
    absent = refl

abbrev packing : Options
packing = record options { pack_headers_from = 1; pack_headers_interval = 2 }

headers_loop-values_example :
    headers_loop {T = ℕ} (λ (b : ℕ). b) (λ b. []) packing u32_mod two_blocks 1
    ≡ some (values (λ k. k) 1 2)
headers_loop-values_example =
    headers_loop-values {T = ℕ} (λ b. b) (λ b. []) packing two_blocks (λ k. k) (omega arith) found
  where
    found : (k : ℕ) → 1 ≤ k → k < 1 + 2 → two_blocks k ≡ some k
    found k x y = ground arith

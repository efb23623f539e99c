-- ===== src/BlockLog/Headers.antt =====
-- The packed headers of `read_log` in src/eosio-blocklog2/blocklog.cpp.
use eos_tools.Prelude.{
  ℕ, zero, suc, Option, some, List, ◌+◌, ◌≤◌, ◌<◌, ◌≡◌, refl, arith, ltb_no, lt→ltb, values,
}
use eos_tools.Prelude.Word.{add32_lem, u32_mod}
use eos_tools.BlockLog.Read.{Options, headers_loop}

module _ {B T : Type 0} (block_num : B → ℕ) (transactions : B → List T) (options : Options) where
  headers_from :
      (read : ℕ → Option B) (chain : ℕ → B) (rounds n count : ℕ)
      → count < rounds
      → n + count ≡ options.pack_headers_from + options.pack_headers_interval
      → n + count < u32_mod
      → ((k : ℕ) → n ≤ k → k < n + count → read k ≡ some (chain k))
      → headers_loop block_num transactions options rounds read n ≡ some (values chain n count)
  unfolding headers_loop values
  headers_from read chain zero n count m e b h = absurd (omega arith)
  headers_from read chain (suc rounds) n zero m e b h =
      let from = options.pack_headers_from in
      let interval = options.pack_headers_interval in
      let past = ltb_no n (from + interval) (omega arith) in
      rw (add32_lem from interval (omega arith), past, headers_loop) refl
  headers_from read chain (suc rounds) n (suc count) m e b h =
      let from = options.pack_headers_from in
      let interval = options.pack_headers_interval in
      let within = lt→ltb n (from + interval) (omega arith) in
      rw
        (
          add32_lem from interval (omega arith),
          within,
          h n (omega arith) (omega arith),
          add32_lem n 1 (omega arith),
          headers_from read chain rounds (n + 1) count (omega arith) (omega arith) (omega arith)
              (λ k x y. h k (omega arith) (omega arith)),
          headers_loop,
        )
        refl

-- Where the log has the blocks, `headers_loop` packs `pack_headers_interval` headers, from
-- `pack_headers_from` on.
pub headers_loop-values :
    {B T : Type 0} (block_num : B → ℕ) (transactions : B → List T) (options : Options)
    (read : ℕ → Option B) (chain : ℕ → B)
    → options.pack_headers_from + options.pack_headers_interval < u32_mod
    → ((k : ℕ)
        → options.pack_headers_from ≤ k
        → k < options.pack_headers_from + options.pack_headers_interval
        → read k ≡ some (chain k))
    → headers_loop block_num transactions options u32_mod read options.pack_headers_from
      ≡ some (values chain options.pack_headers_from options.pack_headers_interval)
headers_loop-values block_num transactions options read chain b h =
    headers_from block_num transactions options read chain u32_mod options.pack_headers_from
      options.pack_headers_interval (omega arith) refl b h

-- ===== src/ForkDb/Walk.antt =====
-- The first block and the packed headers of `read_log` in src/eosio-forkdb/forkdb.cpp.
use eos_tools.Prelude.{
  ℕ, zero, suc, Option, none, some, ◌+◌, ◌-◌, ◌≤◌, ◌<◌, ◌≡◌, refl, arith, inl, inr, Option-cases,
  leb_no, le→leb, ◌>>=◌, values, subst,
}
use eos_tools.Prelude.Word.{add32_lem, u32_mod}
use eos_tools.ForkDb.Read.{StateOps, Options, first_loop, headers_loop}

module _ {S I : Type 0} (ops : StateOps S I) (get_block : I → Option S) where
  open ops use {block_num, previous}

  -- The state that is `k` blocks before.
  unfoldable pub ancestor : ℕ → S → Option S
  ancestor zero s = some s
  ancestor (suc k) s = do parent ← get_block (previous s); ancestor k parent

  walk_back :
      (rounds : ℕ) (s : S)
      → ((s p : S) → get_block (previous s) ≡ some p → block_num s ≡ suc (block_num p))
      → block_num s < rounds
      → (first : S) × (k : ℕ) × (first_loop ops get_block rounds s ≡ some first)
        × (get_block (previous first) ≡ none)
        × (ancestor k s ≡ some first)
        × (block_num s ≡ block_num first + k)
  unfolding first_loop ancestor
  walk_back zero s linked b = absurd (omega arith)
  walk_back (suc rounds) s linked b = elim (Option-cases (get_block (previous s))) [
    | inl n ↦ (s, 0, rw (n, first_loop) refl, n, refl, omega arith)
    | inr (p, e) ↦
        let below = linked s p e in
        let (first, k, r, n, a, d) = walk_back rounds p linked (omega arith) in
        (first, suc k, rw (e, first_loop) r, n, rw (e, ancestor) a, omega arith)
  ]

-- Where each state has the number after that of its parent, the walk ends at a state without a
-- parent in the database, and that state is as many blocks before the head as their numbers differ.
pub first_loop-ancestor :
    {S I : Type 0} (ops : StateOps S I) (get_block : I → Option S) (end : S)
    → ((s p : S) → get_block (ops.previous s) ≡ some p → ops.block_num s ≡ suc (ops.block_num p))
    → ops.block_num end < u32_mod
    → (first : S) × (first_loop ops get_block u32_mod end ≡ some first)
      × (get_block (ops.previous first) ≡ none)
      × (ancestor ops get_block (ops.block_num end - ops.block_num first) end ≡ some first)
      × (ops.block_num first ≤ ops.block_num end)
first_loop-ancestor ops get_block end linked b =
    let (first, k, r, n, a, d) = walk_back ops get_block u32_mod end linked b in
    let apart : k ≡ ops.block_num end - ops.block_num first = omega arith in
    (first, r, n, subst (λ x. ancestor ops get_block x end ≡ some first) apart a, omega arith)

headers_from :
    {S I : Type 0} (ops : StateOps S I) (get_block : I → Option S) (get_by_num : ℕ → Option S)
    (options : Options) (chain : ℕ → S) (rounds n count : ℕ)
    → count < rounds
    → n + count ≡ suc (options.pack_header_from + options.pack_header_interval)
    → n + count < u32_mod
    → ((k : ℕ) → n ≤ k → k < n + count → get_by_num k ≡ some (chain k))
    → headers_loop ops get_block get_by_num options rounds n ≡ some (values chain n count)
unfolding headers_loop values
headers_from ops get_block get_by_num options chain zero n count m e b h = absurd (omega arith)
headers_from ops get_block get_by_num options chain (suc rounds) n zero m e b h =
    let from = options.pack_header_from in
    let interval = options.pack_header_interval in
    let past = leb_no n (from + interval) (omega arith) in
    rw (add32_lem from interval (omega arith), past, headers_loop) refl
headers_from ops get_block get_by_num options chain (suc rounds) n (suc count) m e b h =
    let from = options.pack_header_from in
    let interval = options.pack_header_interval in
    let within = le→leb n (from + interval) (omega arith) in
    rw
      (
        add32_lem from interval (omega arith),
        within,
        h n (omega arith) (omega arith),
        add32_lem n 1 (omega arith),
        headers_from ops get_block get_by_num options chain rounds (n + 1) count (omega arith)
            (omega arith) (omega arith) (λ k x y. h k (omega arith) (omega arith)),
        headers_loop,
      )
      refl

-- Where the current chain has the blocks, `headers_loop` packs one header more than
-- `pack_header_interval`.
pub headers_loop_one_more :
    {S I : Type 0} (ops : StateOps S I) (get_block : I → Option S) (get_by_num : ℕ → Option S)
    (options : Options) (chain : ℕ → S)
    → options.pack_header_from + options.pack_header_interval + 1 < u32_mod
    → ((k : ℕ)
        → options.pack_header_from ≤ k
        → k ≤ options.pack_header_from + options.pack_header_interval
        → get_by_num k ≡ some (chain k))
    → headers_loop ops get_block get_by_num options u32_mod options.pack_header_from
      ≡ some (values chain options.pack_header_from (suc options.pack_header_interval))
headers_loop_one_more ops get_block get_by_num options chain b h =
    headers_from ops get_block get_by_num options chain u32_mod options.pack_header_from
      (suc options.pack_header_interval) (omega arith) (omega arith) (omega arith)
      (λ k x y. h k x (omega arith))

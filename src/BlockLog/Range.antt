-- ===== src/BlockLog/Range.antt =====
-- The blocks that `read_log` of src/eosio-blocklog2/blocklog.cpp writes.
use eos_tools.Prelude.{
  ℕ, zero, suc, Bool, true, false, Option, none, some, List, [], ◌∷◌, ◌++◌, ◌+◌, ◌-◌, ◌<◌, ◌≤◌, ◌≡◌,
  ◌&&◌, leb, if◌then◌else◌, refl, sym, ap, ◌∙◌, arith, ◌⊎◌, inl, inr, Bool-cases, subst, leb_no,
  le→leb, leb→le, min,
}
use mathlib.Core.List.{append_assoc}
use mathlib.Core.Bool.{true≢false}
use eos_tools.Prelude.Word.{add32_lem, u32_mod}
use eos_tools.BlockLog.Read.{
  Options, Item, comma, print_block, print_loop, print_blocks, find_by_num,
}

module _ {B T : Type 0} (block_num : B → ℕ) (transactions : B → List T) (options : Options) where
  -- The items for the blocks of `count` numbers from `n` on; `contains` where some are before them.
  unfoldable pub range : (ℕ → B) → ℕ → ℕ → Bool → List (Item B T)
  range chain n zero contains = []
  range chain n (suc count) contains =
      (if options.as_json_array && contains then comma ∷ [] else [])
      ++ print_block block_num transactions options (chain n)
      ++ range chain (n + 1) count true

  unfoldable some_before : ℕ → Bool → Bool
  some_before zero contains = contains
  some_before (suc count) contains = true

  later_before : (count : ℕ) → some_before count true ≡ true
  unfolding some_before
  later_before zero = refl
  later_before (suc count) = refl

  loop_range :
      (chain : ℕ → B) (find : ℕ → Option B) (rounds n count : ℕ) (contains : Bool)
      → count < rounds
      → n + count < u32_mod
      → ((k : ℕ) → n ≤ k → k < n + count → find k ≡ some (chain k))
      → ((k : ℕ) → n ≤ k → k < n + count → k ≤ options.last_block)
      → (options.last_block < n + count) ⊎ (find (n + count) ≡ none)
      → print_loop block_num transactions options rounds find n contains
        ≡ some (range chain n count contains, n + count, some_before count contains)
  unfolding print_loop range some_before
  loop_range chain find zero n count contains m b h l e = absurd (omega arith)
  loop_range chain find (suc rounds) n zero contains m b h l e =
      let same : n + 0 ≡ n = omega arith in
      elim e [
        | inl past ↦ rw (same, leb_no n options.last_block (omega arith), print_loop) refl
        | inr absent ↦
            let absent_here : find n ≡ none = ap find (sym same) ∙ absent in
            elim (Bool-cases (leb n options.last_block)) [
              | inl t ↦ rw (same, t, absent_here, print_loop) refl
              | inr f ↦ rw (same, f, print_loop) refl
            ]
      ]
  loop_range chain find (suc rounds) n (suc count) contains m b h l e =
      let same : n + suc count ≡ n + 1 + count = omega arith in
      let end_here = subst (λ x. (options.last_block < x) ⊎ (find x ≡ none)) same e in
      rw
        (
          le→leb n options.last_block (l n (omega arith) (omega arith)),
          h n (omega arith) (omega arith),
          add32_lem n 1 (omega arith),
          loop_range chain find rounds (n + 1) count true (omega arith) (omega arith)
              (λ k x y. h k (omega arith) (omega arith)) (λ k x y. l k (omega arith) (omega arith))
              end_here,
          same,
          print_loop,
        )
        (ap (λ c. some (range chain n (suc count) contains, n + 1 + count, c)) (later_before count))

  range-append :
      (chain : ℕ → B) (n a b : ℕ) (contains : Bool)
      → range chain n (a + b) contains
        ≡ range chain n a contains ++ range chain (n + a) b (some_before a contains)
  unfolding range some_before
  range-append chain n zero b contains =
      let same : n + 0 ≡ n = omega arith in
      let none_more : 0 + b ≡ b = omega arith in rw (same, none_more) refl
  range-append chain n (suc a) b contains =
      let one_more : suc a + b ≡ suc (a + b) = omega arith in
      let same : n + suc a ≡ n + 1 + a = omega arith in
      let separator : List (Item B T) =
        if options.as_json_array && contains then comma ∷ [] else [] in
      let printed = print_block block_num transactions options (chain n) in
      let first = range chain (n + 1) a true in
      let later = range chain (n + 1 + a) b true in
      rw (one_more, same, range-append chain (n + 1) a b true, later_before a)
        (sym (append_assoc (separator ++ printed) first later))

  -- How many blocks from `n` on are written out of those before `end`.
  abbrev wanted : ℕ → ℕ → ℕ
  wanted n end = min end (suc options.last_block) - n

  -- A store that has the blocks before `end`, and not the next one.
  store_loop :
      (chain : ℕ → B) (find : ℕ → Option B) (n end : ℕ) (contains : Bool)
      → n ≤ end
      → end < u32_mod
      → ((k : ℕ) → n ≤ k → k < end → k ≤ options.last_block → find k ≡ some (chain k))
      → find end ≡ none
      → print_loop block_num transactions options u32_mod find n contains
        ≡ some (
          range chain n (wanted n end) contains,
          n + wanted n end,
          some_before (wanted n end) contains,
        )
  store_loop chain find n end contains m b held absent =
      loop_range chain find u32_mod n (wanted n end) contains (omega arith) (omega arith)
        (λ k x y. held k x (omega arith) (omega arith)) (λ k x y. omega arith)
        (elim (Bool-cases (leb end options.last_block)) [
          | inl t ↦
              let here : n + wanted n end ≡ end = omega (arith, leb→le end options.last_block t) in
              inr (ap find here ∙ absent)
          | inr f ↦
              let below : ¬ (end ≤ options.last_block) =
                λ h. true≢false (sym (le→leb end options.last_block h) ∙ f) in
              inl (omega arith)
        ])

-- Where the log has the blocks of `chain` from 1 up to `log_end`, the database those from there up
-- to `end`, and neither the one that follows its own, and `n` is not behind `log_end`,
-- `print_blocks` writes the blocks from `n` up to the last one asked for, or up to `end`: each
-- once, in order and with commas between.
pub print_blocks-range :
    {B T : Type 0} (block_num : B → ℕ) (transactions : B → List T) (options : Options)
    (chain : ℕ → B) (read : ℕ → Option B) (entries : List (ℕ × B)) (n log_end end : ℕ)
    → 0 < n
    → n ≤ log_end
    → log_end ≤ end
    → end < u32_mod
    → ((k : ℕ) → 0 < k → k < log_end → read k ≡ some (chain k))
    → read log_end ≡ none
    → ((k : ℕ) → log_end ≤ k → k < end → find_by_num entries k ≡ some (chain k))
    → find_by_num entries end ≡ none
    → print_blocks block_num transactions options n read (some entries)
      ≡ some (
          range block_num transactions options chain n (min end (suc options.last_block) - n) false)
unfolding print_blocks
print_blocks-range block_num transactions options chain read entries n log_end end p m l b logged
      log_ends kept kept_ends =
    let first = wanted block_num transactions options n log_end in
    let second = wanted block_num transactions options (n + first) end in
    let total : first + second ≡ min end (suc options.last_block) - n = omega arith in
    rw
      (
        store_loop block_num transactions options chain read n log_end false m (omega arith)
            (λ k x y z. logged k (omega arith) y) log_ends,
        store_loop block_num transactions options chain (find_by_num entries) (n + first) end _
            (omega arith) b (λ k x y z. kept k (omega arith) y) kept_ends,
        ← total,
      )
      (ap some (sym (range-append block_num transactions options chain n first second false)))

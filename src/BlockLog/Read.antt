-- ===== src/BlockLog/Read.antt =====
-- `blocklog::read_log` of src/eosio-blocklog2/blocklog.cpp. Parameters are the blocks and the two
-- stores of them, eosio's block log and the database of reversible blocks. What is written is a list
-- of items, of which the text is eosio's.
use eos_tools.Prelude.{
  ℕ, zero, suc, Bool, true, false, Option, none, some, List, [], ◌∷◌, ◌++◌, ◌&&◌, ◌==◌, leb, ltb,
  if◌then◌else◌, ◌>>=◌, map,
}
use eos_tools.Prelude.Word.{add32, u32_mod}

pub record Options : Type 0 where
  pub first_block : ℕ
  pub last_block : ℕ
  pub as_json_array : Bool
  pub info : Bool
  pub print_packed_header : Bool
  pub print_packed_trx : Bool
  pub pack_headers_from : ℕ
  pub pack_headers_interval : ℕ

pub data Item (B T : Type 0) : Type 0 where
  log_contains : ℕ → Item B T
  existing_reversible : ℕ → ℕ → Item B T
  no_reversible : Item B T
  bracket_open : Item B T
  bracket_close : Item B T
  comma : Item B T
  block : B → Item B T
  packed_header : B → Item B T
  packed_trx : T → Item B T
  packed_headers : ℕ → ℕ → List B → Item B T

pub data Outcome (B T : Type 0) : Type 0 where
  no_blocks_found : Outcome B T
  only_one_block_found : Outcome B T
  unable_to_open_file : List (Item B T) → Outcome B T
  finished : List (Item B T) → Outcome B T

-- `lower_bound` in the index by number, whose entries ascend: the first entry that is not below.
unfoldable pub lower_bound : {B : Type 0} → List (ℕ × B) → ℕ → Option (ℕ × B)
lower_bound [] n = none
lower_bound ((k, b) ∷ entries) n =
    let rest = lower_bound entries n in if ltb k n then rest else some (k, b)

unfoldable pub rbegin : {B : Type 0} → List (ℕ × B) → Option (ℕ × B)
rbegin [] = none
rbegin (e ∷ []) = some e
rbegin (e ∷ f ∷ entries) = rbegin (f ∷ entries)

unfoldable pub find_by_num : {B : Type 0} → List (ℕ × B) → ℕ → Option B
find_by_num [] n = none
find_by_num ((k, b) ∷ entries) n =
    let rest = find_by_num entries n in if k == n then some b else rest

module _ {B T : Type 0} (block_num : B → ℕ) (transactions : B → List T) (options : Options) where
  open options use {
    first_block, last_block, as_json_array, info, print_packed_header, print_packed_trx,
    pack_headers_from, pack_headers_interval,
  }

  -- The database is kept only where it goes on from the end of the log.
  unfoldable pub reversible_part :
      B → Option (List (ℕ × B)) → List (Item B T) × Option (List (ℕ × B))
  reversible_part end none = ([], none)
  reversible_part end (some entries) = elim (lower_bound entries (block_num end)) [
    | none ↦ (no_reversible ∷ [], none)
    | some first ↦ elim (rbegin entries) [
      | none ↦ (no_reversible ∷ [], none)
      | some last ↦ (existing_reversible (block_num first.1) (block_num last.1) ∷ [], some entries)
    ]
  ]

  unfoldable pub print_block : B → List (Item B T)
  print_block next =
      block next ∷ []
      ++ (if print_packed_header then packed_header next ∷ [] else [])
      ++ (if print_packed_trx then map packed_trx (transactions next) else [])

  -- A `while` loop over the blocks that `find` has. `none` where the rounds do not do.
  unfoldable pub print_loop : ℕ → (ℕ → Option B) → ℕ → Bool → Option (List (Item B T) × ℕ × Bool)
  print_loop zero find num contains_obj = none
  print_loop (suc rounds) find num contains_obj = elim (leb num last_block) [
    | false ↦ some ([], num, contains_obj)
    | true ↦ elim (find num) [
      | none ↦ some ([], num, contains_obj)
      | some next ↦ (do
        (items, end_num, contains) ← print_loop rounds find (add32 num 1) true
        some (
          (if as_json_array && contains_obj then comma ∷ [] else []) ++ print_block next ++ items,
          end_num,
          contains,
        ))
    ]
  ]

  -- The two loops, each with as many rounds as there are block numbers.
  unfoldable pub print_blocks :
      ℕ → (ℕ → Option B) → Option (List (ℕ × B)) → Option (List (Item B T))
  print_blocks num read_block_by_num reversible_blocks = do
    (items, next_num, contains_obj) ← print_loop u32_mod read_block_by_num num false
    elim reversible_blocks [
      | none ↦ some items
      | some entries ↦ (do
        (later, end_num, contains) ← print_loop u32_mod (find_by_num entries) next_num contains_obj
        some (items ++ later))
    ]

  unfoldable pub headers_loop : ℕ → (ℕ → Option B) → ℕ → Option (List B)
  headers_loop zero read_block_by_num num = none
  headers_loop (suc rounds) read_block_by_num num =
      elim (ltb num (add32 pack_headers_from pack_headers_interval)) [
        | false ↦ some []
        | true ↦ elim (read_block_by_num num) [
          | none ↦ some []
          | some next ↦ (do
            headers ← headers_loop rounds read_block_by_num (add32 num 1)
            some (next ∷ headers))
        ]
      ]

  unfoldable pub write_blocks : (ℕ → Option B) → Option (List (ℕ × B)) → Option (List (Item B T))
  write_blocks read_block_by_num reversible_blocks =
      if pack_headers_from == 0
      then print_blocks (if ltb first_block 1 then 1 else first_block) read_block_by_num
          reversible_blocks
      else (do
        headers ← headers_loop u32_mod read_block_by_num pack_headers_from
        some (packed_headers pack_headers_from pack_headers_interval headers ∷ []))

  -- `opened` is the database of reversible blocks, where it could be opened, `file_opens` whether
  -- the output file can be.
  unfoldable pub read_log :
      Option B → (ℕ → Option B) → Option (List (ℕ × B)) → Bool → Option (Outcome B T)
  read_log none read_block_by_num opened file_opens = some no_blocks_found
  read_log (some end) read_block_by_num opened file_opens =
      if leb (block_num end) 1
      then some only_one_block_found
      else let (messages, reversible_blocks) = reversible_part end opened in
        let shown = log_contains (block_num end) ∷ messages in
        if info
        then some (finished shown)
        else if file_opens
        then (do
          items ← write_blocks read_block_by_num reversible_blocks
          some (
              finished (
                shown
                ++ (if as_json_array then bracket_open ∷ [] else [])
                ++ items
                ++ (if as_json_array then bracket_close ∷ [] else []))))
        else some (unable_to_open_file shown)

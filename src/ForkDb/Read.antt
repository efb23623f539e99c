-- ===== src/ForkDb/Read.antt =====
-- `forkdb::read_log` of src/eosio-forkdb/forkdb.cpp. The block states and eosio's `fork_database` are
-- parameters: `get_block` finds a state by its id, `get_by_num` one of the current chain by its
-- number, with `none` for the null pointer. What is written is a list of items, of which the text is
-- eosio's.
use eos_tools.Prelude.{
  ℕ, zero, suc, Bool, true, false, Option, none, some, List, [], ◌∷◌, ◌++◌, ◌&&◌, ◌==◌, leb, ltb,
  if◌then◌else◌, ◌>>=◌,
}
use eos_tools.Prelude.Word.{add32, sub32, u32_mod}

pub record Options : Type 0 where
  pub first_block : ℕ
  pub last_block : ℕ
  pub as_json_array : Bool
  pub info : Bool
  pub pack_header_from : ℕ
  pub pack_header_interval : ℕ

-- What eosio has of a block state: its number and the id that its header names as the previous one.
pub record StateOps (S I : Type 0) : Type 0 where
  pub block_num : S → ℕ
  pub previous : S → I

pub data Item (S : Type 0) : Type 0 where
  db_contains : ℕ → ℕ → ℕ → Item S
  bracket_open : Item S
  bracket_close : Item S
  comma : Item S
  block : S → Item S
  block_details : S → Item S
  packed_headers : List S → Item S

pub data Outcome (S : Type 0) : Type 0 where
  no_blocks_found : Outcome S
  unable_to_open_file : List (Item S) → Outcome S
  finished : List (Item S) → Outcome S

module _ {S I : Type 0} (ops : StateOps S I) (get_block : I → Option S) where
  open ops use {block_num, previous}

  -- The walk to the first block. `none` where the rounds do not do.
  unfoldable pub first_loop : ℕ → S → Option S
  first_loop zero first = none
  first_loop (suc rounds) first = elim (get_block (previous first)) [
    | none ↦ some first
    | some parent ↦ first_loop rounds parent
  ]

  module _ (get_by_num : ℕ → Option S) (options : Options) where
    open options use {
      first_block, last_block, as_json_array, info, pack_header_from, pack_header_interval,
    }

    unfoldable pub print_block : S → List (Item S)
    print_block next = block next ∷ block_details next ∷ []

    unfoldable pub print_loop : ℕ → ℕ → Bool → Option (List (Item S))
    print_loop zero num contains_obj = none
    print_loop (suc rounds) num contains_obj = elim (leb num last_block) [
      | false ↦ some []
      | true ↦ elim (get_by_num num) [
        | none ↦ some []
        | some next ↦ (do
          items ← print_loop rounds (add32 num 1) true
          some (
              (if as_json_array && contains_obj then comma ∷ [] else [])
              ++ print_block next
              ++ items))
      ]
    ]

    unfoldable pub headers_loop : ℕ → ℕ → Option (List S)
    headers_loop zero num = none
    headers_loop (suc rounds) num = elim (leb num (add32 pack_header_from pack_header_interval)) [
      | false ↦ some []
      | true ↦ elim (get_by_num num) [
        | none ↦ some []
        | some next ↦ (do headers ← headers_loop rounds (add32 num 1); some (next ∷ headers))
      ]
    ]

    unfoldable pub write_blocks : S → Option (List (Item S))
    write_blocks first =
        if pack_header_from == 0
        then print_loop u32_mod
            (if ltb first_block (block_num first) then block_num first else first_block) false
        else (do
          headers ← headers_loop u32_mod pack_header_from
          some (packed_headers headers ∷ []))

    -- `head` is that of the database, `file_opens` whether the output file can be opened.
    unfoldable pub read_log : Option S → Bool → Option (Outcome S)
    read_log none file_opens = some no_blocks_found
    read_log (some end) file_opens = do
      first ← first_loop u32_mod end
      let count = add32 (sub32 (block_num end) (block_num first)) 1
      let shown = db_contains count (block_num first) (block_num end) ∷ []
      if info
          then some (finished shown)
          else if file_opens
          then (do
            items ← write_blocks first
            some (
                finished (
                  shown
                  ++ (if as_json_array then bracket_open ∷ [] else [])
                  ++ items
                  ++ (if as_json_array then bracket_close ∷ [] else []))))
          else some (unable_to_open_file shown)

-- ===== src/Pbft/Read.antt =====
-- `blocklog::read_log` of src/eosio-pbftdb/pbftlog.cpp and of src/eosio-checkpoints/checkpoints.cpp.
-- `unpack` is `fc::raw::unpack` of a state, `unpack_size` that of the count and `unpack_view` that of
-- the view: each takes bytes and returns the value with the bytes that follow, or `none` for its
-- exception. The text of a state is eosio's.
use eos_tools.Prelude.{ℕ, zero, suc, Option, none, some, List, ◌∷◌, ◌>>=◌, map}
use eos_tools.Pbft.Index.{IndexOps}

abbrev pub Bytes : Type 0
Bytes = List ℕ

pub data Item (S : Type 0) : Type 0 where
  file_not_exist : Item S
  info : S → Item S

module _ {S C : Type 0} (index : IndexOps S C) (unpack : Bytes → Option (S × Bytes)) where
  -- The `for` loop over the states of a file; the two tools have the same.
  unfoldable pub load_loop : ℕ → Bytes → C → Option C
  load_loop zero ds c = some c
  load_loop (suc rounds) ds c = do (s, rest) ← unpack ds; load_loop rounds rest (index.insert c s)

  unfoldable pub print_all : C → List (Item S)
  print_all c = map info (index.ordered c)

  module _ (unpack_size : Bytes → Option (ℕ × Bytes)) where
    -- Of the checkpoints; `content` is that of checkpoints.dat, where the file exists.
    unfoldable pub read_checkpoints : Option Bytes → Option (List (Item S))
    read_checkpoints none = some (file_not_exist ∷ print_all index.empty)
    read_checkpoints (some content) = do
      (size, ds) ← unpack_size content
      c ← load_loop size ds index.empty
      some (print_all c)

    -- Of the pbft database; `content` is that of pbftdb.dat, where the file exists.
    unfoldable pub read_states :
        (Bytes → Option (ℕ × Bytes)) → Option Bytes → Option (List (Item S))
    read_states unpack_view none = some (print_all index.empty)
    read_states unpack_view (some content) = do
      (current_view, ds) ← unpack_view content
      (size, ds') ← unpack_size ds
      c ← load_loop size ds' index.empty
      some (print_all c)

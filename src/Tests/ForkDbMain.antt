-- ===== src/Tests/ForkDbMain.antt =====
-- The theorems on `main` of the fork database tool, applied to a database that has the blocks from 3
-- to 6.
use Prim.Native.String.{◌++◌}
use eos_tools.Prelude.{
  ℕ, Bool, true, false, Option, none, some, List, [], ◌∷◌, All, ◌≡◌, refl, ◌-◌, ltb, if◌then◌else◌,
}
use eos_tools.Prelude.Text.{String}
use eos_tools.Prelude.Word.{add32, sub32}
use eos_tools.ForkDb.Read.{
  StateOps, read_log, first_loop, headers_loop, print_block, print_loop, write_blocks,
}
use eos_tools.ForkDb.Options.{OptionDef, VariablesMap}
use eos_tools.ForkDb.Run.{
  Action, exists, remove_all, World, act, ask, pure, throw, never, continue, ◌>>=◌, attempt,
  or_throw,
}
use eos_tools.ForkDb.Main.{
  ForkDatabase, Paths, returned_0, absolute, temporary, make_tmp_dir, remove_old, output_path,
  initialize_in, initialize, written, read_db, print_db, run_with, tried, end_main, main,
}
use eos_tools.ForkDb.Temporary.{StaysInside, Printed, main-StaysInside, main-Printed}

abbrev ops : StateOps ℕ ℕ
ops = record { block_num = λ s. s; previous = λ s. s - 1 }

abbrev from_three : ℕ → Option ℕ
from_three i = if ltb i 3 then none else if ltb i 7 then some i else none

abbrev open_db : String → Option (ForkDatabase ℕ ℕ)
open_db dir = some (record {
  head = some 6;
  get_block = from_three;
  get_block_in_current_chain_by_num = from_three;
})

abbrev paths : Paths
paths = record {
  is_relative = λ p. true;
  current_path = "/home";
  slash = λ a b. a ++ "/" ++ b;
  forkdb_filename = "forkdb.dat";
}

-- A file system in which `tmp` is new and all that is tried succeeds.
abbrev world : World ℕ
world (exists file ∷ s) = false
world s = true

abbrev vmap : VariablesMap
vmap = record {
  help = 0;
  blocks_dir = some "db";
  output_file = none;
  members = record {
    first_block = 1;
    last_block = 4294967295;
    as_json_array = false;
    info = false;
    pack_header_from = 0;
    pack_header_interval = 10;
  };
}

abbrev parse : List OptionDef → List String → Option VariablesMap
parse table args = some vmap

abbrev can_open : String → Bool
can_open file = true

run_ends : (main world paths ops open_db can_open parse []).0 ≡ returned_0
unfolding main end_main tried run_with print_db initialize initialize_in make_tmp_dir remove_old
    written read_db absolute output_path temporary act ask pure throw never continue ◌>>=◌ attempt
    or_throw read_log first_loop headers_loop print_block print_loop write_blocks add32 sub32
run_ends = refl

main-StaysInside_example :
    All (StaysInside paths "db") (main world paths ops open_db can_open parse []).1
main-StaysInside_example =
    main-StaysInside world paths "db" ops open_db can_open parse [] vmap refl refl

main-Printed_example :
    (s : List (Action ℕ)) × Printed world paths "db" ops open_db can_open vmap s
    × ((main world paths ops open_db can_open parse []).1 ≡ remove_all "/home/db/tmp" ∷ s)
unfolding temporary absolute
main-Printed_example =
    main-Printed world paths "db" ops open_db can_open parse [] vmap refl refl refl run_ends

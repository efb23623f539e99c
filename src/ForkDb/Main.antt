-- ===== src/ForkDb/Main.antt =====
-- `forkdb::initialize` and `main` of eosio-forkdb/forkdb.cpp. The file system, boost's options and
-- paths, and eosio's reader of the file are parameters; `slash` is the operator `/` on paths,
-- `forkdb_filename` the constant of eosio's config.
use eos_tools.Prelude.{ℕ, Bool, Option, none, some, List, [], ◌∷◌, ltb, ◌||◌, if◌then◌else◌}
use eos_tools.Prelude.Text.{String, str_eq}
use eos_tools.ForkDb.Read.{
  StateOps, Options, Outcome, no_blocks_found, unable_to_open_file, finished, read_log,
}
use eos_tools.ForkDb.Options.{OptionDef, VariablesMap, program_options}
use eos_tools.ForkDb.Run.{
  Action, is_directory, exists, create_directories, remove, copy_file, remove_all, print,
  print_help, elog, Result, done, thrown, endless, World, Run, act, ask, pure, throw, never, ◌>>=◌,
  attempt, or_throw,
}

-- eosio's `fork_database`, opened.
pub record ForkDatabase (S I : Type 0) : Type 0 where
  pub head : Option S
  pub get_block : I → Option S
  pub get_block_in_current_chain_by_num : ℕ → Option S

pub record Paths : Type 0 where
  pub is_relative : String → Bool
  pub current_path : String
  pub slash : String → String → String
  pub forkdb_filename : String

-- The members that `initialize` sets, and the global `tmp_dir`.
pub record Dirs : Type 0 where
  pub blocks_dir : String
  pub tmp_dir : String
  pub output_file : String

-- How `main` ends: `terminated` by an exception outside of `try`.
pub data Exit : Type 0 where
  returned_0 : Exit
  returned_minus_1 : Exit
  terminated : Exit
  never_ends : Exit

unfoldable pub absolute : Paths → String → String
absolute paths bld =
    let joined = paths.slash paths.current_path bld in if paths.is_relative bld then joined else bld

unfoldable pub temporary : Paths → String → String
temporary paths bld = paths.slash (absolute paths bld) "tmp"

module _ {S : Type 0} (world : World S) (paths : Paths) where
  open paths use {slash, forkdb_filename}

  unfoldable pub make_tmp_dir : String → Run S (Unit {0})
  make_tmp_dir tmp_dir = do
    there ← ask world (is_directory tmp_dir)
    if there then pure tt else attempt world (create_directories tmp_dir)

  unfoldable pub remove_old : String → Run S (Unit {0})
  remove_old tmp_file = do
    old ← ask world (exists tmp_file)
    if old then attempt world (remove tmp_file) else pure tt

  unfoldable pub output_path : Option String → String
  output_path none = ""
  output_path (some bld) = absolute paths bld

  -- The steps of `initialize` behind the reading of `blocks-dir`.
  unfoldable pub initialize_in : VariablesMap → String → Run S Dirs
  initialize_in options bld = do
    let blocks_dir = absolute paths bld
    let tmp_dir = temporary paths bld
    made ← make_tmp_dir tmp_dir
    removed ← remove_old (slash tmp_dir forkdb_filename)
    copied ←
        attempt world (copy_file (slash blocks_dir forkdb_filename) (slash tmp_dir forkdb_filename))
    pure (record {
      blocks_dir = tmp_dir;
      tmp_dir = tmp_dir;
      output_file = output_path options.output_file;
    })

  unfoldable pub initialize : VariablesMap → Run S Dirs
  initialize options = or_throw options.blocks_dir >>= initialize_in options

  module _ {I : Type 0} (ops : StateOps S I) (open_db : String → Option (ForkDatabase S I))
      (can_open : String → Bool) where
    -- What `read_log` writes before it returns or throws.
    unfoldable pub written : Option (Outcome S) → Run S (Unit {0})
    written none = never
    written (some no_blocks_found) = throw
    written (some (unable_to_open_file items)) = do shown ← act (print items); throw
    written (some (finished items)) = act (print items)

    unfoldable pub read_db : ForkDatabase S I → Options → String → Option (Outcome S)
    read_db db options output_file =
        read_log ops db.get_block db.get_block_in_current_chain_by_num options db.head
          (str_eq output_file "" || can_open output_file)

    unfoldable pub print_db : VariablesMap → Run S (Option String)
    print_db vmap = do
      dirs ← initialize vmap
      db ← or_throw (open_db dirs.blocks_dir)
      read ← written (read_db db vmap.members dirs.output_file)
      pure (some dirs.tmp_dir)

    -- The `try` block behind the reading of the options; `none` where it returns behind the help.
    unfoldable pub run_with : VariablesMap → Run S (Option String)
    run_with vmap =
        if ltb 0 vmap.help then (do helped ← act print_help; pure none) else print_db vmap

    module _ (parse : List OptionDef → List String → Option VariablesMap) where
      -- The `try` block.
      unfoldable pub tried : List String → Run S (Option String)
      tried args = or_throw (parse program_options args) >>= run_with

      -- The `catch` clauses and what comes behind them.
      unfoldable pub end_main : Result (Option String) → List (Action S) → Exit × List (Action S)
      end_main (done none) s = (returned_0, s)
      end_main (done (some tmp_dir)) s =
          let removed = remove_all tmp_dir ∷ s in
          (if world removed then returned_0 else terminated, removed)
      end_main thrown s = (returned_minus_1, elog ∷ s)
      end_main endless s = (never_ends, s)

      -- How it ends, and its actions, the last one first.
      unfoldable pub main : List String → Exit × List (Action S)
      main args = let r = tried args [] in end_main r.0 r.1

-- ===== src/ForkDb/Options.antt =====
-- The options of eosio-forkdb/forkdb.cpp. `parse` of a client stands for boost::program_options:
-- `parse_command_line`, `store` and `notify`, which writes the members of `forkdb`.
use eos_tools.Prelude.{ℕ, Bool, false, Option, List, [], ◌∷◌}
use eos_tools.Prelude.Text.{String}
use eos_tools.ForkDb.Read.{Options}

-- The type of an option's value, with its default; `no_value` for an option without one.
pub data Value : Type 0 where
  path : Value
  path_or : String → Value
  uint32_or : ℕ → Value
  bool_switch : Bool → Value
  no_value : Value

pub record OptionDef : Type 0 where
  pub name : String
  pub value : Value
  pub description : String

-- `set_program_options`
unfoldable pub program_options : List OptionDef
program_options =
    record {
      name = "blocks-dir,d";
      value = path_or "forkdb.dat";
      description = "the forkdb file path (absolute path or relative to the current directory)";
    }
    ∷ record {
      name = "output-file,o";
      value = path;
      description =
          "the file to write output to (absolute or relative path).  If not specified then output is to stdout.";
    }
    ∷ record {
      name = "first,f";
      value = uint32_or 1;
      description = "the first block number to parse";
    }
    ∷ record {
      name = "last,l";
      value = uint32_or 4294967295;
      description = "the last block number (inclusive) to parse";
    }
    ∷ record {
      name = "no-pretty-print";
      value = bool_switch false;
      description =
          "Do not pretty print the output.  Useful if piping to jq to improve performance.";
    }
    ∷ record {
      name = "as-json-array";
      value = bool_switch false;
      description =
          "Print out json blocks wrapped in json array (otherwise the output is free-standing json objects).";
    }
    ∷ record {
      name = "info,i";
      value = bool_switch false;
      description = "Only print the first and last block number in forkdb of current chain.";
    }
    ∷ record {
      name = "pack-header-from";
      value = uint32_or 0;
      description = "Print packed headers.";
    }
    ∷ record {
      name = "pack-header-interval";
      value = uint32_or 10;
      description = "Print packed headers.";
    }
    ∷ record {
      name = "help,h";
      value = no_value;
      description = "Print this help message and exit.";
    }
    ∷ []

-- What `store` and `notify` leave: the count of `help`, two entries of the map, and the members.
pub record VariablesMap : Type 0 where
  pub help : ℕ
  pub blocks_dir : Option String
  pub output_file : Option String
  pub members : Options

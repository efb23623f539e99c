-- ===== src/Launcher/Define.antt =====
-- The instances of a network on one host, `assign_name` and the branch of `define_network` for
-- `per_host == 0`, of eosio-launcher2/main.cpp. `lexical_cast` is what `boost::lexical_cast` writes
-- for a number, and `join` the operator `/` on paths.
use eos_tools.Prelude.{
  ℕ, zero, suc, Bool, false, List, [], ◌∷◌, ◌++◌, ◌+◌, ◌==◌, ltb, if◌then◌else◌,
}
use eos_tools.Prelude.Text.{String, append}
use eos_tools.Prelude.Word.{add64}
use eos_tools.Launcher.Host.{EosdDef, HostDef, new_host, set_host}

-- The members that do not change here.
pub record Names : Type 0 where
  pub network_name : String
  pub config_dir_base : String
  pub data_dir_base : String
  pub erd : String
  pub genesis : String

-- What the loop changes.
pub record DefineState : Type 0 where
  pub next_node : ℕ
  pub aliases : List String
  pub local_host : HostDef

-- What the constructor makes.
unfoldable pub new_eosd : EosdDef
new_eosd = record {
  config_dir_name = "";
  data_dir_name = "";
  p2p_port = 0;
  http_port = 0;
  file_size = 0;
  has_db = false;
  name = "";
  host = "";
  p2p_endpoint = "";
}

module _ (lexical_cast : ℕ → String) (join : String → String → String) (names : Names) where
  open names use {network_name, config_dir_base, data_dir_base, erd, genesis}

  -- The number of a node, with two digits at least.
  unfoldable pub dex : ℕ → String
  dex next_node = append (if ltb next_node 10 then "0" else "") (lexical_cast next_node)

  -- It returns the new value of `next_node` too.
  unfoldable pub assign_name : ℕ → EosdDef → Bool → EosdDef × ℕ
  assign_name next_node node is_bios =
      let node_name = if is_bios then "bios" else append network_name (dex next_node) in
      let node_cfg_name = if is_bios then "node_bios" else append "node_" (dex next_node) in
      (
        record node {
          name = node_name;
          config_dir_name = join config_dir_base node_cfg_name;
          data_dir_name = join data_dir_base node_cfg_name;
        },
        if is_bios then next_node else add64 next_node 1,
      )

  unfoldable pub define_instance : DefineState → Bool → DefineState
  define_instance st is_bios =
      let (eosd, next_node) = assign_name st.next_node new_eosd is_bios in
      let (placed, host) = set_host lexical_cast eosd st.local_host is_bios in
      record {
        next_node = next_node;
        aliases = st.aliases ++ eosd.name ∷ [];
        local_host = record host { instances = host.instances ++ placed ∷ [] };
      }

  unfoldable pub define_loop : ℕ → ℕ → DefineState → DefineState
  define_loop zero i st = st
  define_loop (suc rounds) i st = define_loop rounds (i + 1) (define_instance st (i == 0))

  -- `bindings` is then the one host of the result.
  unfoldable pub define_local : ℕ → DefineState
  define_local total_nodes = define_loop total_nodes 0 (record {
    next_node = 0;
    aliases = [];
    local_host = record new_host { eosio_home = erd; genesis = genesis };
  })

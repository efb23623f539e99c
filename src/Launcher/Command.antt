-- ===== src/Launcher/Command.antt =====
-- The commands on running nodes, of eosio-launcher2/main.cpp: `do_command`, `bounce`, `down` and
-- `roll`, the last three behind the list of nodes or host names that they work on.
use Prim.Native.String.{◌++◌}
use eos_tools.Prelude.{
  ℕ, Bool, true, false, ◌||◌, ◌==◌, List, [], ◌∷◌, Option, none, some, if◌then◌else◌,
}
use eos_tools.Prelude.Text.{String, str_eq}
use eos_tools.Launcher.Host.{EosdDef, HostDef}
use eos_tools.Launcher.Run.{World, child, Run, pure, fail, throw, ask, ◌>>=◌, ◌>>◌}
use eos_tools.Launcher.Ssh.{RemoteDeploy, do_ssh}
use eos_tools.Launcher.Files.{find_host_by_name_or_address}
use eos_tools.Launcher.Nodes.{name_end}

-- `export NAME=value; ` for each pair.
unfoldable pub exports : List (String × String) → String
exports [] = ""
exports ((name, value) ∷ env_pairs) =
    ("export " ++ name ++ "=" ++ value ++ "; ") ++ exports env_pairs

-- `specific_nodeos_args`, a map: the value of a number.
unfoldable pub args_of : List (ℕ × String) → ℕ → Option String
args_of [] n = none
args_of ((k, args) ∷ entries) n = let rest = args_of entries n in if k == n then some args else rest

abbrev pub is_empty : {A : Type 0} → List A → Bool
is_empty [] = true
is_empty (x ∷ xs) = false

module _ (world : World) (helper : RemoteDeploy) (is_local : HostDef → Bool) where
  -- The constructor of `bp::child` throws where the program does not start.
  unfoldable pub do_command : HostDef → List (String × String) → String → Run (Unit {0})
  do_command host env_pairs cmd =
      if is_local host
      then (do started ← ask world (child cmd env_pairs); if started then pure tt else throw)
      else (do
        ok ←
            do_ssh world helper (("cd " ++ host.eosio_home ++ "; ") ++ exports env_pairs ++ cmd)
              host.host_name
        if ok then pure tt else fail)

  unfoldable pub down_loop : List (HostDef × EosdDef) → Run (Unit {0})
  down_loop [] = pure tt
  down_loop ((host, node) ∷ node_list) = do
    node_num ← name_end node.name
    do_command host
        (("EOSIO_HOME", host.eosio_home)
          ∷ ("EOSIO_NODE", node_num)
          ∷ ("EOSIO_TN_RESTART_CONFIG_DIR", node.config_dir_name)
          ∷ [])
        "./scripts/eosio-tn_down.sh "
    down_loop node_list

  module _ (to_number : String → Option ℕ) (eosd_extra_args : String)
      (specific_nodeos_args : List (ℕ × String)) where
    -- The arguments for the node of the number; `lexical_cast` throws where there is none.
    unfoldable pub specific_args : String → Run String
    specific_args node_num =
        if is_empty specific_nodeos_args || str_eq node_num "bios"
        then pure ""
        else elim (to_number node_num) [
          | none ↦ throw
          | some n ↦ elim (args_of specific_nodeos_args n) [
            | none ↦ pure ""
            | some args ↦ pure (" " ++ args)
          ]
        ]

    unfoldable pub bounce_loop : List (HostDef × EosdDef) → Run (Unit {0})
    bounce_loop [] = pure tt
    bounce_loop ((host, node) ∷ node_list) = do
      node_num ← name_end node.name
      args ← specific_args node_num
      do_command host (("EOSIO_HOME", host.eosio_home) ∷ ("EOSIO_NODE", node_num) ∷ [])
          ("./scripts/eosio-tn_bounce.sh " ++ eosd_extra_args ++ args)
      bounce_loop node_list

  unfoldable pub roll_loop : List HostDef → List String → Run (Unit {0})
  roll_loop bindings [] = pure tt
  roll_loop bindings (host_name ∷ hosts) = do
    host ← find_host_by_name_or_address bindings host_name
    do_command host (("EOSIO_HOME", host.eosio_home) ∷ []) "./scripts/eosio-tn_roll.sh "
    roll_loop bindings hosts

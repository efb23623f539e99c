-- ===== src/Tests/Commands.antt =====
-- The theorems on the commands and files of the launcher, on a network of a few nodes. The answers of
-- the surroundings depend on the number of actions so far.
use Prim.Native.String.{◌++◌}
use mathlib.Core.List.{Perm}
use mathlib.Core.List.{◌++◌ as append_list}
use eos_tools.Prelude.{
  ℕ, Bool, true, false, not, Option, none, some, ◌==◌, List, [], ◌∷◌, All, ◌≡◌, ◌⊎◌, ◌&&◌, refl,
  arith, length, map, zero, if◌then◌else◌,
}
use eos_tools.Prelude.Text.{String, str_eq}
use eos_tools.Launcher.Host.{EosdDef, HostDef, new_host}
use eos_tools.Launcher.Define.{Names, define_local, new_eosd}
use eos_tools.Launcher.Run.{
  Action, system, exists, create_directories, NodeRtInfo, World, RunState, done, thrown, pure, ask,
  act, change, gets, ◌>>=◌,
}
use eos_tools.Launcher.Ssh.{
  RemoteDeploy, format_ssh, do_ssh, must_ssh, ssh_or, prep_remote_config_dir,
}
use eos_tools.Launcher.SshSafety.{prep_remote_config_dir_done}
use eos_tools.Launcher.Files.{
  find_host, must, prepare_config_dir, prepare_data_dir, deploy_local, deploy_config_files,
}
use eos_tools.Launcher.FilesSafety.{
  IsGentle, gentle, deploy_config_files-gentle, prepare_data_dir_done,
}
use eos_tools.Launcher.Nodes.{
  get_node_num, node_number, name_end, find_node, find_instance, all_nodes, numbered_nodes,
}
use eos_tools.Launcher.NodesFound.{
  first_named, find_node-first_named, numbered_nodes-names, bounce_all-bios,
}
use eos_tools.Launcher.Command.{do_command, bounce_loop, specific_args, args_of}
use eos_tools.Launcher.CommandOrder.{after, bounce_command, bounce_loop_order}
use eos_tools.Launcher.Modes.{lm_local, lm_remote, lm_all}
use eos_tools.Launcher.Kill.{kill, kill_read, kill_loop, run_command, kill_command, kills}
use eos_tools.Launcher.KillModes.{at_start, kill_modes-perm}
use eos_tools.Launcher.Start.{
  LaunchOptions, runtime_info, extra_args, node_args, stale_args, nodeos_command, launch_local,
  launch, or_throw, has_none,
}
use eos_tools.Launcher.StartRecords.{launch-running_nodes}

abbrev join : String → String → String
join a b = a ++ "/" ++ b

-- No success with the third action.
abbrev third_fails : World
third_fails actions = not (length actions == 3)

abbrev no_success : World
no_success actions = false

abbrev helper : RemoteDeploy
helper = record {
  ssh_cmd = "ssh";
  scp_cmd = "scp";
  ssh_identity = "eos";
  ssh_args = "";
  local_config_file = "temp_config";
}

abbrev node_a : EosdDef
node_a = record new_eosd {
  name = "net_00";
  host = "h1";
  config_dir_name = "etc/node_00";
  data_dir_name = "var/node_00";
}

abbrev node_b : EosdDef
node_b = record new_eosd { name = "net_01"; host = "h1"; config_dir_name = "etc/node_01" }

abbrev host_1 : HostDef
host_1 = record new_host { host_name = "h1"; eosio_home = "/eos"; instances = node_a ∷ node_b ∷ [] }

abbrev one_host : List HostDef
one_host = host_1 ∷ []

abbrev start : RunState
start = at_start []

prep_remote_config_dir_done_example :
    (rest : List Action) × ((prep_remote_config_dir third_fails join helper false node_a host_1
        start).1.actions
      ≡ system (format_ssh helper "mkdir -p /eos/var/node_00" "h1")
        ∷ system (format_ssh helper "cd /eos/var/node_00" "h1")
        ∷ rest)
    × (third_fails (system (format_ssh helper "cd /eos/var/node_00" "h1") ∷ rest) ≡ false)
    × (third_fails (
          system (format_ssh helper "mkdir -p /eos/var/node_00" "h1")
          ∷ system (format_ssh helper "cd /eos/var/node_00" "h1")
          ∷ rest)
        ≡ true)
unfolding prep_remote_config_dir must_ssh ssh_or do_ssh ask pure ◌>>=◌
prep_remote_config_dir_done_example =
    prep_remote_config_dir_done third_fails join helper node_a host_1 start refl

abbrev not_local : HostDef → Bool
not_local host = false

abbrev all_local : HostDef → Bool
all_local host = true

deploy_config_files-gentle_example :
    All
      (IsGentle (gentle third_fails join helper not_local "stage" one_host node_a host_1))
      (deploy_config_files third_fails join helper not_local "stage" one_host false node_a
        start).1.actions
unfolding find_host
deploy_config_files-gentle_example =
    deploy_config_files-gentle third_fails join helper not_local "stage" one_host node_a host_1
      start refl tt

-- The directory is there, with neither blocks nor state.
abbrev only_first : World
only_first actions = length actions == 1

prepare_data_dir_done_example :
    ((only_first (exists "/eos/var" ∷ []) ≡ false)
      × ((prepare_data_dir only_first join helper all_local "stage" one_host false "/eos/var"
            start).1.actions
          ≡ create_directories "/eos/var" ∷ exists "/eos/var" ∷ [])
      × (only_first (create_directories "/eos/var" ∷ exists "/eos/var" ∷ []) ≡ true))
    ⊎ ((only_first (exists "/eos/var" ∷ []) ≡ true)
        × (only_first (exists "/eos/var/blocks" ∷ exists "/eos/var" ∷ []) ≡ false)
        × (only_first (exists "/eos/var/state" ∷ exists "/eos/var/blocks" ∷ exists "/eos/var" ∷ [])
            ≡ false))
unfolding prepare_data_dir must ask pure ◌>>=◌
prepare_data_dir_done_example =
    prepare_data_dir_done only_first join helper all_local "stage" one_host "/eos/var" start refl

find_node-first_named_example :
    find_node "net_01" one_host ≡ first_named "net_01" (all_nodes one_host)
find_node-first_named_example = find_node-first_named "net_01" one_host

abbrev same_text : String → String
same_text s = s

abbrev one_text : String → List String
one_text s = s ∷ []

abbrev digit : ℕ → String
digit zero = "0"
digit _ = "1"

abbrev read_digit : String → Option ℕ
read_digit s = if str_eq s "00" then some 0 else if str_eq s "01" then some 1 else none

numbered_nodes-names_example :
    map (λ (n : HostDef × EosdDef). n.1.name) ((host_1, node_b) ∷ (host_1, node_a) ∷ [])
    ≡ map
        (λ t.
          "net_"
          ++ get_node_num digit (node_number same_text one_text digit read_digit "net_" one_host t))
        ("01" ∷ "00" ∷ [])
unfolding numbered_nodes node_number get_node_num find_node find_instance pure ◌>>=◌
numbered_nodes-names_example =
    numbered_nodes-names same_text one_text digit read_digit "net_" one_host ("01" ∷ "00" ∷ [])
      ((host_1, node_b) ∷ (host_1, node_a) ∷ []) start start refl

abbrev names : Names
names = record {
  network_name = "net_";
  config_dir_base = "etc";
  data_dir_base = "var";
  erd = "/eos";
  genesis = "genesis.json";
}

bounce_all-bios_example :
    bounce_loop third_fails helper all_local read_digit ""
      ((1, "--x") ∷ [])
      (all_nodes ((define_local digit join names 4).local_host ∷ []))
      start
    ≡ (thrown, start)
bounce_all-bios_example =
    bounce_all-bios third_fails helper all_local read_digit "" (1, "--x") [] digit join names 3
      start (omega arith) refl

abbrev two_nodes : List (HostDef × EosdDef)
two_nodes = (host_1, node_a) ∷ (host_1, node_b) ∷ []

bounce_loop_order_example :
    (bounce_loop third_fails helper not_local read_digit ""
      ((1, "--x") ∷ [])
      two_nodes
      start).1.actions
    ≡ after
        (map
          (bounce_command third_fails helper not_local read_digit "" ((1, "--x") ∷ []))
          two_nodes)
        []
unfolding bounce_loop name_end specific_args args_of do_command do_ssh ask pure ◌>>=◌
bounce_loop_order_example =
    bounce_loop_order third_fails helper not_local read_digit "" ((1, "--x") ∷ []) two_nodes start
      refl

abbrev two_infos : List NodeRtInfo
two_infos =
    record { remote = true; pid_file = ""; kill_cmd = "ssh h1 stop" }
    ∷ record { remote = false; pid_file = "var/nodeos.pid"; kill_cmd = "" }
    ∷ []

abbrev some_text : String → Option String
some_text s = some s

abbrev starts_all : String → Bool
starts_all command = true

kill_modes-perm_example :
    (local remote : RunState) × (kill some_text starts_all "-9" lm_local
        (some two_infos)
        (at_start [])
      ≡ (done tt, local))
    × (kill some_text starts_all "-9" lm_remote (some two_infos) (at_start []) ≡ (done tt, remote))
    × Perm
        (append_list local.actions remote.actions)
        (kill some_text starts_all "-9" lm_all (some two_infos) (at_start [])).1.actions
unfolding kill kill_read kill_loop run_command kill_command kills act pure ◌>>=◌
kill_modes-perm_example =
    kill_modes-perm some_text starts_all "-9" (some two_infos)
      (kill some_text starts_all "-9" lm_all (some two_infos) (at_start [])).1 refl

abbrev options : LaunchOptions
options = record {
  force_overwrite = false;
  skip_transaction_signatures = false;
  eosd_extra_args = "";
  specific_nodeos_args = (0, "--x") ∷ [];
  launch_time = "now";
  start_delay = 5;
}

abbrev no_replace : String → String → String → String
no_replace text pattern replacement = text

-- No success with the first and the third action: neither directory is there.
abbrev fresh : World
fresh actions = not (length actions == 1) && not (length actions == 3)

launch-running_nodes_example :
    (launch fresh join helper all_local "stage" one_host no_replace read_digit options node_a ""
      start).1.running_nodes
    ≡ runtime_info join helper all_local host_1 node_a ∷ []
unfolding launch deploy_config_files find_host deploy_local prepare_config_dir prepare_data_dir must
    nodeos_command node_args has_none stale_args extra_args name_end args_of launch_local or_throw
    ask act change gets pure ◌>>=◌
launch-running_nodes_example =
    launch-running_nodes fresh join helper all_local "stage" one_host no_replace read_digit options
      node_a "" host_1 start
      (launch fresh join helper all_local "stage" one_host no_replace read_digit options node_a ""
        start).1
      refl refl

-- ===== src/Launcher/Start.antt =====
-- `launch` and `start_all` of eosio-launcher2/main.cpp. `regex_replace` is that of the standard
-- library, by the text, the pattern and the replacement; `to_number` is `lexical_cast` to a
-- `uint16_t`, `none` being its exception. The loop of `launch` that waits for the child has the test
-- `i > 0` from 0 on, and no round.
use Prim.Native.String.{◌++◌}
use mathlib.Core.List.{◌++◌ as append_list}
use eos_tools.Prelude.{
  ℕ, Bool, true, false, not, ◌||◌, List, [], ◌∷◌, Option, none, some, if◌then◌else◌,
}
use eos_tools.Prelude.Text.{String, str_eq}
use eos_tools.Launcher.Host.{EosdDef, HostDef}
use eos_tools.Launcher.Run.{
  spawn, write_pid, remove, create_symlink, sleep, save_last_run, NodeRtInfo, World, Outcome, done,
  exit, thrown, undefined, Run, pure, fail, throw, gets, change, act, ask, ◌>>=◌, ◌>>◌,
}
use eos_tools.Launcher.Ssh.{RemoteDeploy, format_ssh, do_ssh}
use eos_tools.Launcher.Files.{deploy_config_files}
use eos_tools.Launcher.Nodes.{name_end}
use eos_tools.Launcher.Command.{args_of}
use eos_tools.Launcher.Modes.{
  LaunchMode, lm_none, lm_local, lm_remote, lm_named, lm_all, lm_verify, is_empty,
}

-- The members that do not change here.
pub record LaunchOptions : Type 0 where
  pub force_overwrite : Bool
  pub skip_transaction_signatures : Bool
  pub eosd_extra_args : String
  pub specific_nodeos_args : List (ℕ × String)
  pub launch_time : String
  pub start_delay : ℕ

-- `remote`, `pid_file` and `kill_cmd` of a launched instance.
unfoldable pub runtime_info :
    (String → String → String) → RemoteDeploy → (HostDef → Bool) → HostDef → EosdDef → NodeRtInfo
runtime_info join helper is_local host instance_def =
    let pidf = join instance_def.data_dir_name "nodeos.pid" in
    let cmd = "cd " ++ host.eosio_home ++ "; kill -15 $(cat " ++ pidf ++ ")" in
    if is_local host
    then record { remote = false; pid_file = pidf; kill_cmd = "" }
    else record { remote = true; pid_file = ""; kill_cmd = format_ssh helper cmd host.host_name }

unfoldable pub has_none : List (ℕ × String) → Bool
has_none [] = true
has_none (x ∷ xs) = false

-- An exception of a call on files or processes.
unfoldable pub or_throw : Run Bool → Run (Unit {0})
or_throw m = do ok ← m; if ok then pure tt else throw

module _ (world : World) (join : String → String → String) (helper : RemoteDeploy)
    (is_local : HostDef → Bool) (stage : String) (bindings : List HostDef)
    (regex_replace : String → String → String → String) (to_number : String → Option ℕ)
    (options : LaunchOptions) where
  open options use {
    force_overwrite, skip_transaction_signatures, eosd_extra_args, specific_nodeos_args,
    launch_time, start_delay,
  }

  unfoldable pub extra_args : EosdDef → String
  extra_args instance_def =
      if is_empty eosd_extra_args
      then ""
      else if str_eq instance_def.name "bios"
      then (regex_replace (regex_replace eosd_extra_args "--plugin +eosio::mongo_db_plugin" "")
            "--mongodb-uri +[^ ]+" ""
          ++ " ")
      else (eosd_extra_args ++ " ")

  unfoldable pub node_args : EosdDef → Run String
  node_args instance_def =
      if str_eq instance_def.name "bios" || has_none specific_nodeos_args then pure "" else do
        num ← name_end instance_def.name
        elim (to_number num) [
          | none ↦ throw
          | some n ↦ elim (args_of specific_nodeos_args n) [
            | none ↦ pure ""
            | some args ↦ pure (args ++ " ")
          ]
        ]

  unfoldable pub stale_args : Run String
  stale_args = do
    stale ← gets (λ s. s.add_enable_stale_production)
    if stale
        then (do
          change (λ s. record s { add_enable_stale_production = false })
          pure "--enable-stale-production true ")
        else pure ""

  unfoldable pub nodeos_command : EosdDef → String → Run String
  nodeos_command instance_def gts = do
    specific ← node_args instance_def
    stale ← stale_args
    pure (
        "programs/nodeos/nodeos "
        ++ (if skip_transaction_signatures then "--skip-transaction-signatures " else "")
        ++ extra_args instance_def
        ++ specific
        ++ stale
        ++ " --config-dir "
        ++ instance_def.config_dir_name
        ++ " --data-dir "
        ++ instance_def.data_dir_name
        ++ " --genesis-json "
        ++ instance_def.config_dir_name
        ++ "/genesis.json"
        ++ (if is_empty gts then "" else (" --genesis-timestamp " ++ gts)))

  unfoldable pub launch_remote : HostDef → EosdDef → String → Run (Unit {0})
  launch_remote host instance_def eosdcmd = do
    let dd = instance_def.data_dir_name
    let reerr_base = "stderr." ++ launch_time ++ ".txt"
    let reerr_sl = join dd "stderr.txt"
    let cmdl =
        "cd "
        ++ host.eosio_home
        ++ "; nohup "
        ++ eosdcmd
        ++ " > "
        ++ join dd "stdout.txt"
        ++ " 2> "
        ++ join dd reerr_base
        ++ "& echo $! > "
        ++ join dd "nodeos.pid"
        ++ "; rm -f "
        ++ reerr_sl
        ++ "; ln -s "
        ++ reerr_base
        ++ " "
        ++ reerr_sl
    ok ← do_ssh world helper cmdl host.host_name
    if ok then pure tt else fail

  unfoldable pub launch_local : EosdDef → String → Run (Unit {0})
  launch_local instance_def eosdcmd = do
    let dd = instance_def.data_dir_name
    let reerr_base = "stderr." ++ launch_time ++ ".txt"
    or_throw (ask world (spawn eosdcmd (join dd "stdout.txt") (join dd reerr_base)))
    or_throw (ask world (remove (join dd "stderr.txt")))
    or_throw (ask world (create_symlink reerr_base (join dd "stderr.txt")))
    act (write_pid (join dd "nodeos.pid"))

  unfoldable pub launch : EosdDef → String → Run (Unit {0})
  launch instance_def gts = do
    host ←
        deploy_config_files world join helper is_local stage bindings force_overwrite instance_def
    eosdcmd ← nodeos_command instance_def gts
    if is_local host
        then launch_local instance_def eosdcmd
        else launch_remote host instance_def eosdcmd
    change (λ s. record s {
      running_nodes =
          append_list s.running_nodes (runtime_info join helper is_local host instance_def ∷ []);
    })

  -- A message in place of an exception.
  unfoldable pub after_outcome : Outcome (Unit {0}) → Run (Unit {0})
  after_outcome (done u) = pure tt
  after_outcome thrown = pure tt
  after_outcome exit = fail
  after_outcome undefined = λ s. (undefined, s)

  unfoldable pub catching : Run (Unit {0}) → Run (Unit {0})
  catching m s = after_outcome (m s).0 (m s).1

  unfoldable pub launch_instances : List EosdDef → String → Run (Unit {0})
  launch_instances [] gts = pure tt
  launch_instances (inst ∷ instances) gts = do
    catching (launch inst gts)
    act (sleep start_delay)
    launch_instances instances gts

  unfoldable pub starts : LaunchMode → HostDef → Bool
  starts lm_all h = true
  starts lm_local h = is_local h
  starts lm_remote h = not (is_local h)
  starts _ h = false

  unfoldable pub launch_hosts : LaunchMode → List HostDef → String → Run (Unit {0})
  launch_hosts mode [] gts = pure tt
  launch_hosts mode (h ∷ hosts) gts = do
    if starts mode h then launch_instances h.instances gts else pure tt
    launch_hosts mode hosts gts

  unfoldable pub save : Run (Unit {0})
  save = do running_nodes ← gets (λ s. s.running_nodes); act (save_last_run running_nodes)

  -- `named` is the instance of the node `launch_name`, where there is one; the code goes through the
  -- end iterator where there is none.
  unfoldable pub launch_named : Option EosdDef → String → Run (Unit {0})
  launch_named none gts = λ s. (undefined, s)
  launch_named (some instance_def) gts = do
    change (λ s. record s { add_enable_stale_production = false })
    catching (launch instance_def gts)

  unfoldable pub start_all : LaunchMode → Option EosdDef → String → Run (Unit {0})
  start_all lm_none named gts = pure tt
  start_all lm_verify named gts = pure tt
  start_all lm_named named gts = launch_named named gts >> save
  start_all lm_all named gts = launch_hosts lm_all bindings gts >> save
  start_all lm_local named gts = launch_hosts lm_local bindings gts >> save
  start_all lm_remote named gts = launch_hosts lm_remote bindings gts >> save

-- ===== src/Launcher/StartRecords.antt =====
-- What `launch` of eosio-launcher2/main.cpp records of a node.
use Prim.Native.String.{◌++◌}
use mathlib.Core.List.{◌++◌ as append_list}
use eos_tools.Prelude.{ℕ, Bool, List, [], ◌∷◌, Option, none, some, ◌≡◌, ap, sym, ◌∙◌, if◌then◌else◌}
use eos_tools.Prelude.Text.{String, str_eq}
use eos_tools.Launcher.Host.{EosdDef, HostDef}
use eos_tools.Launcher.Run.{NodeRtInfo, World, RunState, done, Run, pure, throw, change, ◌>>=◌}
use eos_tools.Launcher.Run.Keeps.{bind_eq_done, pure_done, pure-bind}
use eos_tools.Launcher.Run.Leaves.{
  Leaves, LeavesThrown, LeavesThrown-bind, LeavesThrown-change, leaves_rules, Leaves-if,
  Leaves-pure, Leaves-throw,
}
use eos_tools.Launcher.Ssh.{RemoteDeploy, do_ssh, must_ssh, ssh_or, prep_remote_config_dir}
use eos_tools.Launcher.Files.{
  find_host, must, prepare_config_dir, prepare_data_dir, deploy_local, scp_file, deploy_remote,
  deploy_config_files,
}
use eos_tools.Launcher.Nodes.{name_end}
use eos_tools.Launcher.Command.{args_of}
use eos_tools.Launcher.Start.{
  LaunchOptions, runtime_info, or_throw, node_args, stale_args, nodeos_command, launch_remote,
  launch_local, launch,
}

find_host-Leaves : (bindings : List HostDef) (name : String) → Leaves (find_host bindings name)
unfolding find_host
find_host-Leaves [] name = search leaves_rules
find_host-Leaves (h ∷ bindings) name =
    Leaves-if (str_eq h.host_name name) (pure h) (find_host bindings name) (Leaves-pure h)
      (find_host-Leaves bindings name)

module _ (world : World) (join : String → String → String) (helper : RemoteDeploy) where
  must_ssh-Leaves : (cmd host_name : String) → Leaves (must_ssh world join helper cmd host_name)
  unfolding must_ssh do_ssh
  must_ssh-Leaves cmd host_name = search leaves_rules

  prep-Leaves :
      (force : Bool) (node : EosdDef) (host : HostDef)
      → Leaves (prep_remote_config_dir world join helper force node host)
  unfolding prep_remote_config_dir ssh_or do_ssh
  prep-Leaves force node host = search (leaves_rules, must_ssh-Leaves) depth 14

  module _ (is_local : HostDef → Bool) (stage : String) (bindings : List HostDef) where
    must-Leaves :
        (m : Run Bool) → Leaves m → Leaves (must world join helper is_local stage bindings m)
    unfolding must
    must-Leaves m l = search leaves_rules

    deploy-Leaves :
        (force : Bool) (node : EosdDef)
        → Leaves (deploy_config_files world join helper is_local stage bindings force node)
    unfolding deploy_config_files deploy_local deploy_remote scp_file prepare_config_dir
        prepare_data_dir
    deploy-Leaves force node =
        search (leaves_rules, find_host-Leaves, must-Leaves, prep-Leaves) depth 20 fits 3000

module _ (world : World) (join : String → String → String) (helper : RemoteDeploy)
    (is_local : HostDef → Bool) (stage : String) (bindings : List HostDef)
    (regex_replace : String → String → String → String) (to_number : String → Option ℕ)
    (options : LaunchOptions) where
  name_end-Leaves : (name : String) → Leaves (name_end name)
  unfolding name_end
  name_end-Leaves name = search leaves_rules

  args-Leaves :
      (num : String) (entries : List (ℕ × String))
      → Leaves {A = String} (elim (to_number num) [
        | none ↦ throw
        | some n ↦ elim (args_of entries n) [ none ↦ pure "" | some args ↦ pure (args ++ " ") ]
      ])
  args-Leaves num entries = by_number (to_number num)
    where
      by_args :
          (o : Option String)
          → Leaves {A = String} (elim o [ none ↦ pure "" | some args ↦ pure (args ++ " ") ])
      by_args none = Leaves-pure ""
      by_args (some args) = Leaves-pure (args ++ " ")

      by_number :
          (o : Option ℕ)
          → Leaves {A = String} (elim o [
            | none ↦ throw
            | some n ↦ elim (args_of entries n) [ none ↦ pure "" | some args ↦ pure (args ++ " ") ]
          ])
      by_number none = Leaves-throw
      by_number (some n) = by_args (args_of entries n)

  command-Leaves :
      (instance_def : EosdDef) (gts : String)
      → Leaves (
          nodeos_command world join helper is_local stage bindings regex_replace to_number options
            instance_def gts)
  unfolding nodeos_command node_args stale_args
  command-Leaves instance_def gts = search (leaves_rules, name_end-Leaves, args-Leaves) depth 14

  start-Leaves :
      (host : HostDef) (instance_def : EosdDef) (cmd : String)
      → Leaves (
          if is_local host
          then launch_local world join helper is_local stage bindings regex_replace to_number
              options instance_def cmd
          else launch_remote world join helper is_local stage bindings regex_replace to_number
              options host instance_def cmd)
  unfolding launch_local launch_remote or_throw do_ssh
  start-Leaves host instance_def cmd = search leaves_rules depth 14

  -- Where `launch` throws, it leaves the list of running nodes.
  pub launch-thrown :
      (instance_def : EosdDef) (gts : String)
      → LeavesThrown (
          launch world join helper is_local stage bindings regex_replace to_number options
            instance_def gts)
  unfolding launch
  launch-thrown instance_def gts =
      LeavesThrown-bind _ _
        (deploy-Leaves world join helper is_local stage bindings options.force_overwrite
          instance_def)
        (λ host. LeavesThrown-bind _ _ (command-Leaves instance_def gts) (λ cmd.
          LeavesThrown-bind _ _ (start-Leaves host instance_def cmd) (λ _. LeavesThrown-change _)))

  deploy_host :
      (instance_def : EosdDef) (host h : HostDef) (s s1 : RunState)
      → find_host bindings instance_def.host ≡ pure host
      → deploy_config_files world join helper is_local stage bindings options.force_overwrite
          instance_def s
        ≡ (done h, s1)
      → host ≡ h
  unfolding deploy_config_files
  deploy_host instance_def host h s s1 found e =
      let deployed = λ (k : HostDef).
        (if is_local k
          then deploy_local world join helper is_local stage bindings options.force_overwrite
              instance_def k
          else deploy_remote world join helper is_local stage bindings options.force_overwrite
              instance_def k)
        >>= λ _. pure k in
      let same : deployed host s ≡ (done h, s1) =
        ap (λ m. m s) (sym (pure-bind host deployed))
        ∙ ap (λ m. (m >>= deployed) s) (sym found)
        ∙ e in
      let (u, s2, r, d) = bind_eq_done _ _ s s1 h same in (pure_done host h s2 s1 d).0

  -- Where `launch` is done, it added one entry to the list of running nodes, that of the node's host.
  pub launch-running_nodes :
      (instance_def : EosdDef) (gts : String) (host : HostDef) (s s' : RunState)
      → find_host bindings instance_def.host ≡ pure host
      → launch world join helper is_local stage bindings regex_replace to_number options
          instance_def gts s
        ≡ (done tt, s')
      → s'.running_nodes
        ≡ append_list s.running_nodes (runtime_info join helper is_local host instance_def ∷ [])
  unfolding launch change
  launch-running_nodes instance_def gts host s s' found e =
      let (h, s1, e1, d1) = bind_eq_done _ _ s s' tt e in
      let same = deploy_host instance_def host h s s1 found e1 in
      let (cmd, s2, e2, d2) = bind_eq_done _ _ s1 s' tt d1 in
      let (u, s3, e3, d3) = bind_eq_done _ _ s2 s' tt d2 in
      let left1 =
        ap (λ r. r.1.running_nodes) (sym e1)
        ∙ (deploy-Leaves world join helper is_local stage bindings options.force_overwrite
              instance_def).at
            s in
      let left2 = ap (λ r. r.1.running_nodes) (sym e2) ∙ (command-Leaves instance_def gts).at s1 in
      let left3 = ap (λ r. r.1.running_nodes) (sym e3) ∙ (start-Leaves h instance_def cmd).at s2 in
      let info = λ (k : HostDef) (nodes : List NodeRtInfo).
        append_list nodes (runtime_info join helper is_local k instance_def ∷ []) in
      ap (λ r. r.1.running_nodes) (sym d3)
      ∙ ap (info h) (left3 ∙ left2 ∙ left1)
      ∙ ap (λ k. info k s.running_nodes) (sym same)

-- ===== src/Tests/Starting.antt =====
-- The theorems on how the launcher starts nodes, on one host with two of them.
use eos_tools.Prelude.{ℕ, Bool, true, Option, none, List, [], ◌∷◌, ◌++◌, ◌≡◌, ◌≢◌, refl}
use eos_tools.Prelude.Text.{String}
use eos_tools.Launcher.Host.{HostDef, new_host}
use eos_tools.Launcher.Define.{new_eosd}
use eos_tools.Launcher.Run.{
  save_last_run, NodeRtInfo, RunState, World, thrown, ask, act, change, gets, pure, ◌>>=◌,
}
use eos_tools.Launcher.Ssh.{default_deploy}
use eos_tools.Launcher.Files.{
  find_host, must, prepare_config_dir, prepare_data_dir, deploy_local, deploy_config_files,
}
use eos_tools.Launcher.KillModes.{at_start}
use eos_tools.Launcher.Modes.{lm_local, lm_all}
use eos_tools.Launcher.Start.{
  LaunchOptions, extra_args, node_args, has_none, stale_args, nodeos_command, launch_local, launch,
  or_throw, after_outcome, catching, launch_instances, starts, launch_hosts, save, start_all,
}
use eos_tools.Launcher.StartSaves.{start_all_caught}
use eos_tools.Launcher.Started.{Started}
use eos_tools.Launcher.StartLaunched.{started_instances, start_all_saves}

abbrev join : String → String → String
join dir file = file

abbrev always : World
always actions = true

abbrev all_local : HostDef → Bool
all_local host = true

abbrev hosts : List HostDef
hosts =
    record new_host {
      host_name = "h1";
      instances =
          record new_eosd { name = "bios"; host = "h1" }
          ∷ record new_eosd { name = "net_00"; host = "h1" }
          ∷ [];
    }
    ∷ []

abbrev no_replace : String → String → String → String
no_replace text pattern replacement = text

abbrev no_number : String → Option ℕ
no_number text = none

abbrev forced : LaunchOptions
forced = record {
  force_overwrite = true;
  skip_transaction_signatures = true;
  eosd_extra_args = "";
  specific_nodeos_args = [];
  launch_time = "now";
  start_delay = 0;
}

start_all_caught_example :
    (start_all always join default_deploy all_local "stage" hosts no_replace no_number forced
      lm_local none ""
      (at_start [])).0
    ≢ thrown
start_all_caught_example =
    start_all_caught always join default_deploy all_local "stage" hosts no_replace no_number forced
      lm_local none "" (at_start [])

start_all_saves_example :
    (infos : List NodeRtInfo) × (end : RunState) × Started always join default_deploy all_local
      "stage" hosts no_replace no_number forced ""
      (started_instances always join default_deploy all_local "stage" hosts no_replace no_number
        forced "" lm_all hosts)
      (at_start [])
      infos
      end
    × ((start_all always join default_deploy all_local "stage" hosts no_replace no_number forced
          lm_all none ""
          (at_start [])).1.actions
        ≡ save_last_run ([] ++ infos) ∷ end.actions)
unfolding start_all launch_hosts starts launch_instances catching after_outcome launch
    deploy_config_files find_host deploy_local prepare_config_dir prepare_data_dir must
    nodeos_command node_args has_none stale_args extra_args launch_local or_throw save ask act
    change gets pure ◌>>=◌
start_all_saves_example =
    start_all_saves always join default_deploy all_local "stage" hosts no_replace no_number forced
      "" lm_all none (at_start [])
      (start_all always join default_deploy all_local "stage" hosts no_replace no_number forced
        lm_all none "" (at_start [])).1
      refl refl

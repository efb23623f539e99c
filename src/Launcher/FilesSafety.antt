-- ===== src/Launcher/FilesSafety.antt =====
-- What `deploy_config_files` of eosio-launcher2/main.cpp removes and overwrites.
use eos_tools.Prelude.{Bool, true, false, List, ◌∷◌, All, ◌≡◌, refl, inl, inr, ◌⊎◌, arith}
use eos_tools.Prelude.Text.{String}
use eos_tools.Launcher.Host.{EosdDef, HostDef}
use eos_tools.Launcher.Run.{
  Action, system, exists, create_directories, copy_file, World, RunState, done, pure, fail, ask,
  ◌>>=◌,
}
use eos_tools.Launcher.Run.Keeps.{pure-bind, Keeps, keeps_rules}
use eos_tools.Launcher.Ssh.{RemoteDeploy, compose_scp_command, block_dir, shared_mem_dir}
use eos_tools.Launcher.SshSafety.{IsOneOf, harmless, prep-Keeps}
use eos_tools.Launcher.Files.{
  scp_file, find_host, must, prepare_config_dir, prepare_data_dir, deploy_local, deploy_remote,
  deploy_config_files,
}

-- A look at a path, a directory made, a file copied, or one of the commands listed: nothing is
-- removed, and no other process is started.
abbrev pub IsGentle : List Action → Action → Type 0
IsGentle commands (exists path) = Unit
IsGentle commands (create_directories path) = Unit
IsGentle commands (copy_file source target) = Unit
IsGentle commands (system cmd) = IsOneOf commands (system cmd)
IsGentle commands _ = ⊥

module _ (world : World) (join : String → String → String) (helper : RemoteDeploy)
    (is_local : HostDef → Bool) (stage : String) (bindings : List HostDef) (node : EosdDef)
    (host : HostDef) where
  abbrev scp : String → Action
  scp file = system (
      compose_scp_command helper host (join (join stage node.config_dir_name) file)
        (join (join host.eosio_home node.config_dir_name) file))

  -- The harmless commands over ssh, and the copies.
  abbrev pub gentle : List Action
  gentle =
      scp "config.ini"
      ∷ scp "logging.json"
      ∷ scp "genesis.json"
      ∷ harmless world join helper node host

  deploy_local-Keeps :
      Keeps
        (IsGentle gentle)
        (deploy_local world join helper is_local stage bindings false node host)
  unfolding deploy_local prepare_config_dir prepare_data_dir must
  deploy_local-Keeps = search keeps_rules depth 15

  deploy_remote-Keeps :
      Keeps
        (IsGentle gentle)
        (deploy_remote world join helper is_local stage bindings false node host)
  unfolding deploy_remote scp_file must
  deploy_remote-Keeps =
      let prepared =
        prep-Keeps world join helper node host {P = IsGentle gentle} (inr (inr (inr (inl refl))))
          (inr (inr (inr (inr (inl refl))))) (inr (inr (inr (inr (inr (inl refl))))))
          (inr (inr (inr (inr (inr (inr (inl refl)))))))
          (inr (inr (inr (inr (inr (inr (inr (inl refl)))))))) in
      search (keeps_rules, inl, inr) depth 15

  deploy-Keeps :
      find_host bindings node.host ≡ pure host
      → Keeps
          (IsGentle gentle)
          (deploy_config_files world join helper is_local stage bindings false node)
  unfolding deploy_config_files
  deploy-Keeps found =
      rw (found, pure-bind host _)
        (search (keeps_rules, deploy_local-Keeps, deploy_remote-Keeps) depth 12)

-- Without `force_overwrite`, and where the host of the node is found, `deploy_config_files` only
-- asks whether paths exist, makes directories, copies files, and runs changes of directory, mkdir
-- and the copies over scp: it removes nothing, and runs no other command and no other process. The
-- actions so far are of these kinds too, for instance none.
pub deploy_config_files-gentle :
    (world : World) (join : String → String → String) (helper : RemoteDeploy)
    (is_local : HostDef → Bool) (stage : String) (bindings : List HostDef) (node : EosdDef)
    (host : HostDef) (s : RunState)
    → find_host bindings node.host ≡ pure host
    → All (IsGentle (gentle world join helper is_local stage bindings node host)) s.actions
    → All
        (IsGentle (gentle world join helper is_local stage bindings node host))
        (deploy_config_files world join helper is_local stage bindings false node s).1.actions
deploy_config_files-gentle world join helper is_local stage bindings node host s found h =
    (deploy-Keeps world join helper is_local stage bindings node host found).at s h

module _ (world : World) (join : String → String → String) (helper : RemoteDeploy)
    (is_local : HostDef → Bool) (stage : String) (bindings : List HostDef) where
  -- Without `force_overwrite` the step for the data directory is done only where the directory was not
  -- there, its creation was the last action and succeeded, or where it was there with neither blocks
  -- nor state.
  pub prepare_data_dir_done :
      (dd : String) (s : RunState)
      → (prepare_data_dir world join helper is_local stage bindings false dd s).0 ≡ done tt
      → (let there = exists dd ∷ s.actions in
          let blocks = exists (join dd block_dir) ∷ there in
          ((world there ≡ false)
            × ((prepare_data_dir world join helper is_local stage bindings false dd s).1.actions
                ≡ create_directories dd ∷ there)
            × (world (create_directories dd ∷ there) ≡ true))
          ⊎ ((world there ≡ true)
              × (world blocks ≡ false)
              × (world (exists (join dd shared_mem_dir) ∷ blocks) ≡ false)))
  unfolding prepare_data_dir must ask pure fail ◌>>=◌
  prepare_data_dir_done dd s d = ground arith

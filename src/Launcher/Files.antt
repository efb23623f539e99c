-- ===== src/Launcher/Files.antt =====
-- The configuration of a node on its host, `find_host` and `deploy_config_files` of
-- eosio-launcher2/main.cpp. `join` is the operator `/` on paths and `is_local` tells the host's own
-- names. An error code or an exception of the file system is an answer that is no success: the
-- caller `launch` ends the program on an exception too.
use eos_tools.Prelude.{Bool, ◌||◌, ◌&&◌, not, List, [], ◌∷◌, if◌then◌else◌}
use eos_tools.Prelude.Text.{String, str_eq}
use eos_tools.Launcher.Host.{EosdDef, HostDef}
use eos_tools.Launcher.Run.{
  system, exists, create_directories, remove_all, copy_file, World, Run, pure, fail, ask, ◌>>=◌,
  ◌>>◌,
}
use eos_tools.Launcher.Ssh.{
  RemoteDeploy, block_dir, shared_mem_dir, compose_scp_command, prep_remote_config_dir,
}

-- The first host with the name; without one the program ends.
unfoldable pub find_host : List HostDef → String → Run HostDef
find_host [] name = fail
find_host (h ∷ bindings) name =
    let rest = find_host bindings name in if str_eq h.host_name name then pure h else rest

-- The first host with the name or the public name.
unfoldable pub find_host_by_name_or_address : List HostDef → String → Run HostDef
find_host_by_name_or_address [] host_id = fail
find_host_by_name_or_address (h ∷ bindings) host_id =
    let rest = find_host_by_name_or_address bindings host_id in
    if str_eq h.host_name host_id || str_eq h.public_name host_id then pure h else rest

module _ (world : World) (join : String → String → String) (helper : RemoteDeploy)
    (is_local : HostDef → Bool) (stage : String) (bindings : List HostDef) where
  -- A failure ends the program.
  unfoldable pub must : Run Bool → Run (Unit {0})
  must m = do ok ← m; if ok then pure tt else fail

  unfoldable pub prepare_config_dir : Bool → String → Run (Unit {0})
  prepare_config_dir force_overwrite cfgdir = do
    there ← ask world (exists cfgdir)
    if there
        then (do
          old ← ask world (exists (join cfgdir "config.ini"))
          if old && not force_overwrite then fail else pure tt)
        else must (ask world (create_directories cfgdir))

  unfoldable pub prepare_data_dir : Bool → String → Run (Unit {0})
  prepare_data_dir force_overwrite dd = do
    there ← ask world (exists dd)
    if there
        then (if force_overwrite
            then (do
              must (ask world (remove_all (join dd block_dir)))
              must (ask world (remove_all (join dd shared_mem_dir))))
            else (do
              blocks ← ask world (exists (join dd block_dir))
              if blocks then fail else do
                state ← ask world (exists (join dd shared_mem_dir))
                if state then fail else pure tt))
        else must (ask world (create_directories dd))

  unfoldable pub deploy_local : Bool → EosdDef → HostDef → Run (Unit {0})
  deploy_local force_overwrite node host = do
    let source = join stage node.config_dir_name
    let cfgdir = join host.eosio_home node.config_dir_name
    prepare_config_dir force_overwrite cfgdir
    prepare_data_dir force_overwrite (join host.eosio_home node.data_dir_name)
    must (ask world (copy_file (join source "genesis.json") (join cfgdir "genesis.json")))
    must (ask world (copy_file (join source "logging.json") (join cfgdir "logging.json")))
    must (ask world (copy_file (join source "config.ini") (join cfgdir "config.ini")))

  -- `scp` of one file of the staging directory.
  unfoldable pub scp_file : EosdDef → HostDef → String → Run (Unit {0})
  scp_file node host file = must (
      ask world (
        system (
          compose_scp_command helper host (join (join stage node.config_dir_name) file)
            (join (join host.eosio_home node.config_dir_name) file))))

  unfoldable pub deploy_remote : Bool → EosdDef → HostDef → Run (Unit {0})
  deploy_remote force_overwrite node host = do
    prep_remote_config_dir world join helper force_overwrite node host
    scp_file node host "config.ini"
    scp_file node host "logging.json"
    scp_file node host "genesis.json"

  unfoldable pub deploy_config_files : Bool → EosdDef → Run HostDef
  deploy_config_files force_overwrite node = do
    host ← find_host bindings node.host
    if is_local host
        then deploy_local force_overwrite node host
        else deploy_remote force_overwrite node host
    pure host

-- ===== src/Launcher/Ssh.antt =====
-- Commands on other hosts, of eosio-launcher2/main.cpp: `format_ssh`, `do_ssh`, `compose_scp_command`
-- and `prep_remote_config_dir`. `join` is the operator `/` on paths.
use Prim.Native.String.{◌++◌, len}
use eos_tools.Prelude.{Bool, ◌==◌, if◌then◌else◌}
use eos_tools.Prelude.Text.{String}
use eos_tools.Launcher.Run.{system, World, Run, pure, fail, ask, ◌>>=◌, ◌>>◌}
use eos_tools.Launcher.Host.{EosdDef, HostDef}

pub record RemoteDeploy : Type 0 where
  pub ssh_cmd : String
  pub scp_cmd : String
  pub ssh_identity : String
  pub ssh_args : String
  pub local_config_file : String

-- The values that the members of a `remote_deploy` have at first.
unfoldable pub default_deploy : RemoteDeploy
default_deploy = record {
  ssh_cmd = "/usr/bin/ssh";
  scp_cmd = "/usr/bin/scp";
  ssh_identity = "";
  ssh_args = "";
  local_config_file = "temp_config";
}

abbrev pub block_dir : String
block_dir = "blocks"

abbrev pub shared_mem_dir : String
shared_mem_dir = "state"

-- `s.length()`, as a test
abbrev is_empty : String → Bool
is_empty s = len s == 0

unfoldable pub format_ssh : RemoteDeploy → String → String → String
format_ssh helper cmd host_name =
    (helper.ssh_cmd ++ " ")
    ++ (if is_empty helper.ssh_args then "" else (helper.ssh_args ++ " "))
    ++ (if is_empty helper.ssh_identity then "" else (helper.ssh_identity ++ "@"))
    ++ (host_name ++ " \"" ++ cmd ++ "\"")

unfoldable pub do_ssh : World → RemoteDeploy → String → String → Run Bool
do_ssh world helper cmd host_name = ask world (system (format_ssh helper cmd host_name))

unfoldable pub compose_scp_command : RemoteDeploy → HostDef → String → String → String
compose_scp_command helper host source destination =
    let args = if is_empty host.ssh_args then helper.ssh_args else host.ssh_args in
    let uid = if is_empty host.ssh_identity then helper.ssh_identity else host.ssh_identity in
    (helper.scp_cmd ++ " ")
    ++ (if is_empty args then "" else (args ++ " "))
    ++ (source ++ " ")
    ++ (if is_empty uid then "" else (uid ++ "@"))
    ++ (host.host_name ++ ":" ++ destination)

module _ (world : World) (join : String → String → String) (helper : RemoteDeploy) where
  -- `if (!do_ssh (cmd, host)) exit`
  unfoldable pub must_ssh : String → String → Run (Unit {0})
  must_ssh cmd host_name = do ok ← do_ssh world helper cmd host_name; if ok then pure tt else fail

  -- `if (!do_ssh (first, host)) { if (!do_ssh (second, host)) exit }`
  unfoldable pub ssh_or : String → String → String → Run (Unit {0})
  ssh_or first second host_name = do
    ok ← do_ssh world helper first host_name
    if ok then pure tt else must_ssh second host_name

  unfoldable pub remove_data : String → String
  remove_data add =
      "rm -rf " ++ add ++ "/" ++ block_dir ++ " ;" ++ "rm -rf " ++ add ++ "/" ++ shared_mem_dir

  unfoldable pub prep_remote_config_dir : Bool → EosdDef → HostDef → Run (Unit {0})
  prep_remote_config_dir force_overwrite node host = do
    let acd = join host.eosio_home node.config_dir_name
    let add = join host.eosio_home node.data_dir_name
    must_ssh ("cd " ++ host.eosio_home) host.host_name
    ssh_or ("cd " ++ acd) ("mkdir -p " ++ acd) host.host_name
    there ← do_ssh world helper ("cd " ++ add) host.host_name
    if there
        then (if force_overwrite then must_ssh (remove_data add) host.host_name else fail)
        else must_ssh ("mkdir -p " ++ add) host.host_name

-- ===== src/Tests/Servers.antt =====
-- The theorem on a network over several servers, with two of them, and a run.
use eos_tools.Prelude.{
  ℕ, zero, Bool, true, false, Option, none, some, List, [], ◌∷◌, ◌≡◌, refl, arith, map,
}
use eos_tools.Prelude.Text.{String, append}
use eos_tools.Prelude.Word.{add64, sub32, add16, sub16}
use eos_tools.Launcher.Host.{
  HostDef, new_host, set_host, next_p2p_port, next_http_port, p2p_bios_port, http_bios_port,
}
use eos_tools.Launcher.Define.{Names, assign_name, dex, new_eosd}
use eos_tools.Launcher.Servers.{
  ServerNameDef, ServerIdentities, server_counts, server_at, server_or_pseudo, with_lhost,
  server_host, start_host, place_node, place_next, hosts_step, hosts_loop, finish, define_hosts,
  holds_name,
}
use eos_tools.Launcher.ServersPlaced.{host_told, define_hosts-servers}

abbrev digit : ℕ → String
digit zero = "0"
digit _ = "1"

abbrev join : String → String → String
join dir file = append dir (append "/" file)

abbrev names : Names
names = record {
  network_name = "net_";
  config_dir_base = "etc";
  data_dir_base = "var";
  erd = "/eos";
  genesis = "genesis.json";
}

abbrev contains : String → Bool
contains name = false

abbrev server : String → Bool → ℕ → ServerNameDef
server ipaddr has_bios instances = record {
  ipaddr = ipaddr;
  name = ipaddr;
  has_bios = has_bios;
  eosio_home = "";
  instances = instances;
}

abbrev two_servers : ServerIdentities
two_servers = record {
  producer = server "10.0.0.1" true 2 ∷ [];
  nonprod = server "10.0.0.2" false 1 ∷ [];
  db = "10.0.0.2" ∷ [];
  default_eosio_home = "/home";
}

define_hosts-servers_example :
    (aliases : List String) × (bindings : List HostDef) × (define_hosts digit join names contains
        two_servers
        (server_counts two_servers).1
      ≡ some (aliases, bindings))
    × (map host_told bindings ≡ ("10.0.0.1", 2) ∷ ("10.0.0.2", 1) ∷ [])
define_hosts-servers_example =
    define_hosts-servers digit join names contains two_servers (server "10.0.0.1" true 2)
      (server "10.0.0.2" false 1 ∷ []) refl
      ((omega arith, omega arith), ((omega arith, omega arith), tt)) (omega arith)

abbrev found : Option (List String × List HostDef) → List String × List HostDef
found none = ([], [])
found (some r) = r

aliases_found :
    (found (define_hosts digit join names contains two_servers 3)).0
    ≡ "bios" ∷ "net_00" ∷ "net_01" ∷ []
unfolding define_hosts finish hosts_loop hosts_step place_next start_host server_or_pseudo server_at
    server_host place_node with_lhost assign_name dex set_host next_p2p_port next_http_port
    p2p_bios_port http_bios_port add64 sub32 add16 sub16 holds_name new_host new_eosd
aliases_found = refl

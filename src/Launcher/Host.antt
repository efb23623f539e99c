-- ===== src/Launcher/Host.antt =====
-- Hosts, instances and the ports they are given, of eosio-launcher2/main.cpp. `lexical_cast` is what
-- `boost::lexical_cast` writes for a number.
use eos_tools.Prelude.{ℕ, Bool, List, [], if◌then◌else◌}
use eos_tools.Prelude.Text.{String, append}
use eos_tools.Prelude.Word.{add16, sub16}

-- The pointer to the node and the label for the drawing have no part in what is modelled.
pub record EosdDef : Type 0 where
  pub config_dir_name : String
  pub data_dir_name : String
  pub p2p_port : ℕ
  pub http_port : ℕ
  pub file_size : ℕ
  pub has_db : Bool
  pub name : String
  pub host : String
  pub p2p_endpoint : String

pub record HostDef : Type 0 where
  pub genesis : String
  pub ssh_identity : String
  pub ssh_args : String
  pub eosio_home : String
  pub host_name : String
  pub public_name : String
  pub listen_addr : String
  pub base_p2p_port : ℕ
  pub base_http_port : ℕ
  pub def_file_size : ℕ
  pub instances : List EosdDef
  pub p2p_count : ℕ
  pub http_count : ℕ

-- The host that the constructor makes.
unfoldable pub new_host : HostDef
new_host = record {
  genesis = "genesis.json";
  ssh_identity = "";
  ssh_args = "";
  eosio_home = "";
  host_name = "127.0.0.1";
  public_name = "localhost";
  listen_addr = "0.0.0.0";
  base_p2p_port = 9876;
  base_http_port = 8888;
  def_file_size = 8192;
  instances = [];
  p2p_count = 0;
  http_count = 0;
}

unfoldable pub next_p2p_port : HostDef → ℕ × HostDef
next_p2p_port h = (add16 h.base_p2p_port h.p2p_count, record h { p2p_count = add16 h.p2p_count 1 })

unfoldable pub next_http_port : HostDef → ℕ × HostDef
next_http_port h =
    (add16 h.base_http_port h.http_count, record h { http_count = add16 h.http_count 1 })

unfoldable pub p2p_bios_port : HostDef → ℕ
p2p_bios_port h = sub16 h.base_p2p_port 100

unfoldable pub http_bios_port : HostDef → ℕ
http_bios_port h = sub16 h.base_http_port 100

-- The counters of the host move on, so that it is returned too.
unfoldable pub set_host : (ℕ → String) → EosdDef → HostDef → Bool → EosdDef × HostDef
set_host lexical_cast eosd h is_bios =
    let (p2p, h1) = if is_bios then (p2p_bios_port h, h) else next_p2p_port h in
    let (http, h2) = if is_bios then (http_bios_port h1, h1) else next_http_port h1 in
    (
      record eosd {
        host = h.host_name;
        p2p_port = p2p;
        http_port = http;
        file_size = h.def_file_size;
        p2p_endpoint = append h.public_name (append ":" (lexical_cast p2p));
      },
      h2,
    )

-- ===== src/Tests/Config.antt =====
-- The theorems on the settings that the launcher writes, for a producing node next to bios.
use eos_tools.Prelude.{ℕ, some, List, [], ◌∷◌, ◌≡◌, refl}
use eos_tools.Prelude.Text.{String, str_eq}
use eos_tools.Launcher.Host.{new_host}
use eos_tools.Launcher.Define.{new_eosd}
use eos_tools.Launcher.Run.{done}
use eos_tools.Launcher.KillModes.{at_start}
use eos_tools.Launcher.Config.{
  pc_none, net, bnet, Line, NetNode, endpoint, config_lines, connection_loop, connection_lines,
}
use eos_tools.Launcher.Settings.{settings}
use eos_tools.Launcher.ConfigFile.{config_lines-settings}
use eos_tools.Launcher.Connections.{
  any, producers, nothing, mode_of, modes_of, allowed_by, connection_loop-settings,
}

abbrev port_text : ℕ → String
port_text n = "9876"

abbrev key_text : String → String
key_text key = key

abbrev bios_node : NetNode String
bios_node = record {
  node = record { name = "bios"; peers = []; producers = "eosio" ∷ [] };
  keys = "kb" ∷ [];
  instance_def = record new_eosd { name = "bios"; p2p_endpoint = "localhost:9776" };
}

abbrev first_node : NetNode String
first_node = record {
  node = record {
    name = "net_00";
    peers = "net_01" ∷ [];
    producers = "defproducera" ∷ "defproducerb" ∷ [];
  };
  keys = "k0" ∷ [];
  instance_def = record new_eosd { name = "net_00"; p2p_endpoint = "localhost:9876" };
}

abbrev second_node : NetNode String
second_node = record {
  node = record { name = "net_01"; peers = "net_00" ∷ []; producers = [] };
  keys = "k1" ∷ [];
  instance_def = record new_eosd { name = "net_01"; p2p_endpoint = "localhost:9877" };
}

abbrev network_nodes : List (String × NetNode String)
network_nodes = ("bios", bios_node) ∷ ("net_00", first_node) ∷ ("net_01", second_node) ∷ []

config_lines-settings_example :
    (lines : List Line) × (config_lines port_text key_text key_text network_nodes net 0 new_host
        first_node
      ≡ some lines)
    × (settings "producer-name" lines ≡ "defproducera" ∷ "defproducerb" ∷ [])
    × (settings "plugin" lines
        ≡ "eosio::producer_plugin" ∷ "eosio::net_plugin" ∷ "eosio::chain_api_plugin"
          ∷ "eosio::history_api_plugin" ∷ [])
    × (settings "p2p-peer-address" lines ≡ "localhost:9776" ∷ "localhost:9877" ∷ [])
    × (settings "bnet-connect" lines ≡ [])
unfolding endpoint new_eosd
config_lines-settings_example =
    config_lines-settings port_text key_text key_text network_nodes net 0 new_host first_node "k0"
      [] "localhost:9776" ("localhost:9877" ∷ []) refl refl refl

connection_loop-settings_example :
    (allowed : ℕ) × (lines : List Line) × (connection_loop str_eq
        ("any" ∷ "none" ∷ "producers" ∷ [])
        pc_none
        (at_start [])
      ≡ (done allowed, at_start []))
    × (connection_lines port_text key_text key_text network_nodes bnet allowed ("k0" ∷ [])
        ≡ some lines)
    × (settings "allowed-connection" lines ≡ "producers" ∷ [])
unfolding mode_of modes_of allowed_by
connection_loop-settings_example =
    connection_loop-settings str_eq port_text key_text key_text network_nodes bnet "k0" []
      ("any" ∷ "none" ∷ "producers" ∷ []) (any ∷ nothing ∷ producers ∷ []) (at_start []) refl

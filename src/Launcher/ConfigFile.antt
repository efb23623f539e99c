-- ===== src/Launcher/ConfigFile.antt =====
-- What the file of `write_config_file` in eosio-launcher2/main.cpp says of a node, read by its keys.
use mathlib.Core.List.{◌++◌ as append_list}
use eos_tools.Prelude.{ℕ, Bool, not, ◌||◌, List, [], ◌∷◌, map, some, ◌≡◌, refl, ◌∙◌, if◌then◌else◌}
use eos_tools.Prelude.Text.{String, str_eq}
use eos_tools.Launcher.Host.{HostDef}
use eos_tools.Launcher.Settings.{settings, append_nil, Says, Says-append}
use eos_tools.Launcher.Command.{is_empty}
use eos_tools.Launcher.Config.{
  P2pPlugin, net, bnet, Line, NetNode, endpoint, server_lines, peer_key, producer_lines,
  plugin_lines, config_lines,
}
use eos_tools.Launcher.ConfigParts.{
  on_net, on_bnet, p2p_name, always, on_net_peers, on_bnet_peers, connections_found, peers_found,
  peers_said, producers_said, server_said, stale_said, plugins_said, bios_found,
}

module _ {K : Type 0} (number : ℕ → String) (public_text private_text : K → String)
    (nodes : List (String × NetNode K)) (p2p : P2pPlugin) (host : HostDef) (found : NetNode K) where
  abbrev peer_of : String → Line
  peer_of a = (peer_key number public_text private_text nodes p2p, a)

  -- The lines as they stand in the file, with those for the connections and for bios given.
  abbrev file : Bool → List Line → List String → List String → List Line
  file is_bios connections bios addresses =
      append_list (server_lines number public_text private_text nodes p2p host found.instance_def) (
        append_list (if is_bios then ("enable-stale-production", "true") ∷ [] else []) (
          append_list connections (
            append_list (map peer_of bios) (
              append_list (map peer_of addresses) (
                append_list (producer_lines number public_text private_text nodes p2p found)
                  (plugin_lines number public_text private_text nodes p2p found.instance_def))))))

  file_said :
      (is_bios : Bool) (connections : List Line) (bios addresses : List String)
      → Says connections [] [] [] []
      → Says
          (file is_bios connections bios addresses)
          (append_list found.node.producers [])
          (append_list
            (if found.instance_def.has_db || not (is_empty found.node.producers)
              then "eosio::producer_plugin" ∷ []
              else [])
            (append_list
              (if found.instance_def.has_db then "eosio::mongo_db_plugin" ∷ [] else [])
              (always p2p)))
          (append_list (on_net p2p bios) (append_list (on_net p2p addresses) []))
          (append_list (on_bnet p2p bios) (append_list (on_bnet p2p addresses) []))
  file_said is_bios connections bios addresses said =
      let said_peers = peers_said number public_text private_text nodes p2p in
      Says-append _ _
        (server_said number public_text private_text nodes p2p host found.instance_def)
        (Says-append _ _ (stale_said number public_text private_text nodes is_bios) (
          Says-append _ _ said (
            Says-append _ _ (said_peers bios) (
              Says-append _ _ (said_peers addresses) (
                Says-append _ _ (producers_said number public_text private_text nodes p2p found)
                  (plugins_said number public_text private_text nodes p2p found.instance_def))))))

-- Where the nodes hold bios and the peers of a node with a key, `write_config_file` has lines for it,
-- and these name its producers in order, the plugins, and as peers of the plugin in use bios, unless
-- the node is bios itself, and the peers of the node in order.
pub config_lines-settings :
    {K : Type 0} (number : ℕ → String) (public_text private_text : K → String)
    (nodes : List (String × NetNode K)) (p2p : P2pPlugin) (allowed : ℕ) (host : HostDef)
    (found : NetNode K) (key : K) (keys : List K) (bios_address : String) (addresses : List String)
    → found.keys ≡ key ∷ keys
    → endpoint number public_text private_text nodes p2p "bios" ≡ some bios_address
    → map (endpoint number public_text private_text nodes p2p) found.node.peers ≡ map some addresses
    → (let peers =
          append_list (if str_eq found.node.name "bios" then [] else bios_address ∷ []) addresses in
        (lines : List Line) × (config_lines number public_text private_text nodes p2p allowed host
            found
          ≡ some lines)
        × (settings "producer-name" lines ≡ found.node.producers)
        × (settings "plugin" lines
            ≡ append_list
                (if found.instance_def.has_db || not (is_empty found.node.producers)
                  then "eosio::producer_plugin" ∷ []
                  else [])
                (append_list
                  (if found.instance_def.has_db then "eosio::mongo_db_plugin" ∷ [] else [])
                  (p2p_name p2p ∷ "eosio::chain_api_plugin" ∷ "eosio::history_api_plugin" ∷ [])))
        × (settings "p2p-peer-address" lines ≡ elim p2p [ net ↦ peers | bnet ↦ [] ])
        × (settings "bnet-connect" lines ≡ elim p2p [ net ↦ [] | bnet ↦ peers ]))
unfolding config_lines
config_lines-settings number public_text private_text nodes p2p allowed host found key keys
      bios_address addresses k b e =
    let is_bios = str_eq found.node.name "bios" in
    let bios = if is_bios then [] else bios_address ∷ [] in
    let (ls, c, said) =
      connections_found number public_text private_text nodes p2p allowed key keys in
    let (names, plugins, nets, bnets) =
      file_said number public_text private_text nodes p2p host found is_bios ls bios addresses
        said in
    (
      file number public_text private_text nodes p2p host found is_bios ls bios addresses,
      rw
          (
            k,
            c,
            bios_found number public_text private_text nodes p2p is_bios bios_address b,
            peers_found number public_text private_text nodes p2p found.node.peers addresses e,
          )
          refl,
      names ∙ append_nil found.node.producers,
      plugins,
      nets ∙ on_net_peers p2p bios addresses,
      bnets ∙ on_bnet_peers p2p bios addresses,
    )

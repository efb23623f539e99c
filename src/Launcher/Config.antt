-- ===== src/Launcher/Config.antt =====
-- `write_config_file` of eosio-launcher2/main.cpp, and how `initialize` reads the options that it
-- uses. A line of the file is its key and its value. `iequals` is boost's comparison that ignores the
-- case of letters, `number` the text of a number, `public_text` and `private_text` those of a key and
-- `join` the operator `/` on paths. Where the lines are `none`, there is undefined behaviour.
use Prim.Native.String.{◌++◌, len}
use Prim.Native.Nat.{bit_and, bit_or}
use mathlib.Core.List.{◌++◌ as append_list}
use eos_tools.Prelude.{
  ℕ, ◌+◌, ◌==◌, Bool, true, false, not, ◌||◌, List, [], ◌∷◌, map, Option, none, some,
  ◌>>=◌ as continue, if◌then◌else◌,
}
use eos_tools.Prelude.Text.{String, str_eq}
use eos_tools.Launcher.Host.{EosdDef, HostDef}
use eos_tools.Launcher.Network.{TnNodeDef}
use eos_tools.Launcher.Ssh.{block_dir}
use eos_tools.Launcher.Files.{find_host}
use eos_tools.Launcher.Command.{is_empty}
use eos_tools.Launcher.Run.{
  exists, create_directories, open_file, write_lines, World, Run, undefined, pure, fail, act, ask,
  ◌>>=◌,
}

-- `enum allowed_connection`
abbrev pub pc_none : ℕ
pc_none = 0

abbrev pub pc_producers : ℕ
pc_producers = 1

abbrev pub pc_specified : ℕ
pc_specified = 2

abbrev pub pc_any : ℕ
pc_any = 4

pub data P2pPlugin : Type 0 where
  net : P2pPlugin
  bnet : P2pPlugin

module _ (iequals : String → String → Bool) where
  -- `allowed_connections` after one mode; `none` for an unrecognized one.
  unfoldable pub set_mode : String → ℕ → Option ℕ
  set_mode m allowed =
      if iequals m "any"
      then some (bit_or allowed pc_any)
      else if iequals m "producers"
      then some (bit_or allowed pc_producers)
      else if iequals m "specified"
      then some (bit_or allowed pc_specified)
      else if iequals m "none"
      then some pc_none
      else none

  unfoldable pub connection_loop : List String → ℕ → Run ℕ
  connection_loop [] allowed = pure allowed
  connection_loop (m ∷ modes) allowed = elim (set_mode m allowed) [
    | none ↦ fail
    | some changed ↦ connection_loop modes changed
  ]

  unfoldable pub choose_p2p : String → P2pPlugin
  choose_p2p nc =
      if not (len nc == 0)
      then (if iequals nc "net" then net else if iequals nc "bnet" then bnet else net)
      else net

abbrev pub Line : Type 0
Line = String × String

-- A node of `network.nodes`, with its keys and its instance.
pub record NetNode (K : Type 0) : Type 0 where
  pub node : TnNodeDef
  pub keys : List K
  pub instance_def : EosdDef

abbrev plugin : String → Line
plugin name = ("plugin", "eosio::" ++ name)

module _ {K : Type 0} (number : ℕ → String) (public_text private_text : K → String)
    (nodes : List (String × NetNode K)) (p2p : P2pPlugin) where
  abbrev pair_text : K → String
  pair_text key = "[\"" ++ public_text key ++ "\",\"" ++ private_text key ++ "\"]"

  -- `network.nodes.find(name)->second.instance->p2p_endpoint`
  unfoldable pub endpoint : String → Option String
  endpoint name = in_list nodes
    where
      in_list : List (String × NetNode K) → Option String
      in_list [] = none
      in_list ((key, found) ∷ others) =
          let later = in_list others in
          if str_eq key name then some found.instance_def.p2p_endpoint else later

  unfoldable pub server_lines : HostDef → EosdDef → List Line
  server_lines host instance_def =
      append_list
        (("blocks-dir", block_dir)
          ∷ ("http-server-address", host.host_name ++ ":" ++ number instance_def.http_port)
          ∷ ("http-validate-host", "false")
          ∷ [])
        (elim p2p [
          | net ↦
              ("p2p-listen-endpoint", host.listen_addr ++ ":" ++ number instance_def.p2p_port)
              ∷ ("p2p-server-address", host.public_name ++ ":" ++ number instance_def.p2p_port)
              ∷ []
          | bnet ↦
              ("bnet-endpoint", host.listen_addr ++ ":" ++ number instance_def.p2p_port)
              ∷ (
                "p2p-listen-endpoint",
                host.listen_addr ++ ":" ++ number (instance_def.p2p_port + 1000),
              )
              ∷ []
        ])

  -- `node.keys.begin()` of a node without keys is undefined behaviour.
  unfoldable pub specified_lines : List K → Option (List Line)
  specified_lines [] = none
  specified_lines (key ∷ keys) = some (
      ("allowed-connection", "specified")
      ∷ ("peer-key", "\"" ++ public_text key ++ "\"")
      ∷ ("peer-private-key", pair_text key)
      ∷ [])

  unfoldable pub connection_lines : ℕ → List K → Option (List Line)
  connection_lines allowed keys =
      if not (bit_and allowed pc_any == 0)
      then some (("allowed-connection", "any") ∷ [])
      else if allowed == pc_none
      then some (("allowed-connection", "none") ∷ [])
      else let producers =
          if not (bit_and allowed pc_producers == 0)
          then ("allowed-connection", "producers") ∷ []
          else [] in
        if not (bit_and allowed pc_specified == 0)
        then continue (specified_lines keys) (λ specified. some (append_list producers specified))
        else some producers

  abbrev pub peer_key : String
  peer_key = elim p2p [ net ↦ "p2p-peer-address" | bnet ↦ "bnet-connect" ]

  -- One line for each name.
  unfoldable pub peer_lines : List String → Option (List Line)
  peer_lines [] = some []
  peer_lines (p ∷ peers) =
      continue (endpoint p)
        (λ address. continue (peer_lines peers) (λ lines. some ((peer_key, address) ∷ lines)))

  -- The line for bios, in the file of another node.
  unfoldable pub bios_lines : Bool → Option (List Line)
  bios_lines true = some []
  bios_lines false = continue (endpoint "bios") (λ address. some ((peer_key, address) ∷ []))

  unfoldable pub producer_lines : NetNode K → List Line
  producer_lines found =
      if found.instance_def.has_db || not (is_empty found.node.producers)
      then append_list (map (λ kp. ("private-key", pair_text kp)) found.keys) (
          append_list (map (λ p. ("producer-name", p)) found.node.producers)
            (plugin "producer_plugin" ∷ []))
      else []

  unfoldable pub plugin_lines : EosdDef → List Line
  plugin_lines instance_def =
      append_list (if instance_def.has_db then plugin "mongo_db_plugin" ∷ [] else []) (
        plugin (elim p2p [ net ↦ "net_plugin" | bnet ↦ "bnet_plugin" ])
        ∷ plugin "chain_api_plugin"
        ∷ plugin "history_api_plugin"
        ∷ [])

  unfoldable pub config_lines : ℕ → HostDef → NetNode K → Option (List Line)
  config_lines allowed host found =
      let is_bios = str_eq found.node.name "bios" in
      continue (connection_lines allowed found.keys) (λ connections.
        continue (bios_lines is_bios) (λ bios. continue (peer_lines found.node.peers) (λ peers.
          some (
            append_list (server_lines host found.instance_def) (
              append_list (if is_bios then ("enable-stale-production", "true") ∷ [] else []) (
                append_list connections (
                  append_list bios (
                    append_list peers
                      (append_list (producer_lines found) (plugin_lines found.instance_def))))))))))

  module _ (world : World) (join : String → String → String) (stage : String)
      (bindings : List HostDef) where
    -- Undefined behaviour in the writing of a line is that of the whole file.
    unfoldable pub write_config_file : ℕ → NetNode K → Run (Unit {0})
    write_config_file allowed found = do
      host ← find_host bindings found.instance_def.host
      let dd = join stage found.instance_def.config_dir_name
      there ← ask world (exists dd)
      made ← if there then pure true else ask world (create_directories dd)
      opened ← if made then ask world (open_file (join dd "config.ini")) else fail
      if opened
          then elim (config_lines allowed host found) [
            | none ↦ λ s. (undefined, s)
            | some lines ↦ act (write_lines (join dd "config.ini") lines)
          ]
          else fail

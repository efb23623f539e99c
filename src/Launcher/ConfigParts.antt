-- ===== src/Launcher/ConfigParts.antt =====
-- What the parts of the file of `write_config_file` in eosio-launcher2/main.cpp say of a node.
use Prim.Native.String.{◌++◌}
use Prim.Native.Nat.{bit_and}
use mathlib.Core.List.{◌++◌ as append_list}
use eos_tools.Prelude.{
  ℕ, ◌==◌, Bool, true, false, not, ◌||◌, List, [], ◌∷◌, map, some, ◌>>=◌, ◌≡◌, refl, ap, sym, ◌∙◌,
  if◌then◌else◌, cons≢nil, head-eq_of_cons-eq, tail-eq_of_cons-eq,
}
use eos_tools.Prelude.Text.{String}
use eos_tools.Launcher.Host.{EosdDef, HostDef}
use eos_tools.Launcher.Settings.{
  settings, settings_named, settings_other, map_same, append_nil, Says, Says-append,
}
use eos_tools.Launcher.Command.{is_empty}
use eos_tools.Launcher.Config.{
  pc_none, pc_producers, pc_specified, pc_any, P2pPlugin, net, bnet, Line, NetNode, endpoint,
  server_lines, specified_lines, connection_lines, peer_key, peer_lines, bios_lines, producer_lines,
  plugin_lines,
}

-- The peers that the plugin in use is told of, and those that the other one is.
abbrev pub on_net : P2pPlugin → List String → List String
on_net net addresses = addresses
on_net bnet addresses = []

abbrev pub on_bnet : P2pPlugin → List String → List String
on_bnet net addresses = []
on_bnet bnet addresses = addresses

abbrev pub p2p_name : P2pPlugin → String
p2p_name net = "eosio::net_plugin"
p2p_name bnet = "eosio::bnet_plugin"

abbrev pub always : P2pPlugin → List String
always p2p = p2p_name p2p ∷ "eosio::chain_api_plugin" ∷ "eosio::history_api_plugin" ∷ []

pub on_net_peers :
    (p2p : P2pPlugin) (xs ys : List String)
    → append_list (on_net p2p xs) (append_list (on_net p2p ys) [])
      ≡ elim p2p [ net ↦ append_list xs ys | bnet ↦ [] ]
on_net_peers net xs ys = ap (append_list xs) (append_nil ys)
on_net_peers bnet xs ys = refl

pub on_bnet_peers :
    (p2p : P2pPlugin) (xs ys : List String)
    → append_list (on_bnet p2p xs) (append_list (on_bnet p2p ys) [])
      ≡ elim p2p [ net ↦ [] | bnet ↦ append_list xs ys ]
on_bnet_peers net xs ys = refl
on_bnet_peers bnet xs ys = ap (append_list xs) (append_nil ys)

module _ {K : Type 0} (number : ℕ → String) (public_text private_text : K → String)
    (nodes : List (String × NetNode K)) where
  -- The lines for the connections are there for a node with a key.
  pub connections_found :
      (p2p : P2pPlugin) (allowed : ℕ) (key : K) (keys : List K)
      → (ls : List Line) × (connection_lines number public_text private_text nodes p2p allowed
            (key ∷ keys)
          ≡ some ls)
        × Says ls [] [] [] []
  unfolding connection_lines specified_lines settings
  connections_found p2p allowed key keys =
      by_bits (not (bit_and allowed pc_any == 0)) (allowed == pc_none)
        (not (bit_and allowed pc_producers == 0)) (not (bit_and allowed pc_specified == 0))
    where
      by_bits :
          (any nothing producers specified : Bool)
          → (ls : List Line) × ((if any
                then some (("allowed-connection", "any") ∷ [])
                else if nothing
                then some (("allowed-connection", "none") ∷ [])
                else let found =
                    if producers then ("allowed-connection", "producers") ∷ [] else [] in
                  if specified
                  then (specified_lines number public_text private_text nodes p2p (key ∷ keys)
                      >>= λ lines. some (append_list found lines))
                  else some found)
              ≡ some ls)
            × Says ls [] [] [] []
      by_bits true nothing producers specified = (_, refl, (refl, refl, refl, refl))
      by_bits false true producers specified = (_, refl, (refl, refl, refl, refl))
      by_bits false false true true = (_, refl, (refl, refl, refl, refl))
      by_bits false false true false = (_, refl, (refl, refl, refl, refl))
      by_bits false false false true = (_, refl, (refl, refl, refl, refl))
      by_bits false false false false = (_, refl, (refl, refl, refl, refl))

  pub peers_found :
      (p2p : P2pPlugin) (peers addresses : List String)
      → map (endpoint number public_text private_text nodes p2p) peers ≡ map some addresses
      → peer_lines number public_text private_text nodes p2p peers
        ≡ some (map (λ a. (peer_key number public_text private_text nodes p2p, a)) addresses)
  unfolding peer_lines
  peers_found p2p [] [] e = refl
  peers_found p2p [] (a ∷ addresses) e = absurd (cons≢nil (sym e))
  peers_found p2p (p ∷ peers) [] e = absurd (cons≢nil e)
  peers_found p2p (p ∷ peers) (a ∷ addresses) e =
      rw (head-eq_of_cons-eq e, peers_found p2p peers addresses (tail-eq_of_cons-eq e)) refl

  pub peers_said :
      (p2p : P2pPlugin) (addresses : List String)
      → Says
          (map (λ a. (peer_key number public_text private_text nodes p2p, a)) addresses)
          []
          []
          (on_net p2p addresses)
          (on_bnet p2p addresses)
  peers_said net addresses = (
    settings_other "producer-name" _ (λ x. x) addresses refl,
    settings_other "plugin" _ (λ x. x) addresses refl,
    settings_named "p2p-peer-address" _ (λ x. x) addresses refl ∙ map_same addresses,
    settings_other "bnet-connect" _ (λ x. x) addresses refl,
  )
  peers_said bnet addresses = (
    settings_other "producer-name" _ (λ x. x) addresses refl,
    settings_other "plugin" _ (λ x. x) addresses refl,
    settings_other "p2p-peer-address" _ (λ x. x) addresses refl,
    settings_named "bnet-connect" _ (λ x. x) addresses refl ∙ map_same addresses,
  )

  keys_said :
      (f : K → String) (keys : List K) → Says (map (λ k. ("private-key", f k)) keys) [] [] [] []
  keys_said f keys = (
    settings_other "producer-name" _ f keys refl,
    settings_other "plugin" _ f keys refl,
    settings_other "p2p-peer-address" _ f keys refl,
    settings_other "bnet-connect" _ f keys refl,
  )

  names_said : (names : List String) → Says (map (λ p. ("producer-name", p)) names) names [] [] []
  names_said names = (
    settings_named "producer-name" _ (λ x. x) names refl ∙ map_same names,
    settings_other "plugin" _ (λ x. x) names refl,
    settings_other "p2p-peer-address" _ (λ x. x) names refl,
    settings_other "bnet-connect" _ (λ x. x) names refl,
  )

  pub producers_said :
      (p2p : P2pPlugin) (found : NetNode K)
      → Says
          (producer_lines number public_text private_text nodes p2p found)
          found.node.producers
          (if found.instance_def.has_db || not (is_empty found.node.producers)
            then "eosio::producer_plugin" ∷ []
            else [])
          []
          []
  unfolding producer_lines settings
  producers_said p2p found = by_names found.node.producers found.instance_def.has_db
    where
      pair : K → String
      pair k = "[\"" ++ public_text k ++ "\",\"" ++ private_text k ++ "\"]"

      listed :
          (names : List String)
          → Says
              (append_list (map (λ k. ("private-key", pair k)) found.keys) (
                append_list
                  (map (λ p. ("producer-name", p)) names)
                  (("plugin", "eosio::producer_plugin") ∷ [])))
              names
              ("eosio::producer_plugin" ∷ [])
              []
              []
      listed names =
          let (a, b, c, d) =
            Says-append (map (λ k. ("private-key", pair k)) found.keys) _
              (keys_said pair found.keys)
              (Says-append (map (λ p. ("producer-name", p)) names)
                (("plugin", "eosio::producer_plugin") ∷ []) (names_said names)
                (refl, refl, refl, refl)) in
          (a ∙ append_nil names, b, c, d)

      by_names :
          (names : List String) (has_db : Bool)
          → Says
              (if has_db || not (is_empty names)
                then append_list (map (λ k. ("private-key", pair k)) found.keys) (
                    append_list
                      (map (λ p. ("producer-name", p)) names)
                      (("plugin", "eosio::producer_plugin") ∷ []))
                else [])
              names
              (if has_db || not (is_empty names) then "eosio::producer_plugin" ∷ [] else [])
              []
              []
      by_names names true = listed names
      by_names [] false = (refl, refl, refl, refl)
      by_names (name ∷ names) false = listed (name ∷ names)

  pub server_said :
      (p2p : P2pPlugin) (host : HostDef) (instance_def : EosdDef)
      → Says (server_lines number public_text private_text nodes p2p host instance_def) [] [] [] []
  unfolding server_lines settings
  server_said net host instance_def = (refl, refl, refl, refl)
  server_said bnet host instance_def = (refl, refl, refl, refl)

  pub stale_said :
      (is_bios : Bool)
      → Says (if is_bios then ("enable-stale-production", "true") ∷ [] else []) [] [] [] []
  unfolding settings
  stale_said true = (refl, refl, refl, refl)
  stale_said false = (refl, refl, refl, refl)

  pub plugins_said :
      (p2p : P2pPlugin) (instance_def : EosdDef)
      → Says
          (plugin_lines number public_text private_text nodes p2p instance_def)
          []
          (append_list
            (if instance_def.has_db then "eosio::mongo_db_plugin" ∷ [] else [])
            (always p2p))
          []
          []
  unfolding plugin_lines settings
  plugins_said p2p instance_def = by_db p2p instance_def.has_db
    where
      by_db :
          (p2p : P2pPlugin) (has_db : Bool)
          → Says
              (append_list (if has_db then ("plugin", "eosio::mongo_db_plugin") ∷ [] else []) (
                ("plugin", "eosio::" ++ elim p2p [ net ↦ "net_plugin" | bnet ↦ "bnet_plugin" ])
                ∷ ("plugin", "eosio::chain_api_plugin")
                ∷ ("plugin", "eosio::history_api_plugin")
                ∷ []))
              []
              (append_list (if has_db then "eosio::mongo_db_plugin" ∷ [] else []) (always p2p))
              []
              []
      by_db net true = (refl, refl, refl, refl)
      by_db net false = (refl, refl, refl, refl)
      by_db bnet true = (refl, refl, refl, refl)
      by_db bnet false = (refl, refl, refl, refl)

  pub bios_found :
      (p2p : P2pPlugin) (is_bios : Bool) (address : String)
      → endpoint number public_text private_text nodes p2p "bios" ≡ some address
      → bios_lines number public_text private_text nodes p2p is_bios
        ≡ some (
            map
              (λ a. (peer_key number public_text private_text nodes p2p, a))
              (if is_bios then [] else address ∷ []))
  unfolding bios_lines
  bios_found p2p true address e = refl
  bios_found p2p false address e = rw (e) refl

-- ===== src/Launcher/Nodes.antt =====
-- Nodes by number, of eosio-launcher2/main.cpp: `eosd_def::get_node_num`, `get_node_num`, `find_node`
-- and `get_nodes`. Boost's functions on texts are parameters: `to_text` and `to_number` are
-- `lexical_cast` from and to a `uint16_t`, `none` being its exception. What `get_nodes` writes to the
-- screen is left out.
use Prim.Native.String.{◌++◌, len, slice}
use eos_tools.Prelude.{ℕ, ◌-◌, ltb, List, [], ◌∷◌, Option, none, some, if◌then◌else◌}
use mathlib.Core.List.{◌++◌ as append_list}
use eos_tools.Prelude.Text.{String, str_eq}
use eos_tools.Launcher.Host.{EosdDef, HostDef}
use eos_tools.Launcher.Run.{Run, pure, fail, throw, ◌>>=◌}

-- `name.substr( name.length() - 2 )`; for a shorter name `substr` throws.
unfoldable pub name_end : String → Run String
name_end name = if ltb (len name) 2 then throw else pure (slice name (len name - 2) (len name))

unfoldable pub get_node_num : (ℕ → String) → ℕ → String
get_node_num to_text node_num = (if ltb node_num 10 then "0" else "") ++ to_text node_num

-- The first instance of a host with the name.
unfoldable pub find_instance : String → List EosdDef → Option EosdDef
find_instance node_name [] = none
find_instance node_name (node ∷ instances) =
    let rest = find_instance node_name instances in
    if str_eq node_name node.name then some node else rest

unfoldable pub find_node : String → List HostDef → Run (HostDef × EosdDef)
find_node node_name [] = fail
find_node node_name (host ∷ bindings) = elim (find_instance node_name host.instances) [
  | none ↦ find_node node_name bindings
  | some node ↦ pure (host, node)
]

unfoldable pub with_host : HostDef → List EosdDef → List (HostDef × EosdDef)
with_host host [] = []
with_host host (node ∷ instances) = (host, node) ∷ with_host host instances

unfoldable pub all_nodes : List HostDef → List (HostDef × EosdDef)
all_nodes [] = []
all_nodes (host ∷ bindings) = append_list (with_host host host.instances) (all_nodes bindings)

module _ (to_lower : String → String) (split : String → List String) (to_text : ℕ → String)
    (to_number : String → Option ℕ) (network_name : String) (bindings : List HostDef) where
  -- `uint16_t node = -1`, unless the text is a number.
  unfoldable pub node_number : String → ℕ
  node_number text = elim (to_number text) [ none ↦ 65535 | some n ↦ n ]

  unfoldable pub numbered_nodes : List String → Run (List (HostDef × EosdDef))
  numbered_nodes [] = pure []
  numbered_nodes (text ∷ texts) = if ltb 99 (node_number text) then fail else do
    node ← find_node (network_name ++ get_node_num to_text (node_number text)) bindings
    rest ← numbered_nodes texts
    pure (node ∷ rest)

  unfoldable pub get_nodes : String → Run (List (HostDef × EosdDef))
  get_nodes node_number_list =
      if str_eq (to_lower node_number_list) "all"
      then pure (all_nodes bindings)
      else numbered_nodes (split node_number_list)

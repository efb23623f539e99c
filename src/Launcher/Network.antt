-- ===== src/Launcher/Network.antt =====
-- The nodes of the test network, `network.nodes` of eosio-launcher2/main.cpp: a map from names to
-- nodes. A node's keys, log endpoint and pointer to its instance have no part in it here.
use eos_tools.Prelude.{true, false, Option, none, some, List, [], ◌∷◌, ◌++◌, ◌>>=◌}
use Prim.Native.Nat.{Ordering}
use Prim.Native.String.{compare}
use eos_tools.Prelude.Text.{String, str_eq}

pub record TnNodeDef : Type 0 where
  pub name : String
  pub peers : List String
  pub producers : List String

-- `nodes.find(name)->second.peers.push_back(peer)`: through the end iterator where no node has the
-- name.
unfoldable pub push_peer :
    List (String × TnNodeDef) → String → String → Option (List (String × TnNodeDef))
push_peer [] name peer = none
push_peer ((key, node) ∷ nodes) name peer = elim (str_eq key name) [
  | true ↦ some ((key, record node { peers = node.peers ++ peer ∷ [] }) ∷ nodes)
  | false ↦ (do later ← push_peer nodes name peer; some ((key, node) ∷ later))
]

-- `nodes[name] = node`: the names stand in ascending order.
unfoldable pub put_node : List (String × TnNodeDef) → String → TnNodeDef → List (String × TnNodeDef)
put_node [] name node = (name, node) ∷ []
put_node ((key, old) ∷ nodes) name node = elim (compare key name) [
  | Ordering.lt ↦ (key, old) ∷ put_node nodes name node
  | Ordering.eq ↦ (name, node) ∷ nodes
  | Ordering.gt ↦ (name, node) ∷ (key, old) ∷ nodes
]

-- ===== src/Launcher/Mesh.antt =====
-- The mesh topology, `make_mesh` of eosio-launcher2/main.cpp, after its call of `bind_nodes`.
use eos_tools.Prelude.{
  ℕ, zero, suc, true, false, Option, none, some, List, [], ◌∷◌, ◌+◌, ◌-◌, ◌&&◌, ltb, if◌then◌else◌,
  ◌>>=◌, get_elem?,
}
use eos_tools.Prelude.Text.{String, str_eq}
use eos_tools.Prelude.Word.{sub64}
use eos_tools.Launcher.Ndx.{start_ndx, next_ndx}
use eos_tools.Launcher.Skip.{skip_ndx}
use eos_tools.Launcher.Network.{TnNodeDef, push_peer}

-- `peers_to_from`, a map from names to sets of names, as the pairs of a name and a member of its set.
abbrev pub PeersToFrom : Type 0
PeersToFrom = List (String × String)

-- `peers_to_from[peer].count(name)`: 0 or 1, as for any set.
unfoldable pub count_of : PeersToFrom → String → String → ℕ
count_of [] peer name = 0
count_of ((key, member) ∷ entries) peer name =
    let later = count_of entries peer name in
    if str_eq key peer && str_eq member name then 1 else later

pub record MeshState : Type 0 where
  pub nodes : List (String × TnNodeDef)
  pub peers_to_from : PeersToFrom

-- `peers_to_from[peer].count(current_name) < 2`, and then the push and the insertion.
unfoldable pub establish : String → String → MeshState → Option MeshState
establish current_name peer st =
    if ltb (count_of st.peers_to_from peer current_name) 2
    then (do
      linked ← push_peer st.nodes current_name peer
      some (record { nodes = linked; peers_to_from = (current_name, peer) ∷ st.peers_to_from }))
    else some st

-- The inner loop, for the offsets from `j` on.
unfoldable pub offsets_loop : ℕ → List String → ℕ → ℕ → ℕ → MeshState → Option MeshState
offsets_loop zero aliases total_nodes i j st = some st
offsets_loop (suc count) aliases total_nodes i j st = do
  current_name ← get_elem? aliases i
  ndx ← skip_ndx aliases total_nodes i j
  peer ← get_elem? aliases ndx
  linked ← establish current_name peer st
  offsets_loop count aliases total_nodes i (j + 1) linked

-- The outer loop. It visits an index once, so `total_nodes` rounds are enough.
unfoldable pub mesh_loop : ℕ → List String → ℕ → ℕ → ℕ → MeshState → Option MeshState
mesh_loop zero aliases total_nodes non_bios i st = none
mesh_loop (suc rounds) aliases total_nodes non_bios i st = do
  linked ← offsets_loop (non_bios - 1) aliases total_nodes i 1 st
  (loop, next) ← next_ndx aliases total_nodes i
  elim loop [
    | true ↦ some linked
    | false ↦ mesh_loop rounds aliases total_nodes non_bios next linked
  ]

unfoldable pub link_mesh :
    List String → ℕ → List (String × TnNodeDef) → Option (List (String × TnNodeDef))
link_mesh aliases total_nodes nodes = do
  start ← start_ndx aliases
  st ←
      mesh_loop total_nodes aliases total_nodes (sub64 total_nodes 1) start
        (record { nodes = nodes; peers_to_from = [] })
  some st.nodes

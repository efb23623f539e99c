-- ===== src/Launcher/Ring.antt =====
-- The ring topology, `make_ring` of eosio-launcher2/main.cpp, after its call of `bind_nodes`.
use eos_tools.Prelude.{
  ℕ, zero, suc, true, false, Option, none, some, List, ◌==◌, ltb, if◌then◌else◌, ◌>>=◌, get_elem?,
}
use eos_tools.Prelude.Text.{String}
use eos_tools.Prelude.Word.{sub64}
use eos_tools.Launcher.Ndx.{start_ndx, next_ndx}
use eos_tools.Launcher.Network.{TnNodeDef, push_peer}

-- `network.nodes.find(aliases[from])->second.peers.push_back (aliases[to])`
unfoldable pub connect :
    List String → ℕ → ℕ → List (String × TnNodeDef) → Option (List (String × TnNodeDef))
connect aliases from to nodes = do
  name ← get_elem? aliases from
  peer ← get_elem? aliases to
  push_peer nodes name peer

-- The `for` loop. It visits an index once, so `total_nodes` rounds are enough.
unfoldable pub ring_loop :
    ℕ → List String → ℕ → ℕ → List (String × TnNodeDef) → Option (List (String × TnNodeDef))
ring_loop zero aliases total_nodes i nodes = none
ring_loop (suc rounds) aliases total_nodes i nodes = do
  (looped, front) ← next_ndx aliases total_nodes i
  linked ← connect aliases i front nodes
  (loop, next) ← next_ndx aliases total_nodes i
  elim loop [ true ↦ some linked | false ↦ ring_loop rounds aliases total_nodes next linked ]

unfoldable pub link_ring :
    List String → ℕ → List (String × TnNodeDef) → Option (List (String × TnNodeDef))
link_ring aliases total_nodes nodes =
    let non_bios = sub64 total_nodes 1 in
    if ltb 2 non_bios
    then (do start ← start_ndx aliases; ring_loop total_nodes aliases total_nodes start nodes)
    else if non_bios == 2
    then (do
      n0 ← start_ndx aliases
      (loop, n1) ← next_ndx aliases total_nodes n0
      linked ← connect aliases n0 n1 nodes
      connect aliases n1 n0 linked)
    else some nodes

-- ===== src/Tests/Topology.antt =====
-- The theorems on the mesh of nodes, with three of them beside bios, and runs.
use eos_tools.Prelude.{
  ℕ, zero, suc, Bool, true, false, Option, none, some, ◌||◌, ◌<◌, ◌≤◌, ◌%◌, ◌≢◌, subst, ◌==◌, List,
  [], ◌∷◌, ◌≡◌, refl, arith, map,
}
use eos_tools.Prelude.Text.{String}
use eos_tools.Prelude.Word.{sub64, add64}
use eos_tools.Launcher.Network.{TnNodeDef, push_peer}
use eos_tools.Launcher.Ndx.{start_ndx, is_bios_ndx, next_ndx, next_ndx_calls}
use eos_tools.Launcher.Skip.{skip_loop, skip_ndx}
use eos_tools.Launcher.Mesh.{count_of, establish, offsets_loop, mesh_loop, link_mesh}
use eos_tools.Launcher.StarEnds.{AllHeld, gap_loop_total, found_loop_endless}
use eos_tools.Launcher.StarDistinct.{AllDistinct, link_star-AllDistinct}
use eos_tools.Launcher.MeshPeers.{link_mesh-has_peer}
use eos_tools.Launcher.Peers.{holds, has_node, has_peer}
use eos_tools.Launcher.Star.{
  ◌>>=◌, Loop, ended, running, StarState, peers_of, set_alias, next_but, found_loop, links_loop,
  star_loop, gap_loop, star_links, first_gap, link_star,
}

abbrev names : List String
names = "bios" ∷ "a" ∷ "b" ∷ "c" ∷ []

abbrev lone_node : String → String × TnNodeDef
lone_node name = (name, record { name = name; peers = []; producers = [] })

abbrev nodes : List (String × TnNodeDef)
nodes = map lone_node names

first_is_bios : (k : ℕ) → k < 4 → is_bios_ndx names k ≡ some (k == 0)
unfolding is_bios_ndx
first_is_bios zero h = refl
first_is_bios (suc zero) h = refl
first_is_bios (suc (suc zero)) h = refl
first_is_bios (suc (suc (suc zero))) h = refl
first_is_bios (suc (suc (suc (suc k)))) h = absurd (omega arith)

link_mesh-has_peer_example :
    (linked : List (String × TnNodeDef)) × (link_mesh names 4 nodes ≡ some linked)
    × ((has_peer linked "b" "c" || has_peer linked "c" "b") ≡ true)
unfolding has_node
link_mesh-has_peer_example =
    link_mesh-has_peer names nodes 0 2 3 "b" "c"
      (record { here = omega arith; small = omega arith; others = first_is_bios }) (omega arith)
      (refl, (refl, (refl, (refl, tt)))) (omega arith) (λ e. absurd (omega arith))
      (λ e. absurd (omega arith)) refl refl

abbrev linked : Option (List (String × TnNodeDef)) → List (String × TnNodeDef)
linked none = []
linked (some found) = found

mesh_of_three :
    map (λ n. n.1.peers) (linked (link_mesh names 4 nodes))
    ≡ [] ∷ ("b" ∷ "c" ∷ []) ∷ ("c" ∷ "a" ∷ []) ∷ ("a" ∷ "a" ∷ []) ∷ []
unfolding link_mesh mesh_loop offsets_loop establish count_of push_peer skip_ndx skip_loop start_ndx
    is_bios_ndx next_ndx next_ndx_calls sub64 add64
mesh_of_three = refl

-- The square root is not asked for below 13 nodes.
abbrev no_sqrt : ℕ → ℕ
no_sqrt n = n

abbrev six : List String
six = "bios" ∷ "0" ∷ "1" ∷ "2" ∷ "3" ∷ "4" ∷ "5" ∷ []

abbrev is_running : {A : Type 0} → Loop A → Bool
is_running running = true
is_running _ = false

abbrev star_peers : Loop StarState → List (List String)
star_peers (ended st) = map (λ n. n.1.peers) st.mesh.nodes
star_peers _ = []

abbrev four : List String
four = "bios" ∷ "0" ∷ "1" ∷ "2" ∷ "3" ∷ []

-- Each of four nodes has itself as a peer.
star_of_four :
    star_peers (link_star no_sqrt 20 four 5 (map lone_node four))
    ≡ []
      ∷ ("3" ∷ "0" ∷ "1" ∷ [])
      ∷ ("0" ∷ "1" ∷ "2" ∷ [])
      ∷ ("2" ∷ "1" ∷ "3" ∷ [])
      ∷ ("1" ∷ "2" ∷ "3" ∷ [])
      ∷ []
unfolding ◌>>=◌ link_star star_links first_gap gap_loop star_loop links_loop found_loop next_but
    set_alias peers_of holds establish count_of push_peer skip_ndx skip_loop start_ndx is_bios_ndx
    next_ndx next_ndx_calls sub64 add64
star_of_four = refl

star_of_six : is_running (link_star no_sqrt 100 six 7 (map lone_node six)) ≡ true
unfolding ◌>>=◌ link_star star_links first_gap gap_loop star_loop links_loop found_loop next_but
    set_alias peers_of holds establish count_of push_peer skip_ndx skip_loop start_ndx is_bios_ndx
    next_ndx next_ndx_calls sub64 add64
star_of_six = refl

gap_loop_total_example :
    (found : ℕ) × (gap_loop 8 6 2 ≡ ended found) × (2 ≤ found) × (found ≤ 7) × (6 % found ≢ 0)
gap_loop_total_example =
    gap_loop_total 8 6 2 (omega arith) (omega arith) (omega arith) (omega arith) (omega arith)

-- A node that has each of the three as a peer.
abbrev full_node : String × TnNodeDef
full_node = ("a", record { name = "a"; peers = "a" ∷ "b" ∷ "c" ∷ []; producers = [] })

abbrev full : StarState
full = record {
  aliases = names;
  mesh = record { nodes = full_node ∷ lone_node "b" ∷ lone_node "c" ∷ []; peers_to_from = [] };
}

all_held : AllHeld names 4 0 ("a" ∷ "b" ∷ "c" ∷ [])
unfolding holds
all_held zero x h n e = absurd (n refl)
all_held (suc zero) x h n e =
    let same : "a" ≡ x = cc e in subst (λ y. holds y ("a" ∷ "b" ∷ "c" ∷ []) ≡ true) same refl
all_held (suc (suc zero)) x h n e =
    let same : "b" ≡ x = cc e in subst (λ y. holds y ("a" ∷ "b" ∷ "c" ∷ []) ≡ true) same refl
all_held (suc (suc (suc zero))) x h n e =
    let same : "c" ≡ x = cc e in subst (λ y. holds y ("a" ∷ "b" ∷ "c" ∷ []) ≡ true) same refl
all_held (suc (suc (suc (suc k)))) x h n e = absurd (omega arith)

found_loop_endless_example : found_loop 1000 4 1 2 "a" 2 full ≡ running
unfolding peers_of
found_loop_endless_example =
    found_loop_endless 4 0 1 2 2 "a" ("a" ∷ "b" ∷ "c" ∷ []) full 1000
      (record { here = omega arith; small = omega arith; others = first_is_bios }) all_held refl
      (omega arith) (λ e. absurd (omega arith)) (omega arith) (λ e. absurd (omega arith))

abbrev state_of : Loop StarState → StarState
state_of (ended st) = st
state_of _ = full

link_star-AllDistinct_example :
    AllDistinct (state_of (link_star no_sqrt 20 four 5 (map lone_node four))).mesh.nodes
unfolding ◌>>=◌ link_star star_links first_gap gap_loop star_loop links_loop found_loop next_but
    set_alias peers_of holds establish count_of push_peer skip_ndx skip_loop start_ndx is_bios_ndx
    next_ndx next_ndx_calls sub64 add64
link_star-AllDistinct_example =
    link_star-AllDistinct no_sqrt 20 5 four (map lone_node four)
      (state_of (link_star no_sqrt 20 four 5 (map lone_node four))) (tt, (tt, (tt, (tt, (tt, tt)))))
      refl

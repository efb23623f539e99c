-- ===== src/Launcher/Star.antt =====
-- The star topology, `make_star` of eosio-launcher2/main.cpp, behind its call of `bind_nodes`, for four
-- nodes beside bios at least: for fewer it calls `make_ring`. Its variable `peer` is a reference to an
-- element of `aliases`, so that an assignment to it changes `aliases`. `sqrt` is the square root of the
-- standard library, cut to a `size_t`.
use eos_tools.Prelude.{
  ℕ, zero, suc, true, false, Option, none, some, List, [], ◌∷◌, ◌==◌, ◌+◌, ◌*◌, ◌/◌, ◌%◌, ltb,
  if◌then◌else◌, ◌>>=◌ as continue, get_elem?,
}
use eos_tools.Prelude.Text.{String, str_eq}
use eos_tools.Prelude.Word.{add64, sub64, u64_mod}
use eos_tools.Launcher.Ndx.{start_ndx, next_ndx}
use eos_tools.Launcher.Skip.{skip_ndx}
use eos_tools.Launcher.Network.{TnNodeDef}
use eos_tools.Launcher.Mesh.{MeshState, establish}
use eos_tools.Launcher.Peers.{holds}

-- The end of a loop; `running` where the rounds given are not enough.
pub data Loop {ℓ} (A : Type ℓ) : Type ℓ where
  ended : A → Loop A
  undefined : Loop A
  running : Loop A

infixl 5 ◌>>=◌
unfoldable pub ◌>>=◌ {ℓ κ} : {A : Type ℓ} {B : Type κ} → Loop A → (A → Loop B) → Loop B
ended a >>= f = f a
undefined >>= f = undefined
running >>= f = running

abbrev pub defined {ℓ} : {A : Type ℓ} → Option A → Loop A
defined none = undefined
defined (some a) = ended a

-- The peers of the node of the name.
unfoldable pub peers_of : List (String × TnNodeDef) → String → Option (List String)
peers_of [] name = none
peers_of ((key, node) ∷ nodes) name =
    let later = peers_of nodes name in if str_eq key name then some node.peers else later

-- `aliases[at] = name`
unfoldable pub set_alias : List String → ℕ → String → Option (List String)
set_alias [] at name = none
set_alias (x ∷ aliases) zero name = some (name ∷ aliases)
set_alias (x ∷ aliases) (suc at) name =
    continue (set_alias aliases at name) (λ later. some (x ∷ later))

pub record StarState : Type 0 where
  pub aliases : List String
  pub mesh : MeshState

-- `next_ndx(ndx); if (ndx == i) next_ndx(ndx);`
unfoldable pub next_but : List String → ℕ → ℕ → ℕ → Option ℕ
next_but aliases total_nodes i ndx = continue (next_ndx aliases total_nodes ndx) (λ n.
    if n.1 == i then continue (next_ndx aliases total_nodes n.1) (λ m. some m.1) else some n.1)

-- The loop on `found`, with `peer` a reference to the name at index `at`.
unfoldable pub found_loop : ℕ → ℕ → ℕ → ℕ → String → ℕ → StarState → Loop (ℕ × StarState)
found_loop zero total_nodes i at current_name ndx st = running
found_loop (suc rounds) total_nodes i at current_name ndx st = do
  peers ← defined (peers_of st.mesh.nodes current_name)
  peer ← defined (get_elem? st.aliases at)
  elim (holds peer peers) [
    | false ↦ ended (ndx, st)
    | true ↦ (do
      next ← defined (next_but st.aliases total_nodes i ndx)
      name ← defined (get_elem? st.aliases next)
      aliases ← defined (set_alias st.aliases at name)
      found_loop rounds total_nodes i at current_name next (record st { aliases = aliases }))
  ]

-- The loop on `l`, for `count` links more.
unfoldable pub links_loop : ℕ → ℕ → ℕ → ℕ → ℕ → String → ℕ → ℕ → StarState → Loop StarState
links_loop rounds zero gap total_nodes i current_name l ndx st = ended st
links_loop rounds (suc count) gap total_nodes i current_name l ndx st = do
  at ← defined (skip_ndx st.aliases total_nodes ndx (l * gap % u64_mod))
  (later, free) ← found_loop rounds total_nodes i at current_name at st
  peer ← defined (get_elem? free.aliases at)
  linked ← defined (establish current_name peer free.mesh)
  links_loop rounds count gap total_nodes i current_name (l + 1) later
      (record free { mesh = linked })

-- The outer loop.
unfoldable pub star_loop : ℕ → ℕ → ℕ → ℕ → ℕ → StarState → Loop StarState
star_loop zero links gap total_nodes i st = running
star_loop (suc rounds) links gap total_nodes i st = do
  current_name ← defined (get_elem? st.aliases i)
  peers ← defined (peers_of st.mesh.nodes current_name)
  linked ← links_loop (suc rounds) links gap total_nodes i current_name 1 i st
  (loop, next) ← defined (next_ndx linked.aliases total_nodes i)
  elim loop [ true ↦ ended linked | false ↦ star_loop rounds links gap total_nodes next linked ]

-- `while (non_bios % gap == 0) { ++gap; }`; a remainder by 0 is undefined.
unfoldable pub gap_loop : ℕ → ℕ → ℕ → Loop ℕ
gap_loop zero non_bios gap = running
gap_loop (suc rounds) non_bios gap =
    let later = gap_loop rounds non_bios (add64 gap 1) in
    if gap == 0 then undefined else if non_bios % gap == 0 then later else ended gap

unfoldable pub star_links : (ℕ → ℕ) → ℕ → ℕ
star_links sqrt non_bios = if ltb 12 non_bios then add64 (sqrt non_bios) 2 else 3

unfoldable pub first_gap : ℕ → ℕ → ℕ
first_gap non_bios links = if ltb 6 non_bios then 3 else (sub64 non_bios links / 2 + 1)

unfoldable pub link_star :
    (ℕ → ℕ) → ℕ → List String → ℕ → List (String × TnNodeDef) → Loop StarState
link_star sqrt rounds aliases total_nodes nodes = do
  let non_bios = sub64 total_nodes 1
  let links = star_links sqrt non_bios
  gap ← gap_loop rounds non_bios (first_gap non_bios links)
  start ← defined (start_ndx aliases)
  star_loop rounds links gap total_nodes start
      (record { aliases = aliases; mesh = record { nodes = nodes; peers_to_from = [] } })

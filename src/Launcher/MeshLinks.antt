-- ===== src/Launcher/MeshLinks.antt =====
-- What `make_mesh` of eosio-launcher2/main.cpp connects, where only the node at index `b` is bios.
use eos_tools.Prelude.{
  ℕ, zero, suc, Bool, true, false, Option, none, some, List, [], ◌∷◌, ◌++◌, ◌==◌, ◌+◌, ◌-◌, ◌<◌,
  ◌≤◌, ◌&&◌, if◌then◌else◌, ◌>>=◌, ◌≡◌, ◌≢◌, refl, sym, ap, ◌∙◌, arith, ==_yes, ==_no, inl, inr,
  Bool-cases, lt→ltb, get_elem?, cons≢nil, head-eq_of_cons-eq, tail-eq_of_cons-eq,
}
use eos_tools.Prelude.Text.{String, str_eq}
use eos_tools.Prelude.Word.{add64_lem}
use eos_tools.Launcher.Ndx.{start_ndx, next_ndx_calls, next_ndx}
use eos_tools.Launcher.Network.{TnNodeDef, push_peer}
use eos_tools.Launcher.Ring.{connect}
use eos_tools.Launcher.RingCorrect.{connect_all}
use eos_tools.Launcher.Walk.{step_to}
use eos_tools.Launcher.SkipReaches.{OnlyBios, skipped, skip_ndx-skipped}
use eos_tools.Launcher.Mesh.{PeersToFrom, count_of, MeshState, establish, offsets_loop, mesh_loop}

-- The `count` indexes from `k` on, but `b`.
unfoldable pub others : ℕ → ℕ → ℕ → List ℕ
others b k zero = []
others b k (suc count) = let later = others b (k + 1) count in if k == b then later else k ∷ later

-- The pairs of `i` and the indexes at the offsets from `j` on.
unfoldable pub edges_from : ℕ → ℕ → ℕ → ℕ → ℕ → List (ℕ × ℕ)
edges_from total_nodes b i j zero = []
edges_from total_nodes b i j (suc count) =
    (i, skipped total_nodes b i j) ∷ edges_from total_nodes b i (j + 1) count

unfoldable pub mesh_edges : ℕ → ℕ → List ℕ → List (ℕ × ℕ)
mesh_edges total_nodes b [] = []
mesh_edges total_nodes b (w ∷ ws) =
    edges_from total_nodes b w 1 (total_nodes - 2) ++ mesh_edges total_nodes b ws

unfoldable pub nodes_of : Option MeshState → Option (List (String × TnNodeDef))
nodes_of none = none
nodes_of (some st) = some st.nodes

nodes_bind :
    (o : Option MeshState) (k : MeshState → Option MeshState)
    (f : List (String × TnNodeDef) → Option (List (String × TnNodeDef)))
    → ((st : MeshState) → nodes_of (k st) ≡ f st.nodes)
    → nodes_of (o >>= k) ≡ nodes_of o >>= f
unfolding nodes_of
nodes_bind none k f h = refl
nodes_bind (some st) k f h = h st

-- A set holds a member once at most.
count_lt : (entries : PeersToFrom) (peer name : String) → count_of entries peer name < 2
unfolding count_of
count_lt [] peer name = omega arith
count_lt ((key, member) ∷ entries) peer name =
    let later = count_lt entries peer name in
    elim (Bool-cases (str_eq key peer && str_eq member name)) [
      | inl t ↦ rw (t) (omega arith)
      | inr f ↦ rw (f) later
    ]

pub establish-push_peer :
    (name peer : String) (st : MeshState)
    → nodes_of (establish name peer st) ≡ push_peer st.nodes name peer
unfolding establish nodes_of
establish-push_peer name peer st =
    rw (lt→ltb (count_of st.peers_to_from peer name) 2 (count_lt st.peers_to_from peer name))
      (by_push (push_peer st.nodes name peer))
  where
    by_push :
        (o : Option (List (String × TnNodeDef)))
        → nodes_of (
            o >>= λ linked.
            some (record { nodes = linked; peers_to_from = (name, peer) ∷ st.peers_to_from }))
          ≡ o
    by_push none = refl
    by_push (some linked) = refl

connect_all-append :
    (aliases : List String) (xs ys : List (ℕ × ℕ)) (nodes : List (String × TnNodeDef))
    → connect_all aliases (xs ++ ys) nodes
      ≡ connect_all aliases xs nodes >>= λ linked. connect_all aliases ys linked
unfolding connect_all
connect_all-append aliases [] ys nodes = refl
connect_all-append aliases ((from, to) ∷ xs) ys nodes =
    by_first (connect aliases from to nodes) (connect_all-append aliases xs ys)
  where
    by_first :
        (o : Option (List (String × TnNodeDef)))
        → ((linked : List (String × TnNodeDef))
            → connect_all aliases (xs ++ ys) linked
              ≡ connect_all aliases xs linked >>= λ later. connect_all aliases ys later)
        → (o >>= λ linked. connect_all aliases (xs ++ ys) linked)
          ≡ (o >>= λ linked. connect_all aliases xs linked) >>= λ later.
              connect_all aliases ys later
    by_first none h = refl
    by_first (some linked) h = h linked

module _ (aliases : List String) (total_nodes b : ℕ) (only : OnlyBios aliases total_nodes b) where
  offsets_follow :
      (count i j : ℕ) (st : MeshState)
      → 3 ≤ total_nodes
      → i < total_nodes
      → 1 ≤ j
      → count + j + 1 ≤ total_nodes
      → nodes_of (offsets_loop count aliases total_nodes i j st)
        ≡ connect_all aliases (edges_from total_nodes b i j count) st.nodes
  unfolding offsets_loop edges_from connect_all connect nodes_of
  offsets_follow zero i j st three h o e = refl
  offsets_follow (suc count) i j st three h o e =
      rw (skip_ndx-skipped aliases total_nodes b only i j three h o (omega arith)) (
        by_names (get_elem? aliases i) (get_elem? aliases (skipped total_nodes b i j))
          (λ s. offsets_follow count i (j + 1) s three h (omega arith) (omega arith)))
    where
      by_names :
          (from to : Option String)
          → ((s : MeshState)
              → nodes_of (offsets_loop count aliases total_nodes i (j + 1) s)
                ≡ connect_all aliases (edges_from total_nodes b i (j + 1) count) s.nodes)
          → nodes_of (
              from >>= λ name. to >>= λ peer. establish name peer st >>= λ linked.
              offsets_loop count aliases total_nodes i (j + 1) linked)
            ≡ (from >>= λ name. to >>= λ peer. push_peer st.nodes name peer) >>= λ linked.
                connect_all aliases (edges_from total_nodes b i (j + 1) count) linked
      by_names none to h = refl
      by_names (some name) none h = refl
      by_names (some name) (some peer) h =
          nodes_bind (establish name peer st) _ _ h
          ∙ ap
              (λ o. o >>= λ linked.
                connect_all aliases (edges_from total_nodes b i (j + 1) count) linked)
              (establish-push_peer name peer st)

  -- The indexes that the walk reaches from `k` on.
  calls_reach_others :
      (start calls k rest : ℕ)
      → k + 1 + rest ≡ total_nodes
      → rest < calls
      → start_ndx aliases ≡ some start
      → next_ndx_calls calls aliases total_nodes k ≡ some (step_to start (others b (k + 1) rest))
  unfolding next_ndx_calls others step_to
  calls_reach_others start zero k rest e c s = absurd (omega arith)
  calls_reach_others start (suc calls) k zero e c s =
      let m = only.small in
      rw (add64_lem k 1 (omega arith), ==_yes (k + 1) total_nodes (omega arith), s) refl
  calls_reach_others start (suc calls) k (suc rest) e c s =
      let m = only.small in
      let sum = add64_lem k 1 (omega arith) in
      let inside = only.others (k + 1) (omega arith) in
      let goes_on = ==_no (k + 1) total_nodes (omega arith) in
      elim (Bool-cases (k + 1 == b)) [
        | inl t ↦
            rw (sum, goes_on, inside, t, sum)
              (calls_reach_others start calls (k + 1) rest (omega arith) (omega arith) s)
        | inr f ↦ rw (sum, goes_on, inside, f, sum) refl
      ]

  others_later :
      (k w count : ℕ) (ws : List ℕ)
      → others b k count ≡ w ∷ ws
      → (later : ℕ) × (others b (w + 1) later ≡ ws)
        × (w + 1 + later ≡ k + count)
        × (later < count)
        × (w ≢ b)
  unfolding others
  others_later k w zero ws e = absurd (cons≢nil (sym e))
  others_later k w (suc count) ws e = elim (Bool-cases (k == b)) [
    | inl t ↦
        let skip : others b k (suc count) ≡ others b (k + 1) count = rw (t) refl in
        let (later, f, l, m, n) = others_later (k + 1) w count ws (sym skip ∙ e) in
        (later, f, omega arith, omega arith, n)
    | inr g ↦
        let keep : others b k (suc count) ≡ k ∷ others b (k + 1) count = rw (g) refl in
        let first = sym keep ∙ e in
        let same : k ≡ w = head-eq_of_cons-eq first in
        (
          count,
          ap (λ v. others b (v + 1) count) (sym same) ∙ tail-eq_of_cons-eq first,
          omega arith,
          omega arith,
          ground arith,
        )
  ]

  pub mesh_follows :
      (start rounds w rest : ℕ) (ws : List ℕ) (st : MeshState)
      → 3 ≤ total_nodes
      → start_ndx aliases ≡ some start
      → w + 1 + rest ≡ total_nodes
      → rest < rounds
      → others b (w + 1) rest ≡ ws
      → nodes_of (mesh_loop rounds aliases total_nodes (total_nodes - 1) w st)
        ≡ connect_all aliases (mesh_edges total_nodes b (w ∷ ws)) st.nodes
  unfolding mesh_loop mesh_edges next_ndx step_to connect_all nodes_of
  mesh_follows start zero w rest ws st three s e c o = absurd (omega arith)
  mesh_follows start (suc rounds) w rest ws st three s e c o =
      nodes_bind (offsets_loop (total_nodes - 1 - 1) aliases total_nodes w 1 st) _
        (λ nodes. connect_all aliases (mesh_edges total_nodes b ws) nodes)
        (later (λ v m vs linked. mesh_follows start rounds v m vs linked three s) ws o)
      ∙ ap (λ f. f >>= λ nodes. connect_all aliases (mesh_edges total_nodes b ws) nodes)
          (ap (λ n. nodes_of (offsets_loop n aliases total_nodes w 1 st)) two
            ∙ offsets_follow (total_nodes - 2) w 1 st three (omega arith) (omega arith)
                (omega arith))
      ∙ sym (
          connect_all-append aliases (edges_from total_nodes b w 1 (total_nodes - 2))
            (mesh_edges total_nodes b ws) st.nodes)
    where
      two : total_nodes - 1 - 1 ≡ total_nodes - 2
      two = omega arith

      next :
          (ws : List ℕ)
          → others b (w + 1) rest ≡ ws
          → next_ndx aliases total_nodes w ≡ some (step_to start ws)
      next ws o =
          calls_reach_others start total_nodes w rest e (omega arith) s
          ∙ ap (λ l. some (step_to start l)) o

      after_next : MeshState → Option (Bool × ℕ) → Option MeshState
      after_next linked o = o >>= λ x. elim x.0 [
        | true ↦ some linked
        | false ↦ mesh_loop rounds aliases total_nodes (total_nodes - 1) x.1 linked
      ]

      later :
          ((v m : ℕ) (vs : List ℕ) (linked : MeshState)
            → v + 1 + m ≡ total_nodes
            → m < rounds
            → others b (v + 1) m ≡ vs
            → nodes_of (mesh_loop rounds aliases total_nodes (total_nodes - 1) v linked)
              ≡ connect_all aliases (mesh_edges total_nodes b (v ∷ vs)) linked.nodes)
          → (ws : List ℕ) → others b (w + 1) rest ≡ ws
          → (linked : MeshState)
          → nodes_of (after_next linked (next_ndx aliases total_nodes w))
            ≡ connect_all aliases (mesh_edges total_nodes b ws) linked.nodes
      later rec [] o linked = ap (λ q. nodes_of (after_next linked q)) (next [] o)
      later rec (v ∷ vs) o linked =
          let (m, f, l, fewer, n) = others_later (w + 1) v rest vs o in
          ap (λ q. nodes_of (after_next linked q)) (next (v ∷ vs) o)
          ∙ rec v m vs linked (omega arith) (omega arith) f

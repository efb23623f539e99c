-- ===== src/Launcher/MeshPeers.antt =====
-- The peers of the nodes after `make_mesh` of eosio-launcher2/main.cpp, where only the node at index
-- `b` is bios.
use eos_tools.Prelude.{
  or_true, ℕ, zero, suc, true, false, Option, none, some, List, [], ◌∷◌, ◌++◌, ◌==◌, ◌+◌, ◌-◌, ◌%◌,
  ◌<◌, ◌≤◌, ◌||◌, ltb, if◌then◌else◌, ◌>>=◌, ◌≡◌, ◌≢◌, ◌⊎◌, refl, sym, ap, ◌∙◌, subst, arith, ==_no,
  inl, inr, Bool-cases, ltb→lt, get_elem?, length, All, All-append,
}
use eos_tools.Prelude.Text.{String}
use eos_tools.Prelude.Word.{sub64_lem}
use eos_tools.Launcher.Network.{TnNodeDef}
use eos_tools.Launcher.RingCorrect.{connect_all}
use eos_tools.Launcher.SkipReaches.{OnlyBios, start_found, skipped, skipped_else, mod_near}
use eos_tools.Launcher.Mesh.{MeshState, mesh_loop, link_mesh}
use eos_tools.Launcher.MeshLinks.{others, edges_from, mesh_edges, nodes_of, mesh_follows}
use eos_tools.Launcher.Peers.{has_node, has_peer, Inside, Among, link_total}

Among-left : (xs ys : List (ℕ × ℕ)) (e : ℕ × ℕ) → Among xs e → Among (xs ++ ys) e
Among-left [] ys e m = absurd m
Among-left (x ∷ xs) ys e (inl q) = inl q
Among-left (x ∷ xs) ys e (inr m) = inr (Among-left xs ys e m)

Among-right : (xs ys : List (ℕ × ℕ)) (e : ℕ × ℕ) → Among ys e → Among (xs ++ ys) e
Among-right [] ys e m = m
Among-right (x ∷ xs) ys e m = inr (Among-right xs ys e m)

get_elem?_inside : (xs : List String) (i : ℕ) (x : String) → get_elem? xs i ≡ some x → i < length xs
get_elem?_inside [] i x e = absurd (cc e)
get_elem?_inside (y ∷ xs) zero x e = omega arith
get_elem?_inside (y ∷ xs) (suc i) x e = let rest = get_elem?_inside xs i x e in omega arith

All-at :
    (P : String → Type 0) (xs : List String)
    → All P xs
    → (i : ℕ) (x : String) → get_elem? xs i ≡ some x
    → P x
All-at P [] h i x e = absurd (cc e)
All-at P (y ∷ xs) h zero x e = let same : y ≡ x = cc e in subst P same h.0
All-at P (y ∷ xs) h (suc i) x e = All-at P xs h.1 i x e

module _ (aliases : List String) (b : ℕ) (only : OnlyBios aliases (length aliases) b)
    (three : 3 ≤ length aliases) where
  abbrev total : ℕ
  total = length aliases

  from_Inside :
      (i j count : ℕ)
      → i < total
      → 1 ≤ j
      → count + j + 1 ≤ total
      → All (Inside aliases) (edges_from total b i j count)
  unfolding edges_from
  from_Inside i j zero h o e = tt
  from_Inside i j (suc count) h o e =
      let inside = (skipped_else aliases total b only i j three h o (omega arith)).0 in
      ((h, inside), from_Inside i (j + 1) count h (omega arith) (omega arith))

  mesh-Inside :
      (k count : ℕ)
      → k + count ≤ total
      → All (Inside aliases) (mesh_edges total b (others b k count))
  unfolding mesh_edges others
  mesh-Inside k zero e = tt
  mesh-Inside k (suc count) e =
      let later = mesh-Inside (k + 1) count (omega arith) in
      elim (Bool-cases (k == b)) [
        | inl t ↦ rw (t) later
        | inr f ↦ rw (f) (
            All-append (Inside aliases) (edges_from total b k 1 (total - 2))
              (mesh_edges total b (others b (k + 1) count))
              (from_Inside k 1 (total - 2) (omega arith) (omega arith) (omega arith)) later)
      ]

  from_Among :
      (i j count t : ℕ)
      → t < count
      → Among (edges_from total b i j count) (i, skipped total b i (j + t))
  unfolding edges_from
  from_Among i j zero t h = absurd (omega arith)
  from_Among i j (suc count) zero h =
      let same : j + 0 ≡ j = omega arith in inl (ap (λ n. (i, skipped total b i n)) same)
  from_Among i j (suc count) (suc t) h =
      let same : j + 1 + t ≡ j + suc t = omega arith in
      inr (
        subst (λ n. Among (edges_from total b i (j + 1) count) (i, skipped total b i n)) same
          (from_Among i (j + 1) count t (omega arith)))

  mesh-Among :
      (k count v : ℕ) (e : ℕ × ℕ)
      → k ≤ v
      → v < k + count
      → v ≢ b
      → Among (edges_from total b v 1 (total - 2)) e
      → Among (mesh_edges total b (others b k count)) e
  unfolding mesh_edges others
  mesh-Among k zero v e h g n m = absurd (omega arith)
  mesh-Among k (suc count) v e h g n m = elim (Bool-cases (k == b)) [
    | inl t ↦
        let later : k + 1 ≤ v = ground arith in
        rw (t) (mesh-Among (k + 1) count v e later (omega arith) n m)
    | inr f ↦ rw (f) (elim (Bool-cases (k == v)) [
      | inl q ↦
          let same : v ≡ k = ground arith in
          Among-left _ _ e (subst (λ u. Among (edges_from total b u 1 (total - 2)) e) same m)
      | inr q ↦
          let later : k + 1 ≤ v = ground arith in
          Among-right _ _ e (mesh-Among (k + 1) count v e later (omega arith) n m)
    ])
  ]

  -- An index further on, at an offset that the inner loop has.
  edge_at :
      (v w offset : ℕ)
      → v < total
      → w < total
      → v ≢ b
      → w ≢ b
      → 1 ≤ offset
      → offset + 2 ≤ total
      → (v + offset) % total ≡ w
      → Among (mesh_edges total b (others b 0 total)) (v, w)
  unfolding skipped
  edge_at v w offset h g n m o p e =
      let found : skipped total b v offset ≡ w = rw (e, ==_no w b m) refl in
      let t : 1 + (offset - 1) ≡ offset = omega arith in
      mesh-Among 0 total v (v, w) (omega arith) (omega arith) n
        (subst (λ u. Among (edges_from total b v 1 (total - 2)) (v, u))
          (ap (skipped total b v) t ∙ found)
          (from_Among v 1 (total - 2) (offset - 1) (omega arith)))

  pair-Among :
      (v w : ℕ)
      → v < w
      → w < total
      → v ≢ b
      → w ≢ b
      → Among (mesh_edges total b (others b 0 total)) (v, w)
        ⊎ Among (mesh_edges total b (others b 0 total)) (w, v)
  pair-Among v w h g n m = elim (Bool-cases (ltb (w - v + 1) total)) [
    | inl t ↦
        let few = ltb→lt (w - v + 1) total t in
        inl (
          edge_at v w (w - v) (omega arith) g n m (omega arith) (omega arith)
            (let near = mod_near (v + (w - v)) total (omega arith) (omega arith) in ground arith))
    | inr f ↦ inr (
        edge_at w v 1 g (omega arith) m n (omega arith) (omega arith)
          (let near = mod_near (w + 1) total (omega arith) (omega arith) in ground arith))
  ]

  abbrev first_index : ℕ
  first_index = if 0 == b then 1 else 0

  others_first :
      others b 0 total ≡ first_index ∷ others b (first_index + 1) (total - 1 - first_index)
  unfolding others
  others_first = elim (Bool-cases (0 == b)) [
    | inl t ↦
        let two : total ≡ suc (suc (total - 2)) = omega arith in
        let second : (1 == b) ≡ false = ground arith in
        let rest : total - 1 - 1 ≡ total - 2 = omega arith in
        ap (λ n. others b 0 n) two ∙ rw (t, others, second, rest) refl
    | inr f ↦
        let one : total ≡ suc (total - 1) = omega arith in
        let rest : total - 1 - 0 ≡ total - 1 = omega arith in
        ap (λ n. others b 0 n) one ∙ rw (f, others, rest) refl
  ]

  first_small : first_index ≤ 1
  first_small = ground arith

  link_mesh-edges :
      (nodes : List (String × TnNodeDef))
      → link_mesh aliases total nodes
        ≡ connect_all aliases (mesh_edges total b (others b 0 total)) nodes
  unfolding link_mesh nodes_of
  link_mesh-edges nodes =
      let small = only.small in
      let low = first_small in
      let begin : MeshState = record { nodes = nodes; peers_to_from = [] } in
      rw (start_found aliases total b only, sub64_lem total 1 (omega arith) (omega arith))
        (by_nodes (mesh_loop total aliases total (total - 1) first_index begin)
          ∙ mesh_follows aliases total b only first_index total first_index
              (total - 1 - first_index) _ begin three (start_found aliases total b only)
              (omega arith) (omega arith) refl
          ∙ ap (λ ws. connect_all aliases (mesh_edges total b ws) nodes) (sym others_first))
    where
      by_nodes : (o : Option MeshState) → (o >>= λ st. some st.nodes) ≡ nodes_of o
      by_nodes none = refl
      by_nodes (some st) = refl

-- In a network of three nodes at least, of which the one at index `b` alone is bios, and with a node
-- for each name, `make_mesh` returns, and of any two nodes beside bios one has the other as a peer.
pub link_mesh-has_peer :
    (aliases : List String) (nodes : List (String × TnNodeDef)) (b v w : ℕ) (x y : String)
    → OnlyBios aliases (length aliases) b
    → 3 ≤ length aliases
    → All (λ name. has_node nodes name ≡ true) aliases
    → v < w
    → v ≢ b
    → w ≢ b
    → get_elem? aliases v ≡ some x
    → get_elem? aliases w ≡ some y
    → (linked : List (String × TnNodeDef)) × (link_mesh aliases (length aliases) nodes
        ≡ some linked)
      × ((has_peer linked x y || has_peer linked y x) ≡ true)
link_mesh-has_peer aliases nodes b v w x y only three there h n m ex ey =
    let edges = mesh_edges (length aliases) b (others b 0 (length aliases)) in
    let inside = get_elem?_inside aliases w y ey in
    let done =
      link_total aliases edges nodes
        (mesh-Inside aliases b only three 0 (length aliases) (omega arith))
        (All-at (λ name. has_node nodes name ≡ true) aliases there) in
    (
      done.linked,
      link_mesh-edges aliases b only three nodes ∙ done.runs,
      elim (pair-Among aliases b only three v w h inside n m) [
        | inl e ↦ rw (done.pushed v w x y e ex ey) refl
        | inr e ↦ rw (done.pushed w v y x e ey ex) (or_true _)
      ],
    )

-- ===== src/Launcher/Peers.antt =====
-- The peers that the topologies of eosio-launcher2/main.cpp give the nodes, `network.nodes`.
use eos_tools.Prelude.{
  or_true, ℕ, Bool, true, false, some, List, [], ◌∷◌, ◌++◌, ◌<◌, ◌||◌, if◌then◌else◌, ◌≡◌, ◌⊎◌,
  refl, ap, ◌∙◌, arith, inl, inr, Bool-cases, get_elem?, get_elem?_total, length, All,
}
use text.Mathlib.TextEquality.{eq_iff}
use eos_tools.Prelude.Text.{String, str_eq}
use eos_tools.Launcher.Network.{TnNodeDef, push_peer}
use eos_tools.Launcher.Ring.{connect}
use eos_tools.Launcher.RingCorrect.{connect_all}

-- Whether the names hold the name.
unfoldable pub holds : String → List String → Bool
holds name [] = false
holds name (x ∷ xs) = str_eq x name || holds name xs

-- Whether there is a node of the name.
unfoldable pub has_node : List (String × TnNodeDef) → String → Bool
has_node [] name = false
has_node ((key, node) ∷ nodes) name = str_eq key name || has_node nodes name

-- Whether the node of the name has the peer.
unfoldable pub has_peer : List (String × TnNodeDef) → String → String → Bool
has_peer [] name peer = false
has_peer ((key, node) ∷ nodes) name peer =
    let later = has_peer nodes name peer in if str_eq key name then holds peer node.peers else later

pub holds-append :
    (name peer : String) (xs : List String)
    → holds name (xs ++ peer ∷ []) ≡ (holds name xs || str_eq peer name)
unfolding holds
holds-append name peer [] = elim (Bool-cases (str_eq peer name)) [
  | inl t ↦ rw (t) refl
  | inr f ↦ rw (f) refl
]
holds-append name peer (x ∷ xs) = elim (Bool-cases (str_eq x name)) [
  | inl t ↦ rw (t) refl
  | inr f ↦ rw (f) (holds-append name peer xs)
]

-- What a push does: it is of the peer, and keeps the nodes and the peers there are.
pub record Pushed (nodes : List (String × TnNodeDef)) (name peer : String) : Type 0 where
  pub linked : List (String × TnNodeDef)
  pub runs : push_peer nodes name peer ≡ some linked
  pub pushed : has_peer linked name peer ≡ true
  pub peers_kept : (x y : String) → has_peer nodes x y ≡ true → has_peer linked x y ≡ true
  pub nodes_kept : (x : String) → has_node linked x ≡ has_node nodes x

pub str_self : (x : String) → str_eq x x ≡ true
str_self x = ground (arith, eq_iff x x)

pub push_total :
    (nodes : List (String × TnNodeDef)) (name peer : String)
    → has_node nodes name ≡ true
    → Pushed nodes name peer
unfolding push_peer has_node has_peer
push_total [] name peer h = absurd (cc h)
push_total ((key, node) ∷ nodes) name peer h = elim (Bool-cases (str_eq key name)) [
  | inl t ↦ record {
    linked = (key, record node { peers = node.peers ++ peer ∷ [] }) ∷ nodes;
    runs = rw (t, push_peer) refl;
    pushed =
        rw (t, has_peer, holds-append peer peer node.peers, str_self peer)
          (or_true (holds peer node.peers));
    peers_kept = λ x y g. ground (arith, holds-append y peer node.peers);
    nodes_kept = λ x. refl;
  }
  | inr f ↦
      let there : has_node nodes name ≡ true = ground arith in
      let rest = push_total nodes name peer there in
      record {
        linked = (key, node) ∷ rest.linked;
        runs = rw (f, push_peer, rest.runs) refl;
        pushed = rw (f, has_peer) rest.pushed;
        peers_kept = λ x y g. ground (arith, rest.peers_kept x y);
        nodes_kept = λ x. ap (λ c. str_eq key x || c) (rest.nodes_kept x);
      }
]

-- Both ends of a pair are indexes of the names.
abbrev pub Inside : List String → ℕ × ℕ → Type 0
Inside aliases (from, to) = (from < length aliases) × (to < length aliases)

abbrev pub Among : List (ℕ × ℕ) → ℕ × ℕ → Type 0
Among [] e = ⊥
Among (x ∷ xs) e = (e ≡ x) ⊎ Among xs e

pub record Linked (aliases : List String) (edges : List (ℕ × ℕ)) (nodes : List (String × TnNodeDef))
    : Type 0 where
  pub linked : List (String × TnNodeDef)
  pub runs : connect_all aliases edges nodes ≡ some linked
  pub pushed :
      (v w : ℕ) (x y : String)
      → Among edges (v, w)
      → get_elem? aliases v ≡ some x
      → get_elem? aliases w ≡ some y
      → has_peer linked x y ≡ true
  pub peers_kept : (x y : String) → has_peer nodes x y ≡ true → has_peer linked x y ≡ true

abbrev pub AllThere : List String → List (String × TnNodeDef) → Type 0
AllThere aliases nodes =
    (i : ℕ) (x : String) → get_elem? aliases i ≡ some x → has_node nodes x ≡ true

same_name :
    (aliases : List String) (v w : ℕ) (x y : String)
    → v ≡ w
    → get_elem? aliases v ≡ some x
    → get_elem? aliases w ≡ some y
    → x ≡ y
same_name aliases v w x y e f g = cc (e, f, g)

pub link_total :
    (aliases : List String) (edges : List (ℕ × ℕ)) (nodes : List (String × TnNodeDef))
    → All (Inside aliases) edges
    → AllThere aliases nodes
    → Linked aliases edges nodes
unfolding connect_all connect
link_total aliases [] nodes h there = record {
  linked = nodes;
  runs = refl;
  pushed = λ v w x y m f g. absurd m;
  peers_kept = λ x y g. g;
}
link_total aliases ((from, to) ∷ edges) nodes h there =
    let (x, ex) = get_elem?_total aliases from h.0.0 in
    let (y, ey) = get_elem?_total aliases to h.0.1 in
    let first = push_total nodes x y (there from x ex) in
    let rest =
      link_total aliases edges first.linked h.1 (λ i z e. first.nodes_kept z ∙ there i z e) in
    record {
      linked = rest.linked;
      runs = rw (ex, ey, first.runs) rest.runs;
      pushed = λ v w u z m f g. elim m [
        | inl q ↦
            let ux = same_name aliases v from u x (ap (λ e. e.0) q) f ex in
            let zy = same_name aliases w to z y (ap (λ e. e.1) q) g ey in
            rest.peers_kept u z (rw (ux, zy) first.pushed)
        | inr later ↦ rest.pushed v w u z later f g
      ];
      peers_kept = λ u z g. rest.peers_kept u z (first.peers_kept u z g);
    }

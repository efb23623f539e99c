-- ===== src/Launcher/StarDistinct.antt =====
-- The peers of a node after `make_star` of eosio-launcher2/main.cpp, each once.
use eos_tools.Prelude.{
  ℕ, zero, suc, Bool, true, false, Option, none, some, List, [], ◌∷◌, ◌++◌, ◌+◌, ◌≡◌, refl, sym, ap,
  ◌∙◌, subst, arith, inl, inr, Bool-cases, Option-cases, All, get_elem?,
}
use text.Mathlib.TextEquality.{eq_iff}
use eos_tools.Prelude.Text.{String, str_eq}
use eos_tools.Launcher.Network.{TnNodeDef, push_peer}
use eos_tools.Launcher.Peers.{holds, holds-append}
use eos_tools.Launcher.MeshLinks.{nodes_of, establish-push_peer}
use eos_tools.Launcher.Star.{
  Loop, ended, undefined, running, ◌>>=◌, defined, StarState, peers_of, set_alias, next_but,
  found_loop, links_loop, star_loop, link_star,
}

abbrev pub Distinct : List String → Type 0
Distinct [] = Unit
Distinct (x ∷ xs) = (holds x xs ≡ false) × Distinct xs

-- No node has a peer twice.
abbrev pub AllDistinct : List (String × TnNodeDef) → Type 0
AllDistinct nodes = All (λ n. Distinct n.1.peers) nodes

str_sym : (x y : String) → str_eq x y ≡ false → str_eq y x ≡ false
str_sym x y f = ground (arith, eq_iff x y, eq_iff y x)

Distinct-append :
    (xs : List String) (p : String) → Distinct xs → holds p xs ≡ false → Distinct (xs ++ p ∷ [])
unfolding holds
Distinct-append [] p d h = (refl, tt)
Distinct-append (x ∷ xs) p d h =
    let other : str_eq x p ≡ false = ground arith in
    let later : holds p xs ≡ false = ground arith in
    let back = str_sym x p other in
    (holds-append x p xs ∙ rw (d.0, back) refl, Distinct-append xs p d.1 later)

push-AllDistinct :
    (nodes linked : List (String × TnNodeDef)) (name peer : String) (peers : List String)
    → peers_of nodes name ≡ some peers
    → holds peer peers ≡ false
    → push_peer nodes name peer ≡ some linked
    → AllDistinct nodes
    → AllDistinct linked
unfolding push_peer peers_of
push-AllDistinct [] linked name peer peers e h p d = absurd (cc e)
push-AllDistinct ((key, node) ∷ nodes) linked name peer peers e h p d =
    elim (Bool-cases (str_eq key name)) [
      | inl t ↦
          let found : peers_of ((key, node) ∷ nodes) name ≡ some node.peers =
            rw (t, peers_of) refl in
          let same : node.peers ≡ peers = cc (sym found ∙ e) in
          let pushed : push_peer ((key, node) ∷ nodes) name peer
              ≡ some ((key, record node { peers = node.peers ++ peer ∷ [] }) ∷ nodes) =
            rw (t, push_peer) refl in
          let all : (key, record node { peers = node.peers ++ peer ∷ [] }) ∷ nodes ≡ linked =
            cc (sym pushed ∙ p) in
          let once = Distinct-append node.peers peer d.0 (ap (holds peer) same ∙ h) in
          subst AllDistinct all (once, d.1)
      | inr f ↦
          let found : peers_of nodes name ≡ some peers =
            sym (
              let skip : peers_of ((key, node) ∷ nodes) name ≡ peers_of nodes name =
                rw (f, peers_of) refl in
              skip)
            ∙ e in
          elim (Option-cases (push_peer nodes name peer)) [
            | inl n ↦
                let lost : push_peer ((key, node) ∷ nodes) name peer ≡ none =
                  rw (f, push_peer, n) refl in
                absurd (cc (sym lost ∙ p))
            | inr (later, q) ↦
                let pushed : push_peer ((key, node) ∷ nodes) name peer
                    ≡ some ((key, node) ∷ later) =
                  rw (f, push_peer, q) refl in
                let all : (key, node) ∷ later ≡ linked = cc (sym pushed ∙ p) in
                subst AllDistinct all
                  (d.0, push-AllDistinct nodes later name peer peers found h q d.1)
          ]
    ]

bind_ended :
    {A B : Type 0} (m : Loop A) (f : A → Loop B) (b : B)
    → (m >>= f) ≡ ended b
    → (a : A) × (m ≡ ended a) × (f a ≡ ended b)
unfolding ◌>>=◌
bind_ended (ended a) f b e = (a, refl, e)
bind_ended undefined f b e = absurd (cc e)
bind_ended running f b e = absurd (cc e)

defined_ended : {A : Type 0} (o : Option A) (a : A) → defined o ≡ ended a → o ≡ some a
defined_ended none a e = absurd (cc e)
defined_ended (some x) a e = cc e

-- What is known where the loop on `found` ends.
record Free (at : ℕ) (name : String) (st later : StarState) : Type 0 where
  same : later.mesh ≡ st.mesh
  peers : List String
  peer : String
  has : peers_of st.mesh.nodes name ≡ some peers
  stands : get_elem? later.aliases at ≡ some peer
  new : holds peer peers ≡ false

found_Free :
    (rounds total_nodes i at ndx next : ℕ) (name : String) (st later : StarState)
    → found_loop rounds total_nodes i at name ndx st ≡ ended (next, later)
    → Free at name st later
unfolding found_loop
found_Free zero total_nodes i at ndx next name st later e = absurd (cc e)
found_Free (suc rounds) total_nodes i at ndx next name st later e =
    let (peers, ep, e1) = bind_ended _ _ _ e in
    let (peer, en, e2) = bind_ended _ _ _ e1 in
    by_held
      (λ n aliases.
        found_Free rounds total_nodes i at n next name (record st { aliases = aliases }) later)
      peers peer (defined_ended _ _ ep) (defined_ended _ _ en) (holds peer peers) refl e2
  where
    go : ℕ → List String → Loop (ℕ × StarState)
    go next aliases = found_loop rounds total_nodes i at name next (record st { aliases = aliases })

    by_held :
        ((next1 : ℕ) (aliases : List String)
          → go next1 aliases ≡ ended (next, later)
          → Free at name (record st { aliases = aliases }) later)
        → (peers : List String) (peer : String) → peers_of st.mesh.nodes name ≡ some peers
        → get_elem? st.aliases at ≡ some peer
        → (c : Bool) → holds peer peers ≡ c
        → elim c as (λ c. Loop (ℕ × StarState)) [
          | false ↦ ended (ndx, st)
          | true ↦ (do
            next ← defined (next_but st.aliases total_nodes i ndx)
            name ← defined (get_elem? st.aliases next)
            aliases ← defined (set_alias st.aliases at name)
            go next aliases)
        ]
          ≡ ended (next, later)
        → Free at name st later
    by_held rec peers peer p n false h e =
        let same : st ≡ later = cc e in
        record {
          same = ap (λ s. s.mesh) (sym same);
          peers = peers;
          peer = peer;
          has = p;
          stands = ap (λ s. get_elem? s.aliases at) (sym same) ∙ n;
          new = h;
        }
    by_held rec peers peer p n true h e =
        let (next1, f, e1) = bind_ended _ _ _ e in
        let (name1, g, e2) = bind_ended _ _ _ e1 in
        let (aliases, k, e3) = bind_ended _ _ _ e2 in
        let rest = rec next1 aliases e3 in
        record {
          same = rest.same;
          peers = rest.peers;
          peer = rest.peer;
          has = rest.has;
          stands = rest.stands;
          new = rest.new;
        }

links_AllDistinct :
    (rounds count gap total_nodes i : ℕ) (name : String) (l ndx : ℕ) (st later : StarState)
    → links_loop rounds count gap total_nodes i name l ndx st ≡ ended later
    → AllDistinct st.mesh.nodes
    → AllDistinct later.mesh.nodes
unfolding links_loop nodes_of
links_AllDistinct rounds zero gap total_nodes i name l ndx st later e d =
    let same : st ≡ later = cc e in subst (λ s. AllDistinct s.mesh.nodes) same d
links_AllDistinct rounds (suc count) gap total_nodes i name l ndx st later e d =
    let (at, ea, e1) = bind_ended _ _ _ e in
    let ((next, free), ef, e2) = bind_ended _ _ _ e1 in
    let (peer, ep, e3) = bind_ended _ _ _ e2 in
    let (mesh, em, e4) = bind_ended _ _ _ e3 in
    let found = found_Free rounds total_nodes i at at next name st free ef in
    let peer_found : found.peer ≡ peer = cc (sym found.stands ∙ defined_ended _ _ ep) in
    let pushed : push_peer free.mesh.nodes name peer ≡ some mesh.nodes =
      sym (establish-push_peer name peer free.mesh) ∙ ap nodes_of (defined_ended _ _ em) in
    let once =
      push-AllDistinct free.mesh.nodes mesh.nodes name peer found.peers
        (ap (λ m. peers_of m.nodes name) found.same ∙ found.has)
        (ap (λ p. holds p found.peers) (sym peer_found) ∙ found.new) pushed
        (subst (λ m. AllDistinct m.nodes) (sym found.same) d) in
    links_AllDistinct rounds count gap total_nodes i name (l + 1) next (record free { mesh = mesh })
      later e4 once

star_AllDistinct :
    (rounds links gap total_nodes i : ℕ) (st later : StarState)
    → star_loop rounds links gap total_nodes i st ≡ ended later
    → AllDistinct st.mesh.nodes
    → AllDistinct later.mesh.nodes
unfolding star_loop
star_AllDistinct zero links gap total_nodes i st later e d = absurd (cc e)
star_AllDistinct (suc rounds) links gap total_nodes i st later e d =
    let (name, en, e1) = bind_ended _ _ _ e in
    let (peers, ep, e2) = bind_ended _ _ _ e1 in
    let (linked, el, e3) = bind_ended _ _ _ e2 in
    let ((loop, next), ex, e4) = bind_ended _ _ _ e3 in
    by_loop linked next
      (links_AllDistinct (suc rounds) links gap total_nodes i name 1 i st linked el d)
      (λ e. star_AllDistinct rounds links gap total_nodes next linked later e) loop e4
  where
    by_loop :
        (linked : StarState) (next : ℕ)
        → AllDistinct linked.mesh.nodes
        → (star_loop rounds links gap total_nodes next linked ≡ ended later
            → AllDistinct linked.mesh.nodes
            → AllDistinct later.mesh.nodes)
        → (loop : Bool)
        → elim loop as (λ l. Loop StarState) [
          | true ↦ ended linked
          | false ↦ star_loop rounds links gap total_nodes next linked
        ]
          ≡ ended later
        → AllDistinct later.mesh.nodes
    by_loop linked next d rec true e =
        let same : linked ≡ later = cc e in subst (λ s. AllDistinct s.mesh.nodes) same d
    by_loop linked next d rec false e = rec e d

-- Where `make_star` ends, after whatever number of rounds, no node has a peer twice, if none had before.
pub link_star-AllDistinct :
    (sqrt : ℕ → ℕ) (rounds total_nodes : ℕ) (aliases : List String)
    (nodes : List (String × TnNodeDef)) (later : StarState)
    → AllDistinct nodes
    → link_star sqrt rounds aliases total_nodes nodes ≡ ended later
    → AllDistinct later.mesh.nodes
unfolding link_star
link_star-AllDistinct sqrt rounds total_nodes aliases nodes later d e =
    let (gap, eg, e1) = bind_ended _ _ _ e in
    let (start, es, e2) = bind_ended _ _ _ e1 in
    star_AllDistinct rounds _ gap total_nodes start _ later e2 d

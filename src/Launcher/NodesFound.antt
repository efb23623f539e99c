-- ===== src/Launcher/NodesFound.antt =====
-- Which nodes `get_nodes` of eosio-launcher2/main.cpp finds, and what `bounce` does with them.
use Prim.Native.String.{◌++◌}
use mathlib.Core.List.{◌++◌ as append_list}
use eos_tools.Prelude.{
  ℕ, suc, ◌<◌, Bool, List, [], ◌∷◌, Option, none, some, ◌≡◌, refl, ap, sym, ◌∙◌, arith, map, ltb,
  if◌then◌else◌, Bool-cases, inl, inr, cons≢nil, head-eq_of_cons-eq,
}
use text.Mathlib.TextEquality.{eq_iff}
use eos_tools.Prelude.Text.{String, str_eq}
use eos_tools.Launcher.Host.{EosdDef, HostDef}
use eos_tools.Launcher.Run.{World, Run, RunState, done, exit, thrown, pure, fail, throw, ◌>>=◌}
use eos_tools.Launcher.Run.Keeps.{bind_eq_done, pure_done}
use eos_tools.Launcher.Ssh.{RemoteDeploy}
use eos_tools.Launcher.Nodes.{
  name_end, find_instance, find_node, with_host, all_nodes, get_node_num, node_number,
  numbered_nodes,
}
use eos_tools.Launcher.Command.{bounce_loop, specific_args}
use eos_tools.Launcher.Define.{Names, define_local}
use eos_tools.Launcher.DefineCorrect.{place, places, place-define_local}

-- The first node of the list with the name; without one the program ends.
unfoldable pub first_named : String → List (HostDef × EosdDef) → Run (HostDef × EosdDef)
first_named name [] = fail
first_named name ((host, node) ∷ nodes) =
    let rest = first_named name nodes in if str_eq name node.name then pure (host, node) else rest

first_named-append :
    (name : String) (host : HostDef) (instances : List EosdDef) (nodes : List (HostDef × EosdDef))
    → first_named name (append_list (with_host host instances) nodes)
      ≡ elim (find_instance name instances) [
        | none ↦ first_named name nodes
        | some node ↦ pure (host, node)
      ]
unfolding first_named with_host find_instance
first_named-append name host [] nodes = refl
first_named-append name host (node ∷ instances) nodes = elim (Bool-cases (str_eq name node.name)) [
  | inl t ↦ rw (t) refl
  | inr f ↦ rw (f) (first_named-append name host instances nodes)
]

-- `find_node`, which goes through the hosts and their instances, finds the first node of that name in
-- the list of all nodes.
pub find_node-first_named :
    (name : String) (bindings : List HostDef)
    → find_node name bindings ≡ first_named name (all_nodes bindings)
unfolding find_node all_nodes first_named
find_node-first_named name [] = refl
find_node-first_named name (host ∷ bindings) =
    ap (λ r. elim (find_instance name host.instances) [ none ↦ r | some node ↦ pure (host, node) ])
      (find_node-first_named name bindings)
    ∙ sym (first_named-append name host host.instances (all_nodes bindings))

first_named_done :
    (name : String) (nodes : List (HostDef × EosdDef)) (s s' : RunState) (found : HostDef × EosdDef)
    → first_named name nodes s ≡ (done found, s')
    → (found.1.name ≡ name)
unfolding first_named pure fail
first_named_done name [] s s' found e = absurd (cc e)
first_named_done name ((host, node) ∷ nodes) s s' found e =
    ground (arith, eq_iff name node.name, first_named_done name nodes s s' found)

module _ (to_lower : String → String) (split : String → List String) (to_text : ℕ → String)
    (to_number : String → Option ℕ) (network_name : String) (bindings : List HostDef) where
  -- Where the list of numbers is done, each node found has the name of its number.
  pub numbered_nodes-names :
      (texts : List String) (nodes : List (HostDef × EosdDef)) (s s' : RunState)
      → numbered_nodes to_lower split to_text to_number network_name bindings texts s
        ≡ (done nodes, s')
      → map (λ n. n.1.name) nodes
        ≡ map
            (λ t.
              network_name
              ++ get_node_num to_text
                  (node_number to_lower split to_text to_number network_name bindings t))
            texts
  unfolding numbered_nodes fail
  numbered_nodes-names [] nodes s s' e =
      ap (map (λ n. n.1.name)) (sym (pure_done [] nodes s s' e).0)
  numbered_nodes-names (text ∷ texts) nodes s s' e =
      let num = node_number to_lower split to_text to_number network_name bindings text in
      elim (Bool-cases (ltb 99 num)) [
        | inl t ↦
            let ended : numbered_nodes to_lower split to_text to_number network_name bindings
                  (text ∷ texts) s
                ≡ (exit, s) =
              rw (t, numbered_nodes) refl in
            absurd (cc (sym ended ∙ e))
        | inr f ↦
            let goes_on : numbered_nodes to_lower split to_text to_number network_name bindings
                  (text ∷ texts) s
                ≡ (find_node (network_name ++ get_node_num to_text num) bindings >>= λ node.
                      numbered_nodes to_lower split to_text to_number network_name bindings texts
                      >>= λ rest. pure (node ∷ rest))
                    s =
              rw (f, numbered_nodes) refl in
            let (node, s1, e1, d1) = bind_eq_done _ _ s s' nodes (sym goes_on ∙ e) in
            let (rest, s2, e2, d2) = bind_eq_done _ _ s1 s' nodes d1 in
            let found =
              first_named_done (network_name ++ get_node_num to_text num) (all_nodes bindings) s s1
                node (ap (λ m. m s) (sym (find_node-first_named _ bindings)) ∙ e1) in
            let others = numbered_nodes-names texts rest s1 s2 e2 in
            let listed = (pure_done (node ∷ rest) nodes s2 s' d2).0 in
            ap (map (λ n. n.1.name)) (sym listed) ∙ rw (found, others) refl
      ]

-- On a network that `define_network` made on one host, `bounce` with `all` and with arguments for some
-- node throws before it runs a command: it asks for the number of bios.
pub bounce_all-bios :
    (world : World) (helper : RemoteDeploy) (is_local : HostDef → Bool)
    (to_number : String → Option ℕ) (extra : String) (entry : ℕ × String)
    (entries : List (ℕ × String)) (lexical_cast : ℕ → String) (join : String → String → String)
    (names : Names) (count : ℕ) (s : RunState)
    → count < 55660
    → to_number "os" ≡ none
    → bounce_loop world helper is_local to_number extra
        (entry ∷ entries)
        (all_nodes ((define_local lexical_cast join names (suc count)).local_host ∷ []))
        s
      ≡ (thrown, s)
unfolding bounce_loop all_nodes with_host name_end specific_args place pure throw ◌>>=◌
bounce_all-bios world helper is_local to_number extra entry entries lexical_cast join names count s
      b p =
    by_instances _ (place-define_local lexical_cast join names count b).0
  where
    by_instances :
        (host : HostDef)
        → map place host.instances ≡ ("bios", 9776, 8788) ∷ places lexical_cast join names 0 count
        → bounce_loop world helper is_local to_number extra
            (entry ∷ entries)
            (all_nodes (host ∷ []))
            s
          ≡ (thrown, s)
    by_instances host e = by_first host.instances e
      where
        by_first :
            (instances : List EosdDef)
            → map place instances ≡ ("bios", 9776, 8788) ∷ places lexical_cast join names 0 count
            → bounce_loop world helper is_local to_number extra
                (entry ∷ entries)
                (append_list (with_host host instances) [])
                s
              ≡ (thrown, s)
        by_first [] e = absurd (cons≢nil (sym e))
        by_first (node ∷ instances) e =
            let named : node.name ≡ "bios" = ap (λ p. p.0) (head-eq_of_cons-eq e) in
            rw (named, p, bounce_loop, specific_args) refl

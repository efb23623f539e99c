-- ===== src/Launcher/CommandOrder.antt =====
-- The order of the commands of `down`, `bounce` and `roll` in eosio-launcher2/main.cpp.
use Prim.Native.String.{◌++◌, len, slice}
use eos_tools.Prelude.{
  ℕ, ◌-◌, Bool, List, [], ◌∷◌, Option, none, some, ◌≡◌, refl, ap, ◌∙◌, arith, map, if◌then◌else◌,
}
use eos_tools.Prelude.Text.{String, str_eq}
use eos_tools.Launcher.Host.{EosdDef, HostDef}
use eos_tools.Launcher.Run.{
  Action, system, child, World, RunState, done, pure, fail, throw, ask, ◌>>=◌,
}
use eos_tools.Launcher.Run.Keeps.{bind_done}
use eos_tools.Launcher.Ssh.{RemoteDeploy, format_ssh, do_ssh}
use eos_tools.Launcher.Nodes.{name_end}
use eos_tools.Launcher.Command.{exports, do_command, down_loop, bounce_loop, specific_args, args_of}

-- The actions behind those of `history`, in order.
unfoldable pub after : List Action → List Action → List Action
after [] history = history
after (a ∷ actions) history = after actions (a ∷ history)

name_end_done :
    (name num : String) (s mid : RunState)
    → name_end name s ≡ (done num, mid)
    → (num ≡ slice name (len name - 2) (len name)) × (mid ≡ s)
unfolding name_end pure throw
name_end_done name num s mid e = ground arith

module _ (world : World) (helper : RemoteDeploy) (is_local : HostDef → Bool) where
  -- The one action of a command on a host.
  unfoldable pub command : HostDef → List (String × String) → String → Action
  command host env_pairs cmd =
      if is_local host
      then child cmd env_pairs
      else system (
          format_ssh helper (("cd " ++ host.eosio_home ++ "; ") ++ exports env_pairs ++ cmd)
            host.host_name)

  do_command_done :
      (host : HostDef) (env_pairs : List (String × String)) (cmd : String) (s s' : RunState)
      (u : Unit {0})
      → do_command world helper is_local host env_pairs cmd s ≡ (done u, s')
      → s'.actions ≡ command host env_pairs cmd ∷ s.actions
  unfolding do_command do_ssh ask pure fail throw ◌>>=◌ command
  do_command_done host env_pairs cmd s s' u d = ground arith

  unfoldable pub down_command : HostDef × EosdDef → Action
  down_command (host, node) =
      command host
        (("EOSIO_HOME", host.eosio_home)
          ∷ ("EOSIO_NODE", slice node.name (len node.name - 2) (len node.name))
          ∷ ("EOSIO_TN_RESTART_CONFIG_DIR", node.config_dir_name)
          ∷ [])
        "./scripts/eosio-tn_down.sh "

  -- Where `down` is done, it ran its command on each node of the list, once and in order.
  down_loop_order :
      (node_list : List (HostDef × EosdDef)) (s : RunState)
      → (down_loop world helper is_local node_list s).0 ≡ done tt
      → (down_loop world helper is_local node_list s).1.actions
        ≡ after (map down_command node_list) s.actions
  unfolding down_loop after down_command pure
  down_loop_order [] s d = refl
  down_loop_order ((host, node) ∷ node_list) s d =
      let (num, s1, e1, q1, d1) = bind_done _ _ s tt d in
      let (named, same) = name_end_done node.name num s s1 e1 in
      let (u, s2, e2, q2, d2) = bind_done _ _ s1 tt d1 in
      let ran = do_command_done host _ _ s1 s2 u e2 in
      let env = λ (n : String).
        ("EOSIO_HOME", host.eosio_home)
        ∷ ("EOSIO_NODE", n)
        ∷ ("EOSIO_TN_RESTART_CONFIG_DIR", node.config_dir_name)
        ∷ [] in
      let first : s2.actions ≡ down_command (host, node) ∷ s.actions =
        ran
        ∙ ap (λ n. command host (env n) "./scripts/eosio-tn_down.sh " ∷ s1.actions) named
        ∙ ap (λ t. down_command (host, node) ∷ t.actions) same in
      ap (λ r. r.1.actions) (q1 ∙ q2)
      ∙ down_loop_order node_list s2 d2
      ∙ ap (after (map down_command node_list)) first

  module _ (to_number : String → Option ℕ) (eosd_extra_args : String)
      (specific_nodeos_args : List (ℕ × String)) where
    -- The arguments for a node whose name has the end `num`.
    unfoldable pub args_text : String → String
    args_text num = if str_eq num "bios" then "" else elim (to_number num) [
      | none ↦ ""
      | some n ↦ elim (args_of specific_nodeos_args n) [ none ↦ "" | some args ↦ " " ++ args ]
    ]

    specific_args_done :
        (num args : String) (s s' : RunState)
        → specific_args world helper is_local to_number eosd_extra_args specific_nodeos_args num s
          ≡ (done args, s')
        → (args ≡ args_text num) × (s' ≡ s)
    unfolding specific_args args_text args_of pure throw
    specific_args_done num args s s' e = by_args specific_nodeos_args e
      where
        by_args :
            (entries : List (ℕ × String))
            → specific_args world helper is_local to_number eosd_extra_args entries num s
              ≡ (done args, s')
            → (args ≡ (
                if str_eq num "bios" then "" else elim (to_number num) [
                  | none ↦ ""
                  | some n ↦ elim (args_of entries n) [ none ↦ "" | some args ↦ " " ++ args ]
                ]))
              × (s' ≡ s)
        by_args [] e = ground arith
        by_args (x ∷ xs) e = ground arith

    unfoldable pub bounce_command : HostDef × EosdDef → Action
    bounce_command (host, node) =
        let num = slice node.name (len node.name - 2) (len node.name) in
        command host (("EOSIO_HOME", host.eosio_home) ∷ ("EOSIO_NODE", num) ∷ [])
          ("./scripts/eosio-tn_bounce.sh " ++ eosd_extra_args ++ args_text num)

    -- Where `bounce` is done, it ran its command on each node of the list, once and in order, with the
    -- arguments for the number of the node.
    pub bounce_loop_order :
        (node_list : List (HostDef × EosdDef)) (s : RunState)
        → (bounce_loop world helper is_local to_number eosd_extra_args specific_nodeos_args
            node_list s).0
          ≡ done tt
        → (bounce_loop world helper is_local to_number eosd_extra_args specific_nodeos_args
            node_list s).1.actions
          ≡ after (map bounce_command node_list) s.actions
    unfolding bounce_loop after bounce_command pure
    bounce_loop_order [] s d = refl
    bounce_loop_order ((host, node) ∷ node_list) s d =
        let (num, s1, e1, q1, d1) = bind_done _ _ s tt d in
        let (named, same1) = name_end_done node.name num s s1 e1 in
        let (args, s2, e2, q2, d2) = bind_done _ _ s1 tt d1 in
        let (chosen, same2) = specific_args_done num args s1 s2 e2 in
        let (u, s3, e3, q3, d3) = bind_done _ _ s2 tt d2 in
        let ran = do_command_done host _ _ s2 s3 u e3 in
        let action = λ (n a : String).
          command host (("EOSIO_HOME", host.eosio_home) ∷ ("EOSIO_NODE", n) ∷ [])
            ("./scripts/eosio-tn_bounce.sh " ++ eosd_extra_args ++ a) in
        let first : s3.actions ≡ bounce_command (host, node) ∷ s.actions =
          ran
          ∙ ap (λ a. action num a ∷ s2.actions) chosen
          ∙ ap (λ n. action n (args_text n) ∷ s2.actions) named
          ∙ ap (λ t. bounce_command (host, node) ∷ t.actions) (same2 ∙ same1) in
        ap (λ r. r.1.actions) (q1 ∙ q2 ∙ q3)
        ∙ bounce_loop_order node_list s3 d3
        ∙ ap (after (map bounce_command node_list)) first

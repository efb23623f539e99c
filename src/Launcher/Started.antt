-- ===== src/Launcher/Started.antt =====
-- The nodes that `start_all` of eosio-launcher2/main.cpp launches, one after the other, and the entries
-- that it records of them.
use mathlib.Core.List.{◌++◌, append_assoc, append-nil}
use eos_tools.Prelude.{
  ℕ, Bool, true, false, List, [], ◌∷◌, Option, ◌≡◌, ◌⊎◌, inl, inr, refl, ap, sym, ◌∙◌,
  if◌then◌else◌,
}
use eos_tools.Prelude.Text.{String, str_eq}
use eos_tools.Launcher.Host.{EosdDef, HostDef}
use eos_tools.Launcher.Run.{sleep, NodeRtInfo, World, RunState, done, thrown, Run, pure, fail}
use eos_tools.Launcher.Run.Keeps.{bind_eq_done}
use eos_tools.Launcher.Ssh.{RemoteDeploy}
use eos_tools.Launcher.Files.{find_host, deploy_config_files}
use eos_tools.Launcher.Start.{LaunchOptions, runtime_info, launch}
use eos_tools.Launcher.StartRecords.{launch-running_nodes, launch-thrown}

find_host-cases :
    (bindings : List HostDef) (name : String)
    → (find_host bindings name ≡ fail) ⊎ ((host : HostDef) × (find_host bindings name ≡ pure host))
unfolding find_host
find_host-cases [] name = inl refl
find_host-cases (h ∷ bindings) name =
    by_name (str_eq h.host_name name) (find_host-cases bindings name)
  where
    by_name :
        (b : Bool)
        → (find_host bindings name ≡ fail)
          ⊎ ((host : HostDef) × (find_host bindings name ≡ pure host))
        → ((if b then pure h else find_host bindings name) ≡ fail)
          ⊎ ((host : HostDef) × ((if b then pure h else find_host bindings name) ≡ pure host))
    by_name true later = inr (h, refl)
    by_name false later = later

module _ (world : World) (join : String → String → String) (helper : RemoteDeploy)
    (is_local : HostDef → Bool) (stage : String) (bindings : List HostDef)
    (regex_replace : String → String → String → String) (to_number : String → Option ℕ)
    (options : LaunchOptions) (gts : String) where
  abbrev pub run_launch : EosdDef → Run (Unit {0})
  run_launch inst =
      launch world join helper is_local stage bindings regex_replace to_number options inst gts

  -- The wait behind a launch.
  abbrev pub slept : RunState → RunState
  slept s = record s { actions = sleep options.start_delay ∷ s.actions }

  -- The instances are launched in order, each from the state that the one before leaves, with a wait
  -- behind it; the list is of the entries of those whose launch is done, and a launch that is not
  -- throws.
  pub data Started : List EosdDef → RunState → List NodeRtInfo → RunState → Type 0 where
    none_left : {s : RunState} → Started [] s [] s
    launched :
        {inst : EosdDef} {instances : List EosdDef} {s mid end : RunState} {infos : List NodeRtInfo}
        (host : HostDef)
        → find_host bindings inst.host ≡ pure host
        → launch world join helper is_local stage bindings regex_replace to_number options inst gts
            s
          ≡ (done tt, mid)
        → Started instances (slept mid) infos end
        → Started (inst ∷ instances) s (runtime_info join helper is_local host inst ∷ infos) end
    caught :
        {inst : EosdDef} {instances : List EosdDef} {s mid end : RunState} {infos : List NodeRtInfo}
        → launch world join helper is_local stage bindings regex_replace to_number options inst gts
            s
          ≡ (thrown, mid)
        → Started instances (slept mid) infos end
        → Started (inst ∷ instances) s infos end

  pub Started-append :
      {xs ys : List EosdDef} {s mid end : RunState} {infos more : List NodeRtInfo}
      → Started xs s infos mid
      → Started ys mid more end
      → Started (xs ++ ys) s (infos ++ more) end
  Started-append Started.none_left q = q
  Started-append (Started.launched host f e p) q = Started.launched host f e (Started-append p q)
  Started-append (Started.caught e p) q = Started.caught e (Started-append p q)

  pub launch_host :
      (inst : EosdDef) (s s' : RunState)
      → run_launch inst s ≡ (done tt, s')
      → (host : HostDef) × (find_host bindings inst.host ≡ pure host)
  unfolding launch deploy_config_files fail
  launch_host inst s s' e =
      let (h, s1, e1, d1) = bind_eq_done _ _ s s' tt e in
      let (host, s2, e2, d2) = bind_eq_done _ _ s s1 h e1 in
      elim (find_host-cases bindings inst.host) [
        | inl missing ↦ absurd (cc (ap (λ m. (m s).0) missing, ap (λ r. r.0) e2))
        | inr found ↦ found
      ]

  -- The entries are added in order, behind the ones that were there.
  pub Started-running_nodes :
      {instances : List EosdDef} {s end : RunState} {infos : List NodeRtInfo}
      → Started instances s infos end
      → end.running_nodes ≡ s.running_nodes ++ infos
  Started-running_nodes {s = s} Started.none_left = sym (append-nil s.running_nodes)
  Started-running_nodes {s = s}
        (Started.launched {inst = inst} {mid = mid} {infos = infos} host f e p) =
      Started-running_nodes p
      ∙ ap (λ nodes. nodes ++ infos)
          (launch-running_nodes world join helper is_local stage bindings regex_replace to_number
            options inst gts host s mid f e)
      ∙ append_assoc s.running_nodes (runtime_info join helper is_local host inst ∷ []) infos
  Started-running_nodes {s = s} (Started.caught {inst = inst} {mid = mid} {infos = infos} e p) =
      Started-running_nodes p
      ∙ ap (λ nodes. nodes ++ infos)
          (ap (λ r. r.1.running_nodes) (sym e)
            ∙ (launch-thrown world join helper is_local stage bindings regex_replace to_number
                  options inst gts).at
                s (ap (λ r. r.0) e))

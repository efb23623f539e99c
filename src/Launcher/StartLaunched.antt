-- ===== src/Launcher/StartLaunched.antt =====
-- What `start_all` of eosio-launcher2/main.cpp saves of the nodes that it launches.
use mathlib.Core.List.{◌++◌}
use eos_tools.Prelude.{
  ℕ, Bool, true, false, List, [], ◌∷◌, Option, ◌≡◌, ◌⊎◌, inl, inr, refl, ap, sym, ◌∙◌, subst,
  if◌then◌else◌,
}
use eos_tools.Prelude.Text.{String}
use eos_tools.Launcher.Host.{EosdDef, HostDef}
use eos_tools.Launcher.Run.{
  save_last_run, NodeRtInfo, World, RunState, Outcome, done, exit, thrown, undefined, Run, pure,
  fail, gets, act, ◌>>=◌, ◌>>◌,
}
use eos_tools.Launcher.Run.Keeps.{bind_eq_done, pure_done}
use eos_tools.Launcher.Ssh.{RemoteDeploy}
use eos_tools.Launcher.Modes.{LaunchMode, lm_none, lm_local, lm_remote, lm_named, lm_all, lm_verify}
use eos_tools.Launcher.Start.{
  LaunchOptions, after_outcome, catching, launch_instances, starts, launch_hosts, save, start_all,
}
use eos_tools.Launcher.Started.{
  run_launch, slept, Started, launch_host, Started-append, Started-running_nodes,
}

module _ (world : World) (join : String → String → String) (helper : RemoteDeploy)
    (is_local : HostDef → Bool) (stage : String) (bindings : List HostDef)
    (regex_replace : String → String → String → String) (to_number : String → Option ℕ)
    (options : LaunchOptions) (gts : String) where
  -- A launch that is done or throws.
  catching_parts :
      (m : Run (Unit {0})) (s s' : RunState)
      → catching world join helper is_local stage bindings regex_replace to_number options m s
        ≡ (done tt, s')
      → (m s ≡ (done tt, s')) ⊎ (m s ≡ (thrown, s'))
  unfolding catching after_outcome pure fail
  catching_parts m s s' e = by_outcome (m s).0 refl e
    where
      by_outcome :
          (o : Outcome (Unit {0}))
          → (m s).0 ≡ o
          → after_outcome world join helper is_local stage bindings regex_replace to_number options
              o
              (m s).1
            ≡ (done tt, s')
          → (m s ≡ (done tt, s')) ⊎ (m s ≡ (thrown, s'))
      by_outcome (done u) h e = inl (ap (λ o. (o, (m s).1)) h ∙ ap (λ r. (done tt, r.1)) e)
      by_outcome thrown h e = inr (ap (λ o. (o, (m s).1)) h ∙ ap (λ r. (thrown, r.1)) e)
      by_outcome exit h e = absurd (cc e)
      by_outcome undefined h e = absurd (cc e)

  launch_instances-Started :
      (instances : List EosdDef) (s end : RunState)
      → launch_instances world join helper is_local stage bindings regex_replace to_number options
          instances gts s
        ≡ (done tt, end)
      → (infos : List NodeRtInfo) × Started world join helper is_local stage bindings regex_replace
          to_number options gts instances s infos end
  unfolding launch_instances act
  launch_instances-Started [] s end e =
      let (_, same) = pure_done tt tt s end e in
      (
        [],
        subst
            (λ x.
              Started world join helper is_local stage bindings regex_replace to_number options gts
                [] s [] x)
            same Started.none_left,
      )
  launch_instances-Started (inst ∷ instances) s end e =
      let (_, mid, c, d) = bind_eq_done _ _ s end tt e in
      let (_, waited, w, rest) = bind_eq_done _ _ mid end tt d in
      let same : slept world join helper is_local stage bindings regex_replace to_number options gts
            mid
          ≡ waited =
        ap (λ r. r.1) w in
      let (infos, later) = launch_instances-Started instances waited end rest in
      let from_mid =
        subst
          (λ x.
            Started world join helper is_local stage bindings regex_replace to_number options gts
              instances x infos end)
          (sym same) later in
      elim (catching_parts
        (run_launch world join helper is_local stage bindings regex_replace to_number options gts
          inst)
        s mid c) [
          | inl ok ↦
              let (host, found) =
                launch_host world join helper is_local stage bindings regex_replace to_number
                  options gts inst s mid ok in
              (_, Started.launched host found ok from_mid)
          | inr failed ↦ (infos, Started.caught failed from_mid)
        ]

  -- The instances of the hosts that the mode starts, in order.
  abbrev pub started_instances : LaunchMode → List HostDef → List EosdDef
  started_instances mode [] = []
  started_instances mode (h ∷ hosts) =
      (if starts world join helper is_local stage bindings regex_replace to_number options mode h
        then h.instances
        else [])
      ++ started_instances mode hosts

  launch_hosts-Started :
      (mode : LaunchMode) (hosts : List HostDef) (s end : RunState)
      → launch_hosts world join helper is_local stage bindings regex_replace to_number options mode
          hosts gts s
        ≡ (done tt, end)
      → (infos : List NodeRtInfo) × Started world join helper is_local stage bindings regex_replace
          to_number options gts
          (started_instances mode hosts)
          s
          infos
          end
  unfolding launch_hosts
  launch_hosts-Started mode [] s end e =
      let (_, same) = pure_done tt tt s end e in
      (
        [],
        subst
            (λ x.
              Started world join helper is_local stage bindings regex_replace to_number options gts
                [] s [] x)
            same Started.none_left,
      )
  launch_hosts-Started mode (h ∷ hosts) s end e =
      let (_, mid, c, d) = bind_eq_done _ _ s end tt e in
      let (infos, first) =
        by_host
          (starts world join helper is_local stage bindings regex_replace to_number options mode h)
          mid c in
      let (more, later) = launch_hosts-Started mode hosts mid end d in
      (
        infos ++ more,
        Started-append world join helper is_local stage bindings regex_replace to_number options gts
            first later,
      )
    where
      by_host :
          (b : Bool) (mid : RunState)
          → (if b
                then launch_instances world join helper is_local stage bindings regex_replace
                    to_number options h.instances gts
                else pure tt)
              s
            ≡ (done tt, mid)
          → (infos : List NodeRtInfo) × Started world join helper is_local stage bindings
              regex_replace to_number options gts
              (if b then h.instances else [])
              s
              infos
              mid
      by_host true mid c = launch_instances-Started h.instances s mid c
      by_host false mid c =
          let (_, same) = pure_done tt tt s mid c in
          (
            [],
            subst
                (λ x.
                  Started world join helper is_local stage bindings regex_replace to_number options
                    gts [] s [] x)
                same Started.none_left,
          )

  save_parts :
      (mid s' : RunState)
      → save world join helper is_local stage bindings regex_replace to_number options mid
        ≡ (done tt, s')
      → s'.actions ≡ save_last_run mid.running_nodes ∷ mid.actions
  unfolding save gets act ◌>>=◌
  save_parts mid s' e = sym (ap (λ r. r.1.actions) e)

  -- The modes that go through the hosts.
  abbrev pub starts_hosts : LaunchMode → Bool
  starts_hosts lm_all = true
  starts_hosts lm_local = true
  starts_hosts lm_remote = true
  starts_hosts _ = false

  -- Where `start_all` is done in the mode for all hosts, for local or for remote ones, it launched
  -- each instance of these hosts, in order, and its last action writes the list of running nodes:
  -- those that were there, and behind them an entry for each instance whose launch was done, in
  -- order; each other launch threw.
  pub start_all_saves :
      (mode : LaunchMode) (named : Option EosdDef) (s s' : RunState)
      → starts_hosts mode ≡ true
      → start_all world join helper is_local stage bindings regex_replace to_number options mode
          named gts s
        ≡ (done tt, s')
      → (infos : List NodeRtInfo) × (end : RunState) × Started world join helper is_local stage
          bindings regex_replace to_number options gts
          (started_instances mode bindings)
          s
          infos
          end
        × (s'.actions ≡ save_last_run (s.running_nodes ++ infos) ∷ end.actions)
  unfolding start_all
  start_all_saves mode named s s' l e = by_mode mode l e
    where
      saved :
          (mode : LaunchMode)
          → (launch_hosts world join helper is_local stage bindings regex_replace to_number options
                  mode bindings gts
                >> save world join helper is_local stage bindings regex_replace to_number options)
              s
            ≡ (done tt, s')
          → (infos : List NodeRtInfo) × (end : RunState) × Started world join helper is_local stage
              bindings regex_replace to_number options gts
              (started_instances mode bindings)
              s
              infos
              end
            × (s'.actions ≡ save_last_run (s.running_nodes ++ infos) ∷ end.actions)
      saved mode e =
          let (_, end, hosts, w) = bind_eq_done _ _ s s' tt e in
          let (infos, started) = launch_hosts-Started mode bindings s end hosts in
          (
            infos,
            end,
            started,
            save_parts end s' w
                ∙ ap (λ nodes. save_last_run nodes ∷ end.actions)
                    (Started-running_nodes world join helper is_local stage bindings regex_replace
                      to_number options gts started),
          )

      by_mode :
          (mode : LaunchMode)
          → starts_hosts mode ≡ true
          → start_all world join helper is_local stage bindings regex_replace to_number options mode
              named gts s
            ≡ (done tt, s')
          → (infos : List NodeRtInfo) × (end : RunState) × Started world join helper is_local stage
              bindings regex_replace to_number options gts
              (started_instances mode bindings)
              s
              infos
              end
            × (s'.actions ≡ save_last_run (s.running_nodes ++ infos) ∷ end.actions)
      by_mode lm_none l e = absurd (cc l)
      by_mode lm_verify l e = absurd (cc l)
      by_mode lm_named l e = absurd (cc l)
      by_mode lm_all l e = saved lm_all e
      by_mode lm_local l e = saved lm_local e
      by_mode lm_remote l e = saved lm_remote e

-- ===== src/Launcher/StartSaves.antt =====
-- `start_all` of eosio-launcher2/main.cpp catches the exceptions of `launch`.
use eos_tools.Prelude.{
  ℕ, Bool, true, false, List, [], ◌∷◌, Option, none, some, ◌≡◌, ◌≢◌, refl, ap, if◌then◌else◌,
}
use eos_tools.Prelude.Text.{String}
use eos_tools.Launcher.Host.{EosdDef, HostDef}
use eos_tools.Launcher.Run.{
  Action, World, RunState, Outcome, done, exit, thrown, undefined, Run, pure, fail, gets, change,
  act, continue, ◌>>=◌,
}
use eos_tools.Launcher.Ssh.{RemoteDeploy}
use eos_tools.Launcher.Modes.{LaunchMode, lm_none, lm_local, lm_remote, lm_named, lm_all, lm_verify}
use eos_tools.Launcher.Start.{
  LaunchOptions, after_outcome, catching, launch_instances, launch_hosts, save, launch_named,
  start_all,
}

abbrev pub is_thrown : {A : Type 0} → Outcome A → Bool
is_thrown thrown = true
is_thrown _ = false

-- No exception comes out of `m`.
record Catches {A : Type 0} (m : Run A) : Type 0 where
  at : (s : RunState) → is_thrown (m s).0 ≡ false

module _ {A : Type 0} where
  Catches-pure : (a : A) → Catches (pure a)
  unfolding pure
  Catches-pure a = record { at = λ s. refl }

  Catches-gets : (f : RunState → A) → Catches (gets f)
  unfolding gets
  Catches-gets f = record { at = λ s. refl }

  Catches-if : (b : Bool) (m n : Run A) → Catches m → Catches n → Catches (if b then m else n)
  Catches-if true m n cm cn = cm
  Catches-if false m n cm cn = cn

  Catches-bind :
      {B : Type 0} (m : Run A) (f : A → Run B)
      → Catches m
      → ((a : A) → Catches (f a))
      → Catches (m >>= f)
  unfolding ◌>>=◌
  Catches-bind {B} m f cm cf = record { at = λ s. by_outcome (m s).0 (m s).1 (cm.at s) }
    where
      by_outcome :
          (o : Outcome A) (s : RunState)
          → is_thrown o ≡ false
          → is_thrown (continue o f s).0 ≡ false
      by_outcome (done a) s e = (cf a).at s
      by_outcome exit s e = refl
      by_outcome thrown s e = e
      by_outcome undefined s e = refl

Catches-act : (a : Action) → Catches (act a)
unfolding act
Catches-act a = record { at = λ s. refl }

Catches-change : (f : RunState → RunState) → Catches (change f)
unfolding change
Catches-change f = record { at = λ s. refl }

ruleset catches_rules =
    (Catches-pure, Catches-gets, Catches-if, Catches-bind, Catches-act, Catches-change)

module _ (world : World) (join : String → String → String) (helper : RemoteDeploy)
    (is_local : HostDef → Bool) (stage : String) (bindings : List HostDef)
    (regex_replace : String → String → String → String) (to_number : String → Option ℕ)
    (options : LaunchOptions) where
  Catches-catching :
      (m : Run (Unit {0}))
      → Catches
          (catching world join helper is_local stage bindings regex_replace to_number options m)
  unfolding catching after_outcome pure fail
  Catches-catching m = record { at = λ s. by_outcome (m s).0 (m s).1 }
    where
      by_outcome :
          (o : Outcome (Unit {0})) (s : RunState)
          → is_thrown
              (after_outcome world join helper is_local stage bindings regex_replace to_number
                options o s).0
            ≡ false
      by_outcome (done u) s = refl
      by_outcome exit s = refl
      by_outcome thrown s = refl
      by_outcome undefined s = refl

  instances-Catches :
      (instances : List EosdDef) (gts : String)
      → Catches (
          launch_instances world join helper is_local stage bindings regex_replace to_number options
            instances gts)
  unfolding launch_instances
  instances-Catches [] gts = Catches-pure tt
  instances-Catches (inst ∷ instances) gts =
      Catches-bind _ _ (Catches-catching _)
        (λ _. Catches-bind _ _ (Catches-act _) (λ _. instances-Catches instances gts))

  hosts-Catches :
      (mode : LaunchMode) (hosts : List HostDef) (gts : String)
      → Catches (
          launch_hosts world join helper is_local stage bindings regex_replace to_number options
            mode hosts gts)
  unfolding launch_hosts
  hosts-Catches mode [] gts = Catches-pure tt
  hosts-Catches mode (h ∷ hosts) gts =
      Catches-bind _ _ (Catches-if _ _ _ (instances-Catches _ gts) (Catches-pure tt))
        (λ _. hosts-Catches mode hosts gts)

  save-Catches :
      Catches (save world join helper is_local stage bindings regex_replace to_number options)
  unfolding save
  save-Catches = search catches_rules

  named-Catches :
      (named : Option EosdDef) (gts : String)
      → Catches (
          launch_named world join helper is_local stage bindings regex_replace to_number options
            named gts)
  unfolding launch_named
  named-Catches none gts = record { at = λ s. refl }
  named-Catches (some instance_def) gts = search (catches_rules, Catches-catching)

  all-Catches :
      (mode : LaunchMode) (named : Option EosdDef) (gts : String)
      → Catches (
          start_all world join helper is_local stage bindings regex_replace to_number options mode
            named gts)
  unfolding start_all
  all-Catches lm_none named gts = Catches-pure tt
  all-Catches lm_verify named gts = Catches-pure tt
  all-Catches lm_named named gts = search (catches_rules, named-Catches, save-Catches)
  all-Catches lm_all named gts = search (catches_rules, hosts-Catches, save-Catches)
  all-Catches lm_local named gts = search (catches_rules, hosts-Catches, save-Catches)
  all-Catches lm_remote named gts = search (catches_rules, hosts-Catches, save-Catches)

-- No exception comes out of `start_all`.
pub start_all_caught :
    (world : World) (join : String → String → String) (helper : RemoteDeploy)
    (is_local : HostDef → Bool) (stage : String) (bindings : List HostDef)
    (regex_replace : String → String → String → String) (to_number : String → Option ℕ)
    (options : LaunchOptions) (mode : LaunchMode) (named : Option EosdDef) (gts : String)
    (s : RunState)
    → (start_all world join helper is_local stage bindings regex_replace to_number options mode
        named gts s).0
      ≢ thrown
start_all_caught world join helper is_local stage bindings regex_replace to_number options mode
      named gts s e =
    let caught =
      (all-Catches world join helper is_local stage bindings regex_replace to_number options mode
          named gts).at
        s in
    absurd (cc (caught, ap is_thrown e))

-- ===== src/Launcher/SshSafety.antt =====
-- What `prep_remote_config_dir` of eosio-launcher2/main.cpp runs on the other host.
use Prim.Native.String.{◌++◌}
use eos_tools.Prelude.{
  true, false, List, [], ◌∷◌, All, ◌≡◌, ◌⊎◌, inl, inr, refl, ap, ◌∙◌, arith, if◌then◌else◌,
}
use eos_tools.Prelude.Text.{String}
use eos_tools.Launcher.Host.{EosdDef, HostDef}
use eos_tools.Launcher.Run.{Action, system, World, RunState, done, pure, fail, ask, ◌>>=◌}
use eos_tools.Launcher.Run.Keeps.{Keeps, bind_done, keeps_rules}
use eos_tools.Launcher.Ssh.{
  RemoteDeploy, format_ssh, do_ssh, must_ssh, ssh_or, prep_remote_config_dir,
}

abbrev pub IsOneOf : List Action → Action → Type 0
IsOneOf [] a = ⊥
IsOneOf (x ∷ xs) a = (a ≡ x) ⊎ IsOneOf xs a

module _ {P : Action → Type 0} (world : World) (join : String → String → String)
    (helper : RemoteDeploy) (host_name : String) where
  must_ssh-Keeps :
      (cmd : String)
      → P (system (format_ssh helper cmd host_name))
      → Keeps P (must_ssh world join helper cmd host_name)
  unfolding must_ssh do_ssh
  must_ssh-Keeps cmd p = search keeps_rules

  ssh_or-Keeps :
      (first second : String)
      → P (system (format_ssh helper first host_name))
      → P (system (format_ssh helper second host_name))
      → Keeps P (ssh_or world join helper first second host_name)
  unfolding ssh_or do_ssh
  ssh_or-Keeps first second p q = search (keeps_rules, must_ssh-Keeps)

module _ (world : World) (join : String → String → String) (helper : RemoteDeploy) (node : EosdDef)
    (host : HostDef) where
  abbrev ssh : String → Action
  ssh cmd = system (format_ssh helper cmd host.host_name)

  abbrev acd : String
  acd = join host.eosio_home node.config_dir_name

  abbrev add : String
  add = join host.eosio_home node.data_dir_name

  -- The commands that remove nothing.
  abbrev pub harmless : List Action
  harmless =
      ssh ("cd " ++ host.eosio_home)
      ∷ ssh ("cd " ++ acd)
      ∷ ssh ("mkdir -p " ++ acd)
      ∷ ssh ("cd " ++ add)
      ∷ ssh ("mkdir -p " ++ add)
      ∷ []

  pub prep-Keeps :
      {P : Action → Type 0}
      → P (ssh ("cd " ++ host.eosio_home))
      → P (ssh ("cd " ++ acd))
      → P (ssh ("mkdir -p " ++ acd))
      → P (ssh ("cd " ++ add))
      → P (ssh ("mkdir -p " ++ add))
      → Keeps P (prep_remote_config_dir world join helper false node host)
  unfolding prep_remote_config_dir do_ssh
  prep-Keeps p q r t u = search (keeps_rules, must_ssh-Keeps, ssh_or-Keeps) depth 12

  -- The data directory is made only where it is not there.
  tail_done :
      (s : RunState)
      → ((do_ssh world helper ("cd " ++ add) host.host_name >>= λ there.
            if there then fail else must_ssh world join helper ("mkdir -p " ++ add) host.host_name)
          s).0
        ≡ done tt
      → (((do_ssh world helper ("cd " ++ add) host.host_name >>= λ there.
              if there
              then fail
              else must_ssh world join helper ("mkdir -p " ++ add) host.host_name)
            s).1.actions
          ≡ ssh ("mkdir -p " ++ add) ∷ ssh ("cd " ++ add) ∷ s.actions)
        × (world (ssh ("cd " ++ add) ∷ s.actions) ≡ false)
        × (world (ssh ("mkdir -p " ++ add) ∷ ssh ("cd " ++ add) ∷ s.actions) ≡ true)
  unfolding do_ssh must_ssh ask pure fail ◌>>=◌
  tail_done s d = ground arith

  prep_done :
      (s : RunState)
      → (prep_remote_config_dir world join helper false node host s).0 ≡ done tt
      → (rest : List Action) × ((prep_remote_config_dir world join helper false node host
            s).1.actions
          ≡ ssh ("mkdir -p " ++ add) ∷ ssh ("cd " ++ add) ∷ rest)
        × (world (ssh ("cd " ++ add) ∷ rest) ≡ false)
        × (world (ssh ("mkdir -p " ++ add) ∷ ssh ("cd " ++ add) ∷ rest) ≡ true)
  unfolding prep_remote_config_dir
  prep_done s d =
      let (first, s1, e1, q1, d1) = bind_done _ _ s tt d in
      let (second, s2, e2, q2, d2) = bind_done _ _ s1 tt d1 in
      let (actions, absent, made) = tail_done s2 d2 in
      (s2.actions, ap (λ r. r.1.actions) (q1 ∙ q2) ∙ actions, absent, made)

-- Without `force_overwrite`, `prep_remote_config_dir` runs no command but changes of directory and
-- mkdir.
prep_remote_config_dir-harmless :
    (world : World) (join : String → String → String) (helper : RemoteDeploy) (node : EosdDef)
    (host : HostDef) (s : RunState)
    → All (IsOneOf (harmless world join helper node host)) s.actions
    → All
        (IsOneOf (harmless world join helper node host))
        (prep_remote_config_dir world join helper false node host s).1.actions
prep_remote_config_dir-harmless world join helper node host s h =
    (prep-Keeps world join helper node host (inl refl) (inr (inl refl)) (inr (inr (inl refl)))
        (inr (inr (inr (inl refl)))) (inr (inr (inr (inr (inl refl)))))).at
      s h

-- Where `prep_remote_config_dir` without `force_overwrite` is done, its last two commands over ssh were
-- the change into the data directory, which failed, and `mkdir -p` on it, which succeeded.
pub prep_remote_config_dir_done :
    (world : World) (join : String → String → String) (helper : RemoteDeploy) (node : EosdDef)
    (host : HostDef) (s : RunState)
    → (prep_remote_config_dir world join helper false node host s).0 ≡ done tt
    → (let add = join host.eosio_home node.data_dir_name in
        let cd_add = system (format_ssh helper ("cd " ++ add) host.host_name) in
        let mkdir_add = system (format_ssh helper ("mkdir -p " ++ add) host.host_name) in
        (rest : List Action) × ((prep_remote_config_dir world join helper false node host
            s).1.actions
          ≡ mkdir_add ∷ cd_add ∷ rest)
        × (world (cd_add ∷ rest) ≡ false)
        × (world (mkdir_add ∷ cd_add ∷ rest) ≡ true))
prep_remote_config_dir_done world join helper node host s d =
    prep_done world join helper node host s d

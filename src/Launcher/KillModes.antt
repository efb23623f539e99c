-- ===== src/Launcher/KillModes.antt =====
-- Which commands the modes of `kill` in eosio-launcher2/main.cpp run.
use mathlib.Core.List.{Perm, perm_middle}
use mathlib.Core.List.Perm
use eos_tools.Prelude.{
  Bool, true, false, not, List, [], ◌∷◌, ◌++◌, ◌≡◌, refl, sym, subst, ◌∙◌, All, Option, none, some,
  Bool-cases, inl, inr, if◌then◌else◌,
}
use eos_tools.Prelude.Text.{String}
use eos_tools.Launcher.Run.{
  Action, system, NodeRtInfo, RunState, done, pure, throw, act, ◌>>=◌, ◌>>◌,
}
use eos_tools.Launcher.Run.Keeps.{bind_eq_done}
use eos_tools.Launcher.Modes.{LaunchMode, lm_local, lm_remote, lm_all}
use eos_tools.Launcher.Kill.{kills, kill_command, run_command, kill_loop, kill_read, kill}

-- A state with no actions so far.
abbrev pub at_start : List NodeRtInfo → RunState
at_start nodes = record { actions = []; running_nodes = nodes; add_enable_stale_production = false }

module _ (read_pid : String → Option String) (can_start : String → Bool) (sig_opt : String) where
  -- The command of a node is found and starts.
  pub record Runs (info : NodeRtInfo) : Type 0 where
    pub command : String
    pub found : kill_command read_pid can_start sig_opt info ≡ some command
    pub started : can_start command ≡ true

  run_command-Runs :
      (info : NodeRtInfo) (s s' : RunState) (u : Unit {0})
      → run_command read_pid can_start sig_opt (kill_command read_pid can_start sig_opt info) s
        ≡ (done u, s')
      → Runs info
  unfolding run_command throw
  run_command-Runs info s s' u e = by_command (kill_command read_pid can_start sig_opt info) refl e
    where
      by_start :
          (command : String)
          → kill_command read_pid can_start sig_opt info ≡ some command
          → (b : Bool) → can_start command ≡ b
          → (act (system command) >> (if b then pure tt else throw)) s ≡ (done u, s')
          → Runs info
      by_start command k true c e = record { command = command; found = k; started = c }
      by_start command k false c e = let (v, mid, _, t) = bind_eq_done _ _ s s' u e in absurd (cc t)

      by_command :
          (o : Option String)
          → kill_command read_pid can_start sig_opt info ≡ o
          → run_command read_pid can_start sig_opt o s ≡ (done u, s')
          → Runs info
      by_command none k e = absurd (cc e)
      by_command (some command) k e = by_start command k (can_start command) refl e

  -- Where the loop over all nodes is done, each command was found and started.
  kill_loop-Runs :
      (nodes : List NodeRtInfo) (s s' : RunState) (u : Unit {0})
      → kill_loop read_pid can_start sig_opt lm_all nodes s ≡ (done u, s')
      → All Runs nodes
  unfolding kill_loop kills
  kill_loop-Runs [] s s' u e = tt
  kill_loop-Runs (info ∷ nodes) s s' u e =
      let (v, mid, first, rest) = bind_eq_done _ _ s s' u e in
      (run_command-Runs info s mid v first, kill_loop-Runs nodes mid s' u rest)

  command_or_empty : Option String → String
  command_or_empty none = ""
  command_or_empty (some command) = command

  -- The actions of the loop, the last one first, behind `history`.
  killed : LaunchMode → List NodeRtInfo → List Action → List Action
  unfolding command_or_empty
  killed mode [] history = history
  killed mode (info ∷ nodes) history = killed mode nodes (
      if kills mode info.remote
      then system (command_or_empty (kill_command read_pid can_start sig_opt info)) ∷ history
      else history)

  run_command_done :
      (info : NodeRtInfo) (s : RunState)
      → Runs info
      → run_command read_pid can_start sig_opt (kill_command read_pid can_start sig_opt info) s ≡ (
        done tt,
        record s {
          actions =
              system (command_or_empty (kill_command read_pid can_start sig_opt info)) ∷ s.actions;
        },
      )
  unfolding run_command command_or_empty act pure ◌>>=◌
  run_command_done info s r = rw (r.found, run_command, r.started) refl

  kill_loop-killed :
      (mode : LaunchMode) (nodes : List NodeRtInfo) (s : RunState)
      → All Runs nodes
      → kill_loop read_pid can_start sig_opt mode nodes s
        ≡ (done tt, record s { actions = killed mode nodes s.actions })
  unfolding kill_loop killed pure ◌>>=◌
  kill_loop-killed mode [] s r = refl
  kill_loop-killed mode (info ∷ nodes) s (r, later) = elim (Bool-cases (kills mode info.remote)) [
    | inl t ↦ rw (t, kill_loop, run_command_done info s r) (kill_loop-killed mode nodes _ later)
    | inr f ↦ rw (f, kill_loop) (kill_loop-killed mode nodes s later)
  ]

  killed-perm :
      (nodes : List NodeRtInfo) (h1 h2 h : List Action)
      → Perm (h1 ++ h2) h
      → Perm (killed lm_local nodes h1 ++ killed lm_remote nodes h2) (killed lm_all nodes h)
  unfolding killed kills
  killed-perm [] h1 h2 h p = p
  killed-perm (info ∷ nodes) h1 h2 h p =
      by_remote info.remote
        (system (command_or_empty (kill_command read_pid can_start sig_opt info)))
        (killed-perm nodes)
    where
      by_remote :
          (remote : Bool) (command : Action)
          → ((g1 g2 g : List Action)
              → Perm (g1 ++ g2) g
              → Perm
                  (killed lm_local nodes g1 ++ killed lm_remote nodes g2)
                  (killed lm_all nodes g))
          → Perm
              (killed lm_local nodes (if not remote then command ∷ h1 else h1)
                ++ killed lm_remote nodes (if remote then command ∷ h2 else h2))
              (killed lm_all nodes (command ∷ h))
      by_remote true command rest =
          rest h1 (command ∷ h2) (command ∷ h)
            (Perm.trans (perm_middle h1 h2) (Perm.cons command p))
      by_remote false command rest = rest (command ∷ h1) h2 (command ∷ h) (Perm.cons command p)

-- Where `kill` with the mode for all nodes is done, with no exception, it is done with the mode for
-- local nodes and with that for remote nodes too, and their commands are together those of the first.
pub kill_modes-perm :
    (read_pid : String → Option String) (can_start : String → Bool) (sig_opt : String)
    (last_run : Option (List NodeRtInfo)) (s' : RunState)
    → kill read_pid can_start sig_opt lm_all last_run (at_start []) ≡ (done tt, s')
    → (local remote : RunState) × (kill read_pid can_start sig_opt lm_local last_run (at_start [])
        ≡ (done tt, local))
      × (kill read_pid can_start sig_opt lm_remote last_run (at_start []) ≡ (done tt, remote))
      × Perm (local.actions ++ remote.actions) s'.actions
unfolding kill kill_read throw
kill_modes-perm read_pid can_start sig_opt none s' e = absurd (cc e)
kill_modes-perm read_pid can_start sig_opt (some nodes) s' e =
    let runs = kill_loop-Runs read_pid can_start sig_opt nodes (at_start []) s' tt e in
    let all = kill_loop-killed read_pid can_start sig_opt lm_all nodes (at_start []) runs in
    (
      _,
      _,
      kill_loop-killed read_pid can_start sig_opt lm_local nodes (at_start []) runs,
      kill_loop-killed read_pid can_start sig_opt lm_remote nodes (at_start []) runs,
      subst
          (λ r.
            Perm
              (killed read_pid can_start sig_opt lm_local nodes []
                ++ killed read_pid can_start sig_opt lm_remote nodes [])
              r.1.actions)
          (sym all ∙ e) (killed-perm read_pid can_start sig_opt nodes [] [] [] Perm.nil),
    )

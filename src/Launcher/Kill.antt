-- ===== src/Launcher/Kill.antt =====
-- `kill` of eosio-launcher2/main.cpp. `read_pid` is what `fc::json` reads from a file, `none` its
-- exception where the file is missing or is no text, and `can_start` whether
-- `boost::process::system` starts the command, or throws. The results of the commands are not
-- looked at.
use Prim.Native.String.{◌++◌}
use eos_tools.Prelude.{
  Bool, true, false, not, Option, none, some, List, [], ◌∷◌, if◌then◌else◌, ◌>>=◌ as continue,
}
use eos_tools.Prelude.Text.{String}
use eos_tools.Launcher.Run.{system, NodeRtInfo, Run, pure, throw, act, ◌>>◌}
use eos_tools.Launcher.Modes.{
  LaunchMode, lm_none, lm_local, lm_remote, lm_named, lm_all, lm_verify, is_empty,
}

-- `mode == LM_ALL || (info.remote && mode == LM_REMOTE) || (!info.remote && mode == LM_LOCAL)`
unfoldable pub kills : LaunchMode → Bool → Bool
kills lm_all remote = true
kills lm_remote remote = remote
kills lm_local remote = not remote
kills _ remote = false

module _ (read_pid : String → Option String) (can_start : String → Bool) (sig_opt : String) where
  unfoldable pub kill_command : NodeRtInfo → Option String
  kill_command info =
      if is_empty info.pid_file
      then some info.kill_cmd
      else continue (read_pid info.pid_file) (λ pid. some ("kill " ++ sig_opt ++ " " ++ pid))

  unfoldable pub run_command : Option String → Run (Unit {0})
  run_command none = throw
  run_command (some command) =
      act (system command) >> (if can_start command then pure tt else throw)

  -- An exception leaves the loop.
  unfoldable pub kill_loop : LaunchMode → List NodeRtInfo → Run (Unit {0})
  kill_loop mode [] = pure tt
  kill_loop mode (info ∷ running_nodes) =
      (if kills mode info.remote then run_command (kill_command info) else pure tt)
      >> kill_loop mode running_nodes

  -- The nodes are those of last_run.json, `none` where its reading throws.
  unfoldable pub kill_read : LaunchMode → Option (List NodeRtInfo) → Run (Unit {0})
  kill_read mode none = throw
  kill_read mode (some running_nodes) = kill_loop mode running_nodes

  unfoldable pub kill : LaunchMode → Option (List NodeRtInfo) → Run (Unit {0})
  kill lm_none last_run = pure tt
  kill lm_verify last_run = pure tt
  kill lm_named last_run = pure tt
  kill lm_local last_run = kill_read lm_local last_run
  kill lm_remote last_run = kill_read lm_remote last_run
  kill lm_all last_run = kill_read lm_all last_run

-- ===== src/Launcher/Modes.antt =====
-- `enum launch_modes` and the choices of `main` in eosio-launcher2/main.cpp. `iequals` is boost's
-- comparison that ignores the case of letters.
use Prim.Native.String.{◌++◌, len, slice}
use eos_tools.Prelude.{Bool, not, ◌||◌, ◌==◌, Option, none, some, if◌then◌else◌}
use eos_tools.Prelude.Text.{String, str_eq}

pub data LaunchMode : Type 0 where
  lm_none : LaunchMode
  lm_local : LaunchMode
  lm_remote : LaunchMode
  lm_named : LaunchMode
  lm_all : LaunchMode
  lm_verify : LaunchMode

abbrev pub is_empty : String → Bool
is_empty s = len s == 0

-- The mode and `launch_name`, by the options `launch`, `kill` and `output`.
unfoldable pub launch_mode :
    (String → String → Bool) → Option String → String → String → LaunchMode × String
launch_mode iequals none kill_arg output =
    (if not (is_empty kill_arg) || is_empty output then lm_all else lm_none, "")
launch_mode iequals (some l) kill_arg output =
    if iequals l "all"
    then (lm_all, "")
    else if iequals l "local"
    then (lm_local, "")
    else if iequals l "remote"
    then (lm_remote, "")
    else if iequals l "none"
    then (lm_none, "")
    else if iequals l "verify"
    then (lm_verify, "")
    else (lm_named, l)

pub data Task : Type 0 where
  kill_task : LaunchMode → String → Task
  bounce_task : String → Task
  down_task : String → Task
  roll_task : String → Task
  launch_task : LaunchMode → Task

-- `if (kill_arg[0] != '-') kill_arg = "-" + kill_arg`
unfoldable pub with_dash : String → String
with_dash kill_arg = if str_eq (slice kill_arg 0 1) "-" then kill_arg else ("-" ++ kill_arg)

-- What `main` does with the options `kill`, `bounce`, `down` and `roll`.
unfoldable pub choose_task : LaunchMode → String → String → String → String → Task
choose_task mode kill_arg bounce_nodes down_nodes roll_nodes =
    if not (is_empty kill_arg)
    then kill_task mode (with_dash kill_arg)
    else if not (is_empty bounce_nodes)
    then bounce_task bounce_nodes
    else if not (is_empty down_nodes)
    then down_task down_nodes
    else if not (is_empty roll_nodes)
    then roll_task roll_nodes
    else launch_task mode

-- ===== src/Launcher/Run.antt =====
-- What the launcher of eosio-launcher2/main.cpp does to its surroundings: commands, processes and
-- files, one after the other. `World` answers whether the last of the actions so far succeeded, or
-- what it asks for. A run may be done, or end the program with an error, throw an exception or have
-- undefined behaviour.
pub mod Keeps
pub mod Leaves
use eos_tools.Prelude.{ℕ, Bool, List, ◌∷◌}
use eos_tools.Prelude.Text.{String}

pub record NodeRtInfo : Type 0 where
  pub remote : Bool
  pub pid_file : String
  pub kill_cmd : String

pub data Action : Type 0 where
  -- `boost::process::system`
  system : String → Action
  -- `bp::child` with an environment, and the wait for its end; asked for: whether it started
  child : String → List (String × String) → Action
  -- `bp::child` with its output and errors in files; asked for: whether it started
  spawn : String → String → String → Action
  -- the number of the last child, in a file
  write_pid : String → Action
  remove : String → Action
  create_symlink : String → String → Action
  exists : String → Action
  create_directories : String → Action
  remove_all : String → Action
  copy_file : String → String → Action
  -- an output stream on a file; asked for: whether it is good
  open_file : String → Action
  -- the lines of a file of settings, each a key and a value, by ` = `
  write_lines : String → List (String × String) → Action
  sleep : ℕ → Action
  -- the list of running nodes, in last_run.json
  save_last_run : List NodeRtInfo → Action

abbrev pub World : Type 0
World = List Action → Bool

-- The actions so far, the last one first, and the members of the launcher that they change.
pub record RunState : Type 0 where
  pub actions : List Action
  pub running_nodes : List NodeRtInfo
  pub add_enable_stale_production : Bool

pub data Outcome {ℓ} (A : Type ℓ) : Type ℓ where
  done : A → Outcome A
  exit : Outcome A
  thrown : Outcome A
  undefined : Outcome A

abbrev pub Run {ℓ} : Type ℓ → Type ℓ
Run A = RunState → Outcome A × RunState

module _ {ℓ} {A : Type ℓ} where
  unfoldable pub pure : A → Run A
  pure a s = (done a, s)

  unfoldable pub fail : Run A
  fail s = (exit, s)

  unfoldable pub throw : Run A
  throw s = (thrown, s)

  unfoldable pub gets : (RunState → A) → Run A
  gets f s = (done (f s), s)

unfoldable pub change : (RunState → RunState) → Run (Unit {0})
change f s = (done tt, f s)

unfoldable pub act : Action → Run (Unit {0})
act a s = (done tt, record s { actions = a ∷ s.actions })

unfoldable pub ask : World → Action → Run Bool
ask world a s = (done (world (a ∷ s.actions)), record s { actions = a ∷ s.actions })

module _ {ℓ κ} {A : Type ℓ} {B : Type κ} where
  abbrev pub continue : Outcome A → (A → Run B) → Run B
  continue (done a) f s = f a s
  continue exit f s = (exit, s)
  continue thrown f s = (thrown, s)
  continue undefined f s = (undefined, s)

  infixl 5 ◌>>=◌ ◌>>◌
  unfoldable pub ◌>>=◌ : Run A → (A → Run B) → Run B
  ◌>>=◌ m f s = continue (m s).0 f (m s).1

  abbrev pub ◌>>◌ : Run A → Run B → Run B
  m >> n = m >>= λ _. n

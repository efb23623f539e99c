-- ===== src/ForkDb/Run.antt =====
-- What the program of eosio-forkdb/forkdb.cpp does to files, one action after the other, with the
-- exceptions that end a `try` block. `S` is the type of a block state.
use eos_tools.Prelude.{Bool, Option, none, some, List, ◌∷◌, if◌then◌else◌}
use eos_tools.Prelude.Text.{String}
use eos_tools.ForkDb.Read.{Item}

pub data Action (S : Type 0) : Type 0 where
  -- asked for: the answer
  is_directory : String → Action S
  exists : String → Action S
  -- asked for: whether there is no exception
  create_directories : String → Action S
  remove : String → Action S
  copy_file : String → String → Action S
  remove_all : String → Action S
  -- what `read_log` writes
  print : List (Item S) → Action S
  print_help : Action S
  elog : Action S

-- `endless`: a loop of `read_log` without an end.
pub data Result {ℓ} (A : Type ℓ) : Type ℓ where
  done : A → Result A
  thrown : Result A
  endless : Result A

-- The answers of the file system, to the last of the actions so far.
abbrev pub World : Type 0 → Type 0
World S = List (Action S) → Bool

-- The list has the last action first.
abbrev pub Run {ℓ} : Type 0 → Type ℓ → Type ℓ
Run S A = List (Action S) → Result A × List (Action S)

module _ {S : Type 0} where
  unfoldable pub act : Action S → Run S (Unit {0})
  act a s = (done tt, a ∷ s)

  unfoldable pub ask : World S → Action S → Run S Bool
  ask world a s = (done (world (a ∷ s)), a ∷ s)

  unfoldable pub pure {ℓ} : {A : Type ℓ} → A → Run S A
  pure a s = (done a, s)

  unfoldable pub throw {ℓ} : {A : Type ℓ} → Run S A
  throw s = (thrown, s)

  unfoldable pub never {ℓ} : {A : Type ℓ} → Run S A
  never s = (endless, s)

  module _ {ℓ κ} {A : Type ℓ} {B : Type κ} where
    unfoldable pub continue : Result A → (A → Run S B) → Run S B
    continue (done a) f s = f a s
    continue thrown f s = (thrown, s)
    continue endless f s = (endless, s)

    infixl 5 ◌>>=◌
    unfoldable pub ◌>>=◌ : Run S A → (A → Run S B) → Run S B
    ◌>>=◌ m f s = continue (m s).0 f (m s).1

  -- A call that may throw.
  unfoldable pub attempt : World S → Action S → Run S (Unit {0})
  attempt world a = do ok ← ask world a; if ok then pure tt else throw

  unfoldable pub or_throw {ℓ} : {A : Type ℓ} → Option A → Run S A
  or_throw none = throw
  or_throw (some a) = pure a

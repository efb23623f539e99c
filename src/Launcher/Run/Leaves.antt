-- ===== src/Launcher/Run/Leaves.antt =====
-- Runs that leave the list of running nodes as it is, one rule for each way to build a run.
use eos_tools.Prelude.{Bool, true, false, ◌≡◌, refl, ◌∙◌, if◌then◌else◌}
use eos_tools.Launcher.Run.{
  Action, World, RunState, Outcome, done, exit, thrown, undefined, Run, pure, fail, throw, gets,
  act, ask, continue, ◌>>=◌, change,
}

-- Whatever its outcome, `m` leaves the list of running nodes.
pub record Leaves {A : Type 0} (m : Run A) : Type 0 where
  pub at : (s : RunState) → (m s).1.running_nodes ≡ s.running_nodes

pub Leaves-act : (a : Action) → Leaves (act a)
unfolding act
Leaves-act a = record { at = λ s. refl }

pub Leaves-ask : (world : World) (a : Action) → Leaves (ask world a)
unfolding ask
Leaves-ask world a = record { at = λ s. refl }

pub Leaves-change :
    (f : RunState → RunState)
    → ((s : RunState) → (f s).running_nodes ≡ s.running_nodes)
    → Leaves (change f)
unfolding change
Leaves-change f e = record { at = e }

module _ {A : Type 0} where
  pub Leaves-pure : (a : A) → Leaves (pure a)
  unfolding pure
  Leaves-pure a = record { at = λ s. refl }

  pub Leaves-fail : Leaves (fail {A = A})
  unfolding fail
  Leaves-fail = record { at = λ s. refl }

  pub Leaves-throw : Leaves (throw {A = A})
  unfolding throw
  Leaves-throw = record { at = λ s. refl }

  pub Leaves-gets : (f : RunState → A) → Leaves (gets f)
  unfolding gets
  Leaves-gets f = record { at = λ s. refl }

  pub Leaves-if : (b : Bool) (m n : Run A) → Leaves m → Leaves n → Leaves (if b then m else n)
  Leaves-if true m n km kn = km
  Leaves-if false m n km kn = kn

  Leaves-continue :
      {B : Type 0} (o : Outcome B) (f : B → Run A)
      → ((b : B) → Leaves (f b))
      → Leaves (continue o f)
  Leaves-continue (done b) f k = k b
  Leaves-continue exit f k = record { at = λ s. refl }
  Leaves-continue thrown f k = record { at = λ s. refl }
  Leaves-continue undefined f k = record { at = λ s. refl }

  pub Leaves-bind :
      {B : Type 0} (m : Run B) (f : B → Run A)
      → Leaves m
      → ((b : B) → Leaves (f b))
      → Leaves (m >>= f)
  unfolding ◌>>=◌
  Leaves-bind m f km k = record { at = λ s. (Leaves-continue (m s).0 f k).at (m s).1 ∙ km.at s }

-- Where `m` throws, it leaves the list of running nodes.
pub record LeavesThrown {A : Type 0} (m : Run A) : Type 0 where
  pub at : (s : RunState) → (m s).0 ≡ thrown → (m s).1.running_nodes ≡ s.running_nodes

pub LeavesThrown-change : (f : RunState → RunState) → LeavesThrown (change f)
unfolding change
LeavesThrown-change f = record { at = λ s h. absurd (cc h) }

pub LeavesThrown-bind :
    {A B : Type 0} (m : Run B) (f : B → Run A)
    → Leaves m
    → ((b : B) → LeavesThrown (f b))
    → LeavesThrown (m >>= f)
unfolding ◌>>=◌
LeavesThrown-bind {A} {B} m f km k = record { at = λ s h. by_outcome (m s).0 (m s).1 h ∙ km.at s }
  where
    by_outcome :
        (o : Outcome B) (s : RunState)
        → (continue o f s).0 ≡ thrown
        → (continue o f s).1.running_nodes ≡ s.running_nodes
    by_outcome (done b) s h = (k b).at s h
    by_outcome exit s h = refl
    by_outcome thrown s h = refl
    by_outcome undefined s h = refl

pub ruleset leaves_rules = (
  Leaves-act, Leaves-ask, Leaves-change, Leaves-pure, Leaves-fail, Leaves-throw, Leaves-gets,
  Leaves-if, Leaves-bind,
)

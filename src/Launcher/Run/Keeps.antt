-- ===== src/Launcher/Run/Keeps.antt =====
-- Properties of all actions that a run takes, one rule for each way to build a run.
use eos_tools.Prelude.{Bool, true, false, All, ◌≡◌, refl, ap, sym, ◌∙◌}
use eos_tools.Launcher.Run.{
  Action, World, RunState, Outcome, done, exit, thrown, undefined, Run, pure, fail, throw, gets,
  change, act, ask, continue, ◌>>=◌,
}
use eos_tools.Prelude.{if◌then◌else◌}

-- Whether it ends or exits, `m` takes only actions of which `P` holds.
pub record Keeps (P : Action → Type 0) {A : Type 0} (m : Run A) : Type 0 where
  pub at : (s : RunState) → All P s.actions → All P (m s).1.actions

module _ {P : Action → Type 0} where
  pub Keeps-act : (a : Action) → P a → Keeps P (act a)
  unfolding act
  Keeps-act a p = record { at = λ s h. (p, h) }

  pub Keeps-ask : (world : World) (a : Action) → P a → Keeps P (ask world a)
  unfolding ask
  Keeps-ask world a p = record { at = λ s h. (p, h) }

  module _ {A : Type 0} where
    pub Keeps-pure : (a : A) → Keeps P (pure a)
    unfolding pure
    Keeps-pure a = record { at = λ s h. h }

    pub Keeps-fail : Keeps P (fail {A = A})
    unfolding fail
    Keeps-fail = record { at = λ s h. h }

    pub Keeps-throw : Keeps P (throw {A = A})
    unfolding throw
    Keeps-throw = record { at = λ s h. h }

    pub Keeps-gets : (f : RunState → A) → Keeps P (gets f)
    unfolding gets
    Keeps-gets f = record { at = λ s h. h }

    pub Keeps-if : (b : Bool) (m n : Run A) → Keeps P m → Keeps P n → Keeps P (if b then m else n)
    Keeps-if true m n km kn = km
    Keeps-if false m n km kn = kn

    Keeps-continue :
        {B : Type 0} (o : Outcome B) (f : B → Run A)
        → ((b : B) → Keeps P (f b))
        → Keeps P (continue o f)
    Keeps-continue (done b) f k = k b
    Keeps-continue exit f k = record { at = λ s h. h }
    Keeps-continue thrown f k = record { at = λ s h. h }
    Keeps-continue undefined f k = record { at = λ s h. h }

    pub Keeps-bind :
        {B : Type 0} (m : Run B) (f : B → Run A)
        → Keeps P m
        → ((b : B) → Keeps P (f b))
        → Keeps P (m >>= f)
    unfolding ◌>>=◌
    Keeps-bind m f km k = record { at = λ s h. (Keeps-continue (m s).0 f k).at (m s).1 (km.at s h) }

  -- A change of the other members.
  pub Keeps-change :
      (f : RunState → RunState) → ((s : RunState) → (f s).actions ≡ s.actions) → Keeps P (change f)
  unfolding change
  Keeps-change f e = record { at = λ s h. rw (e s) h }

pub ruleset keeps_rules =
    (Keeps-act, Keeps-ask, Keeps-pure, Keeps-fail, Keeps-throw, Keeps-gets, Keeps-if, Keeps-bind)

-- Where a block is done, it does what its rest does behind its first part, which is done.
pub bind_done :
    {A B : Type 0} (m : Run A) (f : A → Run B) (s : RunState) (b : B)
    → ((m >>= f) s).0 ≡ done b
    → (a : A) × (mid : RunState) × (m s ≡ (done a, mid))
      × ((m >>= f) s ≡ f a mid)
      × ((f a mid).0 ≡ done b)
unfolding ◌>>=◌
bind_done {A} m f s b h = by_outcome (m s).0 refl
  where
    by_outcome :
        (o : Outcome A)
        → (m s).0 ≡ o
        → (a : A) × (mid : RunState) × (m s ≡ (done a, mid))
          × ((m >>= f) s ≡ f a mid)
          × ((f a mid).0 ≡ done b)
    by_outcome (done a) e =
        let same : (m >>= f) s ≡ f a (m s).1 = rw (e, ◌>>=◌) refl in
        (a, (m s).1, ap (λ o. (o, (m s).1)) e, same, ap (λ r. r.0) (sym same) ∙ h)
    by_outcome exit e = absurd (cc (e, h))
    by_outcome thrown e = absurd (cc (e, h))
    by_outcome undefined e = absurd (cc (e, h))

pub pure-bind : {A B : Type 0} (a : A) (f : A → Run B) → (pure a >>= f) ≡ f a
unfolding ◌>>=◌ pure
pure-bind a f = refl

value_or : {A : Type 0} → A → Outcome A → A
value_or a (done b) = b
value_or a exit = a
value_or a thrown = a
value_or a undefined = a

-- Inversion of a run that is done.
pub pure_done :
    {A : Type 0} (a b : A) (s s' : RunState) → pure a s ≡ (done b, s') → (a ≡ b) × (s ≡ s')
unfolding pure value_or
pure_done a b s s' e = (ap (λ r. value_or a r.0) e, ap (λ r. r.1) e)

pub bind_eq_done :
    {A B : Type 0} (m : Run A) (f : A → Run B) (s s' : RunState) (b : B)
    → (m >>= f) s ≡ (done b, s')
    → (a : A) × (mid : RunState) × (m s ≡ (done a, mid)) × (f a mid ≡ (done b, s'))
bind_eq_done m f s s' b e =
    let (a, mid, r, q, d) = bind_done m f s b (ap (λ o. o.0) e) in (a, mid, r, sym q ∙ e)

-- ===== src/ForkDb/Only.antt =====
-- Properties of all actions of a run of eosio-forkdb, and the parts of a run that is done.
use eos_tools.Prelude.{
  Bool, true, false, Option, none, some, List, ◌∷◌, All, ◌≡◌, refl, ap, sym, ◌∙◌, if◌then◌else◌,
}
use eos_tools.ForkDb.Run.{
  Action, Result, done, thrown, endless, World, Run, act, ask, pure, throw, never, continue, ◌>>=◌,
  attempt, or_throw,
}

value_or : {A : Type 0} → A → Result A → A
value_or a (done b) = b
value_or a thrown = a
value_or a endless = a

module _ {S : Type 0} where
  -- However it ends, `m` takes only actions of which `P` holds.
  pub record Only (P : Action S → Type 0) {A : Type 0} (m : Run S A) : Type 0 where
    pub at : (s : List (Action S)) → All P s → All P (m s).1

  module _ {P : Action S → Type 0} where
    pub Only-act : (a : Action S) → P a → Only P (act a)
    unfolding act
    Only-act a p = record { at = λ s h. (p, h) }

    pub Only-ask : (world : World S) (a : Action S) → P a → Only P (ask world a)
    unfolding ask
    Only-ask world a p = record { at = λ s h. (p, h) }

    module _ {A : Type 0} where
      pub Only-pure : (a : A) → Only P (pure a)
      unfolding pure
      Only-pure a = record { at = λ s h. h }

      pub Only-throw : Only P (throw {A = A})
      unfolding throw
      Only-throw = record { at = λ s h. h }

      pub Only-never : Only P (never {A = A})
      unfolding never
      Only-never = record { at = λ s h. h }

      pub Only-if : (b : Bool) (m n : Run S A) → Only P m → Only P n → Only P (if b then m else n)
      Only-if true m n om on = om
      Only-if false m n om on = on

      pub Only-or_throw : (o : Option A) → Only P (or_throw o)
      unfolding or_throw
      Only-or_throw none = Only-throw
      Only-or_throw (some a) = Only-pure a

      Only-continue :
          {B : Type 0} (r : Result B) (f : B → Run S A)
          → ((b : B) → Only P (f b))
          → Only P (continue r f)
      unfolding continue
      Only-continue (done b) f k = k b
      Only-continue thrown f k = record { at = λ s h. h }
      Only-continue endless f k = record { at = λ s h. h }

      pub Only-bind :
          {B : Type 0} (m : Run S B) (f : B → Run S A)
          → Only P m
          → ((b : B) → Only P (f b))
          → Only P (m >>= f)
      unfolding ◌>>=◌
      Only-bind m f om k = record { at = λ s h. (Only-continue (m s).0 f k).at (m s).1 (om.at s h) }

    -- What follows `or_throw` may rely on the value.
    pub Only-or_throw-bind :
        {A B : Type 0} (o : Option B) (f : B → Run S A)
        → ((b : B) → o ≡ some b → Only P (f b))
        → Only P (or_throw o >>= f)
    unfolding ◌>>=◌ continue or_throw pure throw
    Only-or_throw-bind none f k = record { at = λ s h. h }
    Only-or_throw-bind (some b) f k = record { at = (k b refl).at }

    pub Only-attempt : (world : World S) (a : Action S) → P a → Only P (attempt world a)
    unfolding attempt
    Only-attempt world a p =
        Only-bind _ _ (Only-ask world a p) (λ ok. Only-if ok _ _ (Only-pure tt) Only-throw)

  -- The parts of a run that is done.
  pub bind_parts :
      {A B : Type 0} (m : Run S A) (f : A → Run S B) (s s' : List (Action S)) (b : B)
      → (m >>= f) s ≡ (done b, s')
      → (a : A) × (mid : List (Action S)) × (m s ≡ (done a, mid)) × (f a mid ≡ (done b, s'))
  unfolding ◌>>=◌ continue
  bind_parts {A} {B} m f s s' b h = by_result (m s).0 refl
    where
      by_result :
          (r : Result A)
          → (m s).0 ≡ r
          → (a : A) × (mid : List (Action S)) × (m s ≡ (done a, mid)) × (f a mid ≡ (done b, s'))
      by_result (done a) e =
          let same : continue (m s).0 f (m s).1 ≡ f a (m s).1 = ap (λ r. continue r f (m s).1) e in
          (a, (m s).1, ap (λ r. (r, (m s).1)) e, sym same ∙ h)
      by_result thrown e =
          let same : continue (m s).0 f (m s).1 ≡ (thrown, (m s).1) =
            ap (λ r. continue r f (m s).1) e in
          absurd (cc (same, h))
      by_result endless e =
          let same : continue (m s).0 f (m s).1 ≡ (endless, (m s).1) =
            ap (λ r. continue r f (m s).1) e in
          absurd (cc (same, h))

  pub pure_parts :
      {A : Type 0} (a b : A) (s s' : List (Action S)) → pure a s ≡ (done b, s') → (a ≡ b) × (s ≡ s')
  unfolding pure value_or
  pure_parts a b s s' e = (ap (λ r. value_or a r.0) e, ap (λ r. r.1) e)

  pub or_throw_parts :
      {A : Type 0} (o : Option A) (a : A) (s s' : List (Action S))
      → or_throw o s ≡ (done a, s')
      → (o ≡ some a) × (s ≡ s')
  unfolding or_throw throw
  or_throw_parts none a s s' e = absurd (cc e)
  or_throw_parts (some c) a s s' e = let (p, q) = pure_parts c a s s' e in (ap some p, q)

  pub attempt_parts :
      (world : World S) (a : Action S) (u : Unit {0}) (s s' : List (Action S))
      → attempt world a s ≡ (done u, s')
      → s' ≡ a ∷ s
  unfolding attempt ask pure throw ◌>>=◌ continue
  attempt_parts world a u s s' e = by_answer (world (a ∷ s)) e
    where
      by_answer : (ok : Bool) → (if ok then pure tt else throw) (a ∷ s) ≡ (done u, s') → s' ≡ a ∷ s
      by_answer true e = sym (ap (λ r. r.1) e)
      by_answer false e = absurd (cc e)

pub ruleset only_rules = (
  Only-act, Only-ask, Only-pure, Only-throw, Only-never, Only-if, Only-or_throw, Only-attempt,
  Only-bind,
)

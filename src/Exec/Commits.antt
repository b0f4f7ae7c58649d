-- ===== src/Exec/Commits.antt =====
-- Partial correctness of an action that may throw, one rule for each way to build an action.
use cost_engine_orchestratio.Base.{◌≡◌, refl, Bool, true, false, Option, none, some, if◌then◌else◌}
use cost_engine_orchestratio.Errors.{Error}
use cost_engine_orchestratio.Exec.{
  Result, ok, err, Exec, pure, throw, gets, or_throw, modify, require, continue, ◌>>=◌,
}

module _ {S A : Type 0} where
  -- The outcome meets `Q` if it is a returned value; a thrown error owes nothing.
  abbrev pub Returns : (A → S → Type 0) → Result A × S → Type 0
  Returns Q (ok a, s) = Q a s
  Returns Q (err e, s) = Unit

  -- Run from `s`, the action returns only values and states that meet `Q`.
  pub record Commits (Q : A → S → Type 0) (m : Exec S A) (s : S) : Type 0 where
    pub holds : Returns Q (m s)

module _ {S A : Type 0} {Q : A → S → Type 0} {s : S} where
  pub pure-Commits : (a : A) → Q a s → Commits Q (pure a) s
  unfolding pure
  pure-Commits a q = record { holds = q }

  pub throw-Commits : (e : Error) → Commits Q (throw e) s
  unfolding throw
  throw-Commits e = record { holds = tt }

  pub if_Commits :
      (b : Bool) {m n : Exec S A}
      → (b ≡ true → Commits Q m s)
      → (b ≡ false → Commits Q n s)
      → Commits Q (if b then m else n) s
  if_Commits true km kn = km refl
  if_Commits false km kn = kn refl

module _ {S A B : Type 0} {Q : B → S → Type 0} where
  continue-Returns :
      {P : A → S → Type 0} {f : A → Exec S B} (r : Result A × S)
      → Returns P r
      → ((a : A) (t : S) → P a t → Commits Q (f a) t)
      → Returns Q (let (v, t) = r in continue v f t)
  continue-Returns (ok a, t) p cf = (cf a t p).holds
  continue-Returns (err e, t) p cf = tt

module _ {S A : Type 0} {Q : A → S → Type 0} {s : S} where
  -- a missing result that ends a block
  pub or_throw_last :
      (o : Option A) (e : Error) → ((a : A) → o ≡ some a → Q a s) → Commits Q (or_throw o e) s
  unfolding or_throw
  or_throw_last none e q = record { holds = tt }
  or_throw_last (some a) e q = record { holds = q a refl }

module _ {S A B : Type 0} {Q : B → S → Type 0} {s : S} where
  pub bind-Commits :
      {P : A → S → Type 0} (m : Exec S A) (f : A → Exec S B)
      → Commits P m s
      → ((a : A) (t : S) → P a t → Commits Q (f a) t)
      → Commits Q (m >>= f) s
  unfolding ◌>>=◌
  bind-Commits m f cm cf = record { holds = continue-Returns (m s) cm.holds cf }

  pub gets-Commits :
      (q : S → A) (f : A → Exec S B) → Commits Q (f (q s)) s → Commits Q (gets q >>= f) s
  unfolding ◌>>=◌
  gets-Commits q f c = record { holds = c.holds }

  pub or_throw-Commits :
      {o : Option A} (e : Error) (f : A → Exec S B)
      → ((a : A) → o ≡ some a → Commits Q (f a) s)
      → Commits Q (or_throw o e >>= f) s
  unfolding ◌>>=◌
  or_throw-Commits {o = none} e f c = record { holds = tt }
  or_throw-Commits {o = some a} e f c = record { holds = (c a refl).holds }

module _ {S B : Type 0} {Q : B → S → Type 0} {s : S} where
  pub require-Commits :
      {b : Bool} (e : Error) (f : Unit {0} → Exec S B)
      → (b ≡ true → Commits Q (f tt) s)
      → Commits Q (require b e >>= f) s
  unfolding ◌>>=◌
  require-Commits {b = true} e f c = record { holds = (c refl).holds }
  require-Commits {b = false} e f c = record { holds = tt }

  pub modify-Commits :
      (g : S → S) (f : Unit {0} → Exec S B) → Commits Q (f tt) (g s) → Commits Q (modify g >>= f) s
  unfolding ◌>>=◌
  modify-Commits g f c = record { holds = c.holds }

module _ {S : Type 0} {Q : Unit {0} → S → Type 0} {s : S} where
  -- a test that ends a block
  pub require_last : (b : Bool) (e : Error) → Q tt s → Commits Q (require b e) s
  unfolding require
  require_last true e q = record { holds = q }
  require_last false e q = record { holds = tt }

  pub modify_last : (g : S → S) → Q tt (g s) → Commits Q (modify g) s
  unfolding modify
  modify_last g q = record { holds = q }

-- an action of which nothing need be known
any-Returns : {S A : Type 0} (r : Result A × S) → Returns (λ _ _. Unit {0}) r
any-Returns (ok a, s) = tt
any-Returns (err e, s) = tt

pub anything-Commits : {S A : Type 0} {s : S} (m : Exec S A) → Commits (λ _ _. Unit {0}) m s
anything-Commits {s = s} m = record { holds = any-Returns (m s) }

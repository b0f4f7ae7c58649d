-- ===== src/Exec.antt =====
-- Asynchronous functions that read and change state and may throw. A thrown error leaves what was
-- written before it; `with_transaction` of Store/Transaction.antt rolls back.
pub mod Commits
use cost_engine_orchestratio.Base.{Bool, true, false, Option, none, some}
use cost_engine_orchestratio.Errors.{Error}

pub data Result {ℓ} (A : Type ℓ) : Type ℓ where
  ok : A → Result A
  err : Error → Result A

abbrev pub or_throw_result {ℓ} : {A : Type ℓ} → Option A → Error → Result A
or_throw_result none e = err e
or_throw_result (some a) e = ok a

abbrev pub require_result : Bool → Error → Result (Unit {0})
require_result true e = ok tt
require_result false e = err e

abbrev pub Exec : Type 0 → Type 0 → Type 0
Exec S A = S → Result A × S

module _ {S A : Type 0} where
  unfoldable pub pure : A → Exec S A
  pure a s = (ok a, s)

  unfoldable pub throw : Error → Exec S A
  throw e s = (err e, s)

  -- a query
  unfoldable pub gets : (S → A) → Exec S A
  gets f s = (ok (f s), s)

  -- a query that yields `null`, which the caller answers by throwing
  unfoldable pub or_throw : Option A → Error → Exec S A
  or_throw o e s = (or_throw_result o e, s)

module _ {S : Type 0} where
  unfoldable pub modify : (S → S) → Exec S (Unit {0})
  modify f s = (ok tt, f s)

  -- `if (!b) throw e;`
  unfoldable pub require : Bool → Error → Exec S (Unit {0})
  require b e s = (require_result b e, s)

module _ {S A B : Type 0} where
  abbrev pub continue : Result A → (A → Exec S B) → Exec S B
  continue (ok a) f s = f a s
  continue (err e) f s = (err e, s)

  infixl 5 ◌>>=◌ ◌>>◌
  -- opening this opens the actions above
  unfoldable pub ◌>>=◌ : Exec S A → (A → Exec S B) → Exec S B
  unfolding pure throw gets or_throw modify require
  ◌>>=◌ m f s = let (r, s') = m s in continue r f s'

  abbrev pub ◌>>◌ : Exec S A → Exec S B → Exec S B
  m >> n = m >>= λ _. n

module _ {S A : Type 0} where
  abbrev pub catch_result : (Error → Exec S A) → Result A → S → Result A × S
  catch_result handler (ok a) s = (ok a, s)
  catch_result handler (err e) s = handler e s

  -- `try { m } catch (e) { handler(e) }`
  unfoldable pub try_catch : Exec S A → (Error → Exec S A) → Exec S A
  try_catch m handler s = let (r, s') = m s in catch_result handler r s'

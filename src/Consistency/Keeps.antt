-- ===== src/Consistency/Keeps.antt =====
-- Actions that keep the tables consistent: transaction bodies when they commit, and services
-- whatever their outcome.
use cost_engine_orchestratio.Base.{
  suc, String, ◌≡◌, Bool, true, false, ◌&&◌, Option, [], ◌∷◌, ◌++◌, arith, ◌==◌, nat_eq, string_eq,
  option_eq, not-true, any_row,
}
use cost_engine_orchestratio.Errors.{Error}
use cost_engine_orchestratio.Exec.{
  continue, catch_result, Result, ok, err, pure, throw, gets, or_throw, require, ◌>>=◌, try_catch,
}
use cost_engine_orchestratio.Exec.Commits.{
  Returns, Commits, gets-Commits, require-Commits, modify_last,
}
use cost_engine_orchestratio.Store.Status.{
  dataset_status_eq, job_status_eq, attempt_status_eq, definition_status_eq, is_active_attempt,
}
use cost_engine_orchestratio.Store.Tables.{ExecutionAttempt, Database}
use cost_engine_orchestratio.Store.Transaction.{
  CommitReply, commit_confirmed, commit_lost, commit_failed, commit_transaction, close_transaction,
  Env, Action, with_transaction, random_uuid, write,
}
use cost_engine_orchestratio.Store.Updates.{insert_attempt}
use cost_engine_orchestratio.Consistency.Invariant.{IsConsistent}

-- The body commits consistent tables, when it starts from the environment `s`.
abbrev pub Keeps : {A : Type 0} → Action A → Env → Type 0
Keeps m s = Commits (λ _ t. IsConsistent t.db) m s

-- Whether it returns or throws, the action leaves consistent tables consistent.
pub record Stays {A : Type 0} (m : Action A) : Type 0 where
  pub after : (s : Env) → IsConsistent s.db → IsConsistent (m s).1.db

finish-IsConsistent :
    {A : Type 0} (before : Database) (r : Result A × Env)
    → IsConsistent before
    → Returns (λ _ t. IsConsistent t.db) r
    → IsConsistent (let (v, t) = r in close_transaction before v t).1.db
finish-IsConsistent before (ok a, t) k q = committed (t.commits before t.db)
  where
    committed : (c : CommitReply) → IsConsistent (commit_transaction c before a t).1.db
    committed commit_confirmed = q
    committed commit_lost = q
    committed commit_failed = k
finish-IsConsistent before (err e, t) k q = k

-- A transaction commits what its body keeps, and rolls an error back.
pub with_transaction-Stays :
    {A : Type 0} (m : Action A)
    → ((s : Env) → IsConsistent s.db → Keeps m s)
    → Stays (with_transaction m)
unfolding with_transaction
with_transaction-Stays m keeps = record {
  after = λ s k. finish-IsConsistent s.db (m s) k (keeps s k).holds;
}

module _ {A : Type 0} where
  pub pure-Stays : (a : A) → Stays (pure a)
  unfolding pure
  pure-Stays a = record { after = λ s k. k }

  pub throw-Stays : (e : Error) → Stays (throw {A = A} e)
  unfolding throw
  throw-Stays e = record { after = λ s k. k }

  pub gets-Stays : (f : Env → A) → Stays (gets f)
  unfolding gets
  gets-Stays f = record { after = λ s k. k }

  pub or_throw-Stays : (o : Option A) (e : Error) → Stays (or_throw o e)
  unfolding or_throw
  or_throw-Stays o e = record { after = λ s k. k }

pub require-Stays : (b : Bool) (e : Error) → Stays (require b e)
unfolding require
require-Stays b e = record { after = λ s k. k }

module _ {A B : Type 0} where
  continue-IsConsistent :
      (f : A → Action B)
      → ((a : A) → Stays (f a))
      → (r : Result A × Env) → IsConsistent r.1.db
      → IsConsistent (let (v, t) = r in continue v f t).1.db
  continue-IsConsistent f kf (ok a, t) k = (kf a).after t k
  continue-IsConsistent f kf (err e, t) k = k

  pub bind-Stays :
      (m : Action A) (f : A → Action B) → Stays m → ((a : A) → Stays (f a)) → Stays (m >>= f)
  unfolding ◌>>=◌
  bind-Stays m f km kf = record { after = λ s k. continue-IsConsistent f kf (m s) (km.after s k) }

module _ {A : Type 0} where
  catch-IsConsistent :
      (handler : Error → Action A)
      → ((e : Error) → Stays (handler e))
      → (r : Result A × Env) → IsConsistent r.1.db
      → IsConsistent (let (v, t) = r in catch_result handler v t).1.db
  catch-IsConsistent handler kh (ok a, t) k = k
  catch-IsConsistent handler kh (err e, t) k = (kh e).after t k

  pub try_catch-Stays :
      (m : Action A) (handler : Error → Action A)
      → Stays m
      → ((e : Error) → Stays (handler e))
      → Stays (try_catch m handler)
  unfolding try_catch
  try_catch-Stays m handler km kh = record {
    after = λ s k. catch-IsConsistent handler kh (m s) (km.after s k);
  }

pub ruleset stays_rules = (
  pure-Stays, throw-Stays, gets-Stays, or_throw-Stays, require-Stays, bind-Stays, try_catch-Stays,
)

module _ {B : Type 0} {Q : B → Env → Type 0} {s : Env} where
  pub uuid-Commits :
      (f : String → Action B)
      → Commits Q (f (s.uuids 0)) (record s { uuids = λ n. s.uuids (suc n) })
      → Commits Q (random_uuid >>= f) s
  unfolding ◌>>=◌ random_uuid
  uuid-Commits f c = record { holds = c.holds }

-- An attempt is inserted only if its id is new and, being active, its job has no active one.
pub insert_attempt-Commits :
    {Q : Unit {0} → Env → Type 0} (a : ExecutionAttempt) (s : Env)
    → is_active_attempt a.status ≡ true
    → (any_row (λ b. b.id == a.id) s.db.attempts ≡ false
        → any_row (λ b. b.job_id == a.job_id && is_active_attempt b.status) s.db.attempts ≡ false
        → Q tt (write (λ db. record db { attempts = db.attempts ++ a ∷ [] }) s))
    → Commits Q (insert_attempt a) s
unfolding insert_attempt
insert_attempt-Commits a s active q = gets-Commits _ _ (
    require-Commits _ _ λ new_id. require-Commits _ _ λ _. require-Commits _ _ λ _.
      require-Commits _ _
        λ free. modify_last _ (q (not-true new_id) (no_other active (not-true free))))
  where
    no_other : {x y : Bool} → x ≡ true → (x && y) ≡ false → y ≡ false
    no_other {x} {y} p h = ground arith

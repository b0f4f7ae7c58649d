-- ===== src/Store/Rollback.antt =====
-- db/transaction.ts: what a transaction leaves of its callback's work.
use cost_engine_orchestratio.Base.{◌≡◌, refl, nat_eq, string_eq, option_eq}
use cost_engine_orchestratio.Exec.{Result, ok, err}
use cost_engine_orchestratio.Exec.Commits.{Returns, Commits}
use cost_engine_orchestratio.Store.Status.{
  dataset_status_eq, job_status_eq, attempt_status_eq, definition_status_eq,
}
use cost_engine_orchestratio.Store.Tables.{Database}
use cost_engine_orchestratio.Store.Transaction.{Env, Action, with_transaction}
use cost_engine_orchestratio.Store.Transaction.{
  CommitReply, commit_confirmed, commit_lost, commit_failed, commit_transaction, close_transaction,
}

module _ {A : Type 0} where
  close-Returns :
      (Q : A → Env → Type 0) (before : Database) (r : Result A × Env)
      → Returns Q r
      → Returns Q (let (v, t) = r in close_transaction before v t)
  close-Returns Q before (ok a, t) q = committed (t.commits before t.db)
    where
      committed : (c : CommitReply) → Returns Q (commit_transaction c before a t)
      committed commit_confirmed = q
      committed commit_lost = tt
      committed commit_failed = tt
  close-Returns Q before (err e, t) q = tt

  -- A transaction that returns has committed what its body did.
  pub with_transaction-Returns :
      {Q : A → Env → Type 0} (m : Action A) (s : Env)
      → Commits Q m s
      → Returns Q (with_transaction m s)
  unfolding with_transaction
  with_transaction-Returns {Q} m s c = close-Returns Q s.db (m s) c.holds

  close-unchanged :
      (before : Database) (r : Result A × Env)
      → Returns (λ _ t. t.db ≡ before) r
      → (let (v, t) = r in close_transaction before v t).1.db ≡ before
  close-unchanged before (ok a, t) q = committed (t.commits before t.db)
    where
      committed : (c : CommitReply) → (commit_transaction c before a t).1.db ≡ before
      committed commit_confirmed = q
      committed commit_lost = q
      committed commit_failed = refl
  close-unchanged before (err e, t) q = refl

  -- A transaction whose body commits no change changes nothing, whether it returns or throws.
  pub with_transaction-unchanged :
      (callback : Action A) (s : Env)
      → Commits (λ _ t. t.db ≡ s.db) callback s
      → (with_transaction callback s).1.db ≡ s.db
  unfolding with_transaction
  with_transaction-unchanged callback s c = close-unchanged s.db (callback s) c.holds

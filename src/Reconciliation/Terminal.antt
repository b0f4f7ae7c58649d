-- ===== src/Reconciliation/Terminal.antt =====
-- modules/calculation-job-run.service.ts and modules/calculation-job-reconciliation.service.ts: what
-- arrives for an attempt that has SUCCEEDED or FAILED.
use cost_engine_orchestratio.Base.{
  ◌≡◌, refl, subst, Bool, true, Option, some, nat_eq, string_eq, option_eq,
}
use cost_engine_orchestratio.Exec.Commits.{
  Commits, pure-Commits, if_Commits, gets-Commits, or_throw-Commits, require-Commits,
}
use cost_engine_orchestratio.Store.Status.{
  DatasetStatus, JobStatus, AttemptStatus, dataset_status_eq, job_status_eq, attempt_status_eq,
  definition_status_eq, is_terminal_attempt,
}
use cost_engine_orchestratio.Store.Tables.{ExecutionAttempt}
use cost_engine_orchestratio.Store.Transaction.{Env}
use cost_engine_orchestratio.Dispatch.Types.{DispatchCommand, DispatchResult, DispatchContext}
use cost_engine_orchestratio.Dispatch.Repository.{lock_execution_attempt}
use cost_engine_orchestratio.Dispatch.Recording.{
  late_outcome, record_outcome_transaction, record_dispatch_outcome,
}
use cost_engine_orchestratio.Store.Rollback.{with_transaction-unchanged}
use cost_engine_orchestratio.Reconciliation.Repository.{AttemptContext, LockedJob}
use cost_engine_orchestratio.Reconciliation.Service.{
  Report, result_from_durable_state, confirm_terminal, reconciliation_transaction,
  apply_reconciliation,
}

late_outcome-unchanged :
    (c : DispatchCommand) (context : DispatchContext) (a : ExecutionAttempt)
    (dataset_status : DatasetStatus) (outcome : DispatchResult) (s : Env)
    → Commits (λ _ t. t.db ≡ s.db) (late_outcome c context a dataset_status outcome) s
unfolding late_outcome
late_outcome-unchanged c context a dataset_status outcome s =
    require-Commits _ _ λ _.
      or_throw-Commits _ _ λ _ _. gets-Commits _ _ (require-Commits _ _ λ _. pure-Commits _ refl)

-- the row that a lookup finds is the row that it is known to find
same_terminal :
    {o : Option ExecutionAttempt} {a b : ExecutionAttempt}
    → o ≡ some a
    → o ≡ some b
    → is_terminal_attempt a.status ≡ true
    → is_terminal_attempt b.status ≡ true
same_terminal {o} {a} {b} ea eb h =
    let e : a ≡ b = cc in subst (λ (x : ExecutionAttempt). is_terminal_attempt x.status ≡ true) e h

-- The answer of a dispatch that arrives after its attempt has SUCCEEDED or FAILED changes no table.
pub record_dispatch_outcome-terminal :
    (c : DispatchCommand) (outcome : DispatchResult) (s : Env) (a : ExecutionAttempt)
    → lock_execution_attempt c.execution_attempt_id s ≡ some a
    → is_terminal_attempt a.status ≡ true
    → (record_dispatch_outcome c outcome s).1.db ≡ s.db
unfolding record_dispatch_outcome record_outcome_transaction
record_dispatch_outcome-terminal c outcome s a known done = with_transaction-unchanged _ s (
    gets-Commits _ _ (
      or_throw-Commits _ _ λ context _. gets-Commits _ _ (
        or_throw-Commits _ _ λ b found. require-Commits _ _ λ _. require-Commits _ _ λ _.
          gets-Commits _ _ (
            gets-Commits _ _ (
              or_throw-Commits _ _ λ dataset_status _. require-Commits _ _ λ _.
                if_Commits (is_terminal_attempt b.status)
                  (λ _. late_outcome-unchanged c context b dataset_status outcome s)
                  (λ open_still. let h = same_terminal known found done in cc))))))

result-unchanged :
    (context : AttemptContext) (u : JobStatus) (v : AttemptStatus) (report : Report) (s : Env)
    → Commits (λ _ t. t.db ≡ s.db) (result_from_durable_state context u v report) s
unfolding result_from_durable_state
result-unchanged context u v report s = require-Commits _ _ λ _. pure-Commits _ refl

confirm_terminal-unchanged :
    (phase_a current : AttemptContext) (l : LockedJob) (a : ExecutionAttempt) (newer : Bool)
    (report : Report) (s : Env)
    → Commits (λ _ t. t.db ≡ s.db) (confirm_terminal phase_a current l a newer report) s
unfolding confirm_terminal
confirm_terminal-unchanged phase_a current l a newer report s =
    require-Commits _ _
      λ _. require-Commits _ _ λ _. require-Commits _ _ λ _. result-unchanged _ _ _ _ s

-- A report that arrives after its attempt has SUCCEEDED or FAILED changes no table.
pub apply_reconciliation-terminal :
    (phase_a : AttemptContext) (report : Report) (s : Env) (a : ExecutionAttempt)
    → lock_execution_attempt phase_a.execution_attempt_id s ≡ some a
    → is_terminal_attempt a.status ≡ true
    → (apply_reconciliation phase_a report s).1.db ≡ s.db
unfolding apply_reconciliation reconciliation_transaction
apply_reconciliation-terminal phase_a report s a known done = with_transaction-unchanged _ s (
    gets-Commits _ _ (
      or_throw-Commits _ _ λ l _. gets-Commits _ _ (
        or_throw-Commits _ _ λ b found. require-Commits _ _ λ _. require-Commits _ _ λ _.
          gets-Commits _ _ (
            or_throw-Commits _ _ λ current _. gets-Commits _ _ (
              if_Commits (is_terminal_attempt b.status)
                (λ _. confirm_terminal-unchanged phase_a current l b _ report s)
                (λ open_still. let h = same_terminal known found done in cc))))))

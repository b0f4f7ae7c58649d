-- ===== src/Reconciliation/Service.antt =====
-- modules/calculation-job-reconciliation.service.ts: the executor is asked for the status of an
-- attempt's run, and the answer is applied to the attempt and its job in one transaction.
use Prim.Native.String.{◌++◌ as ◌++ₛ◌}
use cost_engine_orchestratio.Base.{
  ℕ, String, Bool, true, false, not, ◌&&◌, ◌||◌, Option, none, some, if◌then◌else◌, ◌==◌, ◌/=◌,
  nat_eq, string_eq, option_eq,
}
use cost_engine_orchestratio.Errors.{
  calculation_job_not_found, execution_attempt_not_found, execution_not_reconcilable,
  executor_status_unavailable, calculation_state_invariant,
}
use cost_engine_orchestratio.Exec.{
  Exec, pure, throw, gets, or_throw, require, ◌>>=◌, ◌>>◌, try_catch,
}
use cost_engine_orchestratio.Store.Status.{
  DatasetStatus, draft, building, JobStatus, running, succeeded, failed, AttemptStatus, dispatching,
  accepted, attempt_succeeded, attempt_failed, dataset_status_eq, job_status_eq, attempt_status_eq,
  definition_status_eq, is_terminal_attempt,
}
use cost_engine_orchestratio.Store.Tables.{ExecutionAttempt}
use cost_engine_orchestratio.Store.Transaction.{Env, Action, with_transaction}
use cost_engine_orchestratio.Reconciliation.Repository.{has_newer_execution_attempt}
use cost_engine_orchestratio.Preparation.Service.{invariant}
use cost_engine_orchestratio.Dispatch.Types.{
  ExecutionIdentity, ExecutorStatus, run_running, run_succeeded, run_failed, run_not_found,
  run_unavailable,
}
use cost_engine_orchestratio.Dispatch.Repository.{lock_execution_attempt, is_dispatchable}
use cost_engine_orchestratio.Dispatch.Recording.{job_matches}
use cost_engine_orchestratio.Dispatch.Run.{Executor, on_env}
use cost_engine_orchestratio.Reconciliation.Repository.{
  AttemptContext, ManualSelection, LockedJob, Terminal, success, failure, attempt_status_of,
  job_status_of, find_manual_selection, find_attempt_id_by_identity, load_attempt_context,
  lock_reconciliation_job, transition_dispatching_attempt_to_accepted,
  transition_attempt_to_terminal, transition_job_to_running, transition_job_to_terminal,
}

-- ReconciliationExecutorStatus: RUNNING or a terminal report.
pub data Report : Type 0 where
  still_running : Report
  terminal : Terminal → Report

pub record ReconciliationResult : Type 0 where
  pub dataset_version_id : String
  pub dataset_status : DatasetStatus
  pub job_id : String
  pub job_status : JobStatus
  pub execution_attempt_id : String
  pub attempt_number : ℕ
  pub attempt_status : AttemptStatus
  pub airflow_dag_id : String
  pub airflow_dag_run_id : String
  pub executor_status : Report

abbrev pub is_executor_backed : AttemptStatus → Bool
is_executor_backed t =
    t == dispatching || t == accepted || t == attempt_succeeded || t == attempt_failed

unfoldable pub result_from_durable_state :
    AttemptContext → JobStatus → AttemptStatus → Report → Action ReconciliationResult
result_from_durable_state c job_status attempt_status report = do
  invariant (c.dataset_status /= draft)
  pure (record {
    dataset_version_id = c.dataset_version_id;
    dataset_status = c.dataset_status;
    job_id = c.job_id;
    job_status = job_status;
    execution_attempt_id = c.execution_attempt_id;
    attempt_number = c.attempt_number;
    attempt_status = attempt_status;
    airflow_dag_id = c.airflow_dag_id;
    airflow_dag_run_id = c.airflow_dag_run_id;
    executor_status = report;
  })

-- the report that agrees with a terminal attempt
abbrev pub agrees : Report → AttemptStatus → Bool
agrees (terminal success) attempt_succeeded = true
agrees (terminal failure) attempt_failed = true
agrees _ _ = false

abbrev pub is_stale_running : AttemptContext → Report → Bool
is_stale_running phase_a still_running =
    phase_a.attempt_status == dispatching || phase_a.attempt_status == accepted
is_stale_running phase_a (terminal _) = false

-- the terminal report that an attempt stands for; only terminal attempts are asked
abbrev pub report_of : AttemptStatus → Report
report_of attempt_succeeded = terminal success
report_of attempt_failed = terminal failure
report_of _ = still_running

unfoldable pub confirm_terminal :
    AttemptContext
    → AttemptContext
    → LockedJob
    → ExecutionAttempt
    → Bool
    → Report
    → Action ReconciliationResult
confirm_terminal phase_a current job a newer report = do
  invariant (current.dataset_status /= draft)
  invariant (agrees report a.status || is_stale_running phase_a report)
  invariant (newer || job_matches job.job_status a.status)
  result_from_durable_state current job.job_status a.status (report_of a.status)

-- an attempt with the expected status and its job take the status of a terminal report
unfoldable pub terminalize :
    AttemptContext
    → LockedJob
    → ExecutionAttempt
    → AttemptStatus
    → (JobStatus → Bool)
    → Terminal
    → Action ReconciliationResult
terminalize current job a expected expected_job target = do
  attempt_updated ← transition_attempt_to_terminal a.id expected target
  job_updated ← transition_job_to_terminal job.job_id expected_job target
  invariant (attempt_updated && job_updated)
  result_from_durable_state current (job_status_of target) (attempt_status_of target)
      (terminal target)

unfoldable pub recover_dispatching :
    AttemptContext → LockedJob → ExecutionAttempt → Report → Action ReconciliationResult
recover_dispatching current job a still_running = do
  invariant (is_dispatchable job.job_status)
  attempt_updated ← transition_dispatching_attempt_to_accepted a.id
  job_updated ← transition_job_to_running job.job_id
  invariant (attempt_updated && job_updated)
  result_from_durable_state current running accepted still_running
recover_dispatching current job a (terminal target) = do
  invariant (is_dispatchable job.job_status)
  terminalize current job a dispatching is_dispatchable target

unfoldable pub finish_accepted :
    AttemptContext → LockedJob → ExecutionAttempt → Report → Action ReconciliationResult
finish_accepted current job a still_running = do
  invariant (job.job_status == running)
  result_from_durable_state current running accepted still_running
finish_accepted current job a (terminal target) = do
  invariant (job.job_status == running)
  terminalize current job a accepted (λ t. t == running) target

unfoldable pub apply_to_open :
    AttemptContext → LockedJob → ExecutionAttempt → Bool → Report → Action ReconciliationResult
apply_to_open current job a newer report = do
  invariant (current.dataset_status == building)
  invariant (not newer)
  if a.status == dispatching
      then recover_dispatching current job a report
      else if a.status == accepted
      then finish_accepted current job a report
      else throw calculation_state_invariant

unfoldable pub reconciliation_transaction : AttemptContext → Report → Action ReconciliationResult
reconciliation_transaction phase_a report = do
  found_job ← gets (lock_reconciliation_job phase_a.job_id)
  job ← or_throw found_job calculation_state_invariant
  found_attempt ← gets (lock_execution_attempt phase_a.execution_attempt_id)
  a ← or_throw found_attempt calculation_state_invariant
  invariant (a.job_id == job.job_id)
  invariant (
      job.dataset_version_id == phase_a.dataset_version_id
      && a.attempt_number == phase_a.attempt_number
      && a.airflow_dag_id == phase_a.airflow_dag_id
      && a.airflow_dag_run_id == phase_a.airflow_dag_run_id)
  found_current ← gets (load_attempt_context a.id)
  current ← or_throw found_current calculation_state_invariant
  newer ← gets (has_newer_execution_attempt job.job_id a.attempt_number)
  if is_terminal_attempt a.status
      then confirm_terminal phase_a current job a newer report
      else apply_to_open current job a newer report

unfoldable pub apply_reconciliation : AttemptContext → Report → Action ReconciliationResult
apply_reconciliation phase_a report = with_transaction (reconciliation_transaction phase_a report)

abbrev terminal_selection : ManualSelection → Option String
terminal_selection m =
    if m.job_status == succeeded || m.job_status == failed
    then m.latest_terminal_attempt_id
    else none

abbrev first_some : Option String → Option String → Option String
first_some (some a) other = some a
first_some none other = other

unfoldable pub select_attempt_for_reconciliation : String → Action String
select_attempt_for_reconciliation job_id = do
  found ← gets (find_manual_selection job_id)
  m ← or_throw found (calculation_job_not_found job_id)
  or_throw (first_some m.active_attempt_id (terminal_selection m))
      (execution_not_reconcilable job_id)

-- what the executor answered, if it is one of the statuses that reconciliation applies
abbrev pub report_from : ExecutorStatus → Option Report
report_from run_running = some still_running
report_from run_succeeded = some (terminal success)
report_from run_failed = some (terminal failure)
report_from run_not_found = none
report_from (run_unavailable _) = none

module _ {X : Type 0} (executor : Executor X) where
  open executor use {get_execution_status}

  -- any error of the executor is reported as its status being unavailable
  unfoldable pub lookup_executor_status : ExecutionIdentity → Exec (Env × X) ExecutorStatus
  lookup_executor_status identity =
      try_catch (get_execution_status identity) (λ _. throw executor_status_unavailable)

  unfoldable pub reconcile_execution_attempt_service : String → Exec (Env × X) ReconciliationResult
  reconcile_execution_attempt_service attempt_id = do
    found ← on_env (gets (load_attempt_context attempt_id))
    c ← or_throw found (execution_attempt_not_found attempt_id)
    require (is_executor_backed c.attempt_status) (execution_not_reconcilable c.job_id)
    require
        (c.dataset_status == building
          || (is_terminal_attempt c.attempt_status && c.dataset_status /= draft))
        calculation_state_invariant
    status ←
        lookup_executor_status
          (record { airflow_dag_id = c.airflow_dag_id; airflow_dag_run_id = c.airflow_dag_run_id })
    report ← or_throw (report_from status) executor_status_unavailable
    on_env (apply_reconciliation c report)

  unfoldable pub reconcile_calculation_job_service : String → Exec (Env × X) ReconciliationResult
  reconcile_calculation_job_service job_id = do
    attempt_id ← on_env (select_attempt_for_reconciliation job_id)
    reconcile_execution_attempt_service attempt_id

  unfoldable pub reconcile_execution_by_identity_service :
      ExecutionIdentity → Exec (Env × X) ReconciliationResult
  reconcile_execution_by_identity_service identity = do
    found ← on_env (gets (find_attempt_id_by_identity identity))
    attempt_id ← or_throw found (
        execution_attempt_not_found
          ((identity.airflow_dag_id ++ₛ "/") ++ₛ identity.airflow_dag_run_id))
    reconcile_execution_attempt_service attempt_id

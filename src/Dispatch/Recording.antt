-- ===== src/Dispatch/Recording.antt =====
-- `recordDispatchOutcome` of modules/calculation-job-run.service.ts: what the executor answered to a
-- dispatch is written to the attempt and its job, or found to be recorded already.
use cost_engine_orchestratio.Base.{
  String, Bool, true, false, ◌&&◌, ◌||◌, Option, none, some, if◌then◌else◌, ◌==◌, ◌/=◌, nat_eq,
  string_eq, option_eq,
}
use cost_engine_orchestratio.Errors.{calculation_state_invariant}
use cost_engine_orchestratio.Exec.{pure, gets, or_throw, ◌>>=◌, ◌>>◌}
use cost_engine_orchestratio.Store.Status.{
  DatasetStatus, draft, building, JobStatus, running, succeeded, failed, AttemptStatus, dispatching,
  accepted, attempt_succeeded, attempt_failed, dispatch_failed, dataset_status_eq, job_status_eq,
  attempt_status_eq, definition_status_eq, is_terminal_attempt,
}
use cost_engine_orchestratio.Store.Tables.{ExecutionAttempt}
use cost_engine_orchestratio.Store.Transaction.{Action, with_transaction}
use cost_engine_orchestratio.Reconciliation.Repository.{has_newer_execution_attempt}
use cost_engine_orchestratio.Preparation.Service.{invariant, only_snapshot}
use cost_engine_orchestratio.Dispatch.Types.{
  DispatchCommand, DispatchResult, dispatch_accepted, already_exists, dispatch_rejected,
  dispatch_unknown, RunDispatchOutcome, outcome_accepted, outcome_already_exists, outcome_unknown,
  DispatchContext, DurableRunAttempt, RecordOutcomeResult, recorded, rejection,
}
use cost_engine_orchestratio.Dispatch.Repository.{
  lock_dispatch_context, lock_execution_attempt, read_dataset_build_snapshot_ids,
  read_dataset_version_status, is_dispatchable, mark_execution_attempt_accepted,
  mark_calculation_job_running, mark_execution_attempt_dispatch_failed,
  record_unknown_dispatch_diagnostic,
}
use cost_engine_orchestratio.Dispatch.Service.{accepted_result}

-- `context.jobStatus === attempt.status`, between the codes of a job and those of an attempt
abbrev pub job_matches : JobStatus → AttemptStatus → Bool
job_matches succeeded attempt_succeeded = true
job_matches failed attempt_failed = true
job_matches _ _ = false

abbrev pub outcome_kind : DispatchResult → Option RunDispatchOutcome
outcome_kind dispatch_accepted = some outcome_accepted
outcome_kind already_exists = some outcome_already_exists
outcome_kind (dispatch_rejected _) = none
outcome_kind (dispatch_unknown _) = some outcome_unknown

-- commandAttempt
abbrev pub command_attempt : DispatchCommand → JobStatus → DurableRunAttempt
command_attempt c status = record {
  dataset_version_id = c.dataset_version_id;
  dataset_build_snapshot_id = c.dataset_build_snapshot_id;
  job_id = c.job_id;
  job_status = status;
  execution_attempt_id = c.execution_attempt_id;
  attempt_number = c.attempt_number;
  attempt_status = dispatching;
  airflow_dag_id = c.airflow_dag_id;
  airflow_dag_run_id = c.airflow_dag_run_id;
}

abbrev pub same_identity : DispatchCommand → DispatchContext → ExecutionAttempt → Bool
same_identity c context a =
    a.airflow_dag_id == c.airflow_dag_id
    && a.airflow_dag_run_id == c.airflow_dag_run_id
    && a.attempt_number == c.attempt_number
    && context.dataset_version_id == c.dataset_version_id
    && context.calculation_type_id == c.calculation_type_id
    && context.resolved_definition_id == some c.resolved_definition_id

-- a terminal attempt: reconciliation has decided it, and nothing is written
unfoldable pub late_outcome :
    DispatchCommand
    → DispatchContext
    → ExecutionAttempt
    → DatasetStatus
    → DispatchResult
    → Action RecordOutcomeResult
late_outcome c context a dataset_status outcome = do
  invariant (dataset_status /= draft)
  kind ← or_throw (outcome_kind outcome) calculation_state_invariant
  newer ← gets (has_newer_execution_attempt context.job_id a.attempt_number)
  invariant (newer || job_matches context.job_status a.status)
  pure (
      recorded (record {
        dataset_version_id = c.dataset_version_id;
        dataset_status = dataset_status;
        dataset_build_snapshot_id = c.dataset_build_snapshot_id;
        job_id = c.job_id;
        job_status = context.job_status;
        execution_attempt_id = a.id;
        attempt_number = a.attempt_number;
        attempt_status = a.status;
        airflow_dag_id = a.airflow_dag_id;
        airflow_dag_run_id = a.airflow_dag_run_id;
        dispatch_outcome = kind;
      }))

unfoldable pub confirm_dispatch :
    DispatchCommand
    → DispatchContext
    → ExecutionAttempt
    → RunDispatchOutcome
    → Action RecordOutcomeResult
confirm_dispatch c context a outcome = do
  invariant (a.status == dispatching && is_dispatchable context.job_status)
  attempt_updated ← mark_execution_attempt_accepted a.id
  job_updated ← mark_calculation_job_running context.job_id
  invariant (attempt_updated && job_updated)
  pure (recorded (accepted_result (command_attempt c context.job_status) outcome))

unfoldable pub reject_dispatch :
    DispatchContext → ExecutionAttempt → String → Action RecordOutcomeResult
reject_dispatch context a message =
    if a.status == dispatch_failed && is_dispatchable context.job_status
    then pure rejection
    else (do
      invariant (a.status == dispatching && is_dispatchable context.job_status)
      updated ← mark_execution_attempt_dispatch_failed a.id message
      invariant updated
      pure rejection)

unfoldable pub note_unknown_dispatch :
    DispatchCommand → DispatchContext → ExecutionAttempt → String → Action RecordOutcomeResult
note_unknown_dispatch c context a message = do
  invariant (a.status == dispatching && is_dispatchable context.job_status)
  updated ← record_unknown_dispatch_diagnostic a.id message
  invariant updated
  pure (
      recorded (record {
        dataset_version_id = c.dataset_version_id;
        dataset_status = building;
        dataset_build_snapshot_id = c.dataset_build_snapshot_id;
        job_id = c.job_id;
        job_status = context.job_status;
        execution_attempt_id = c.execution_attempt_id;
        attempt_number = c.attempt_number;
        attempt_status = dispatching;
        airflow_dag_id = c.airflow_dag_id;
        airflow_dag_run_id = c.airflow_dag_run_id;
        dispatch_outcome = outcome_unknown;
      }))

unfoldable pub record_by_outcome :
    DispatchCommand
    → DispatchContext
    → ExecutionAttempt
    → DispatchResult
    → Action RecordOutcomeResult
record_by_outcome c context a dispatch_accepted = confirm_dispatch c context a outcome_accepted
record_by_outcome c context a already_exists = confirm_dispatch c context a outcome_already_exists
record_by_outcome c context a (dispatch_rejected message) = reject_dispatch context a message
record_by_outcome c context a (dispatch_unknown message) = note_unknown_dispatch c context a message

-- an attempt that is not terminal
unfoldable pub open_outcome :
    DispatchCommand
    → DispatchContext
    → ExecutionAttempt
    → DatasetStatus
    → DispatchResult
    → Action RecordOutcomeResult
open_outcome c context a dataset_status outcome = do
  invariant (dataset_status == building)
  if a.status == accepted && context.job_status == running
      then pure (recorded (accepted_result (command_attempt c context.job_status) outcome_accepted))
      else record_by_outcome c context a outcome

unfoldable pub record_outcome_transaction :
    DispatchCommand → DispatchResult → Action RecordOutcomeResult
record_outcome_transaction c outcome = do
  found_context ← gets (lock_dispatch_context c.job_id)
  context ← or_throw found_context calculation_state_invariant
  found_attempt ← gets (lock_execution_attempt c.execution_attempt_id)
  a ← or_throw found_attempt calculation_state_invariant
  invariant (a.job_id == c.job_id)
  invariant (same_identity c context a)
  found_status ← gets (read_dataset_version_status c.dataset_version_id)
  snapshot_ids ← gets (read_dataset_build_snapshot_ids c.dataset_version_id)
  dataset_status ← or_throw found_status calculation_state_invariant
  invariant (only_snapshot snapshot_ids == some c.dataset_build_snapshot_id)
  if is_terminal_attempt a.status
      then late_outcome c context a dataset_status outcome
      else open_outcome c context a dataset_status outcome

unfoldable pub record_dispatch_outcome :
    DispatchCommand → DispatchResult → Action RecordOutcomeResult
record_dispatch_outcome c outcome = with_transaction (record_outcome_transaction c outcome)

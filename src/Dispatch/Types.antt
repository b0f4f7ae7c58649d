-- ===== src/Dispatch/Types.antt =====
-- The records and unions of executors/calculation-executor.ts, modules/calculation-job-run.service.ts,
-- modules/calculation-job-run.repository.ts and modules/calculation-job.types.ts.
use cost_engine_orchestratio.Base.{ℕ, String, Option, List, nat_eq, string_eq, option_eq}
use cost_engine_orchestratio.Store.Status.{
  DatasetStatus, JobStatus, AttemptStatus, dataset_status_eq, job_status_eq, attempt_status_eq,
  definition_status_eq,
}
use cost_engine_orchestratio.Store.Tables.{ExecutionAttempt}

-- FrozenSnapshotDependency, and FrozenUpstreamDatasetVersion with the same fields
pub record FrozenDependency : Type 0 where
  pub domain : String
  pub company_code : String
  pub fiscal_year : ℕ
  pub period : String
  pub series_id : String
  pub dataset_version_id : String
  pub version : ℕ

pub record DispatchCommand : Type 0 where
  pub execution_attempt_id : String
  pub attempt_number : ℕ
  pub job_id : String
  pub dataset_version_id : String
  pub dataset_build_snapshot_id : String
  pub calculation_type_id : String
  pub calculation_type_code : String
  pub resolved_definition_id : String
  pub airflow_dag_id : String
  pub airflow_dag_run_id : String
  pub upstream_dataset_versions : List FrozenDependency

pub data DispatchResult : Type 0 where
  dispatch_accepted already_exists : DispatchResult
  dispatch_rejected dispatch_unknown : String → DispatchResult

pub record ExecutionIdentity : Type 0 where
  pub airflow_dag_id : String
  pub airflow_dag_run_id : String

pub data ExecutorStatus : Type 0 where
  run_running run_succeeded run_failed run_not_found : ExecutorStatus
  run_unavailable : String → ExecutorStatus

pub data RunDispatchOutcome : Type 0 where
  outcome_accepted outcome_already_exists outcome_unknown : RunDispatchOutcome

pub record RoutingState : Type 0 where
  pub job_id : String
  pub job_status : JobStatus
  pub dataset_version_id : String
  pub dataset_status : DatasetStatus
  pub resolved_definition_id : Option String
  pub snapshot_ids : List String
  pub active_attempt : Option ExecutionAttempt

pub record DispatchContext : Type 0 where
  pub job_id : String
  pub job_status : JobStatus
  pub dataset_version_id : String
  pub dataset_status : DatasetStatus
  pub calculation_type_id : String
  pub calculation_type_code : String
  pub resolved_definition_id : Option String

pub record DurableRunAttempt : Type 0 where
  pub dataset_version_id : String
  pub dataset_build_snapshot_id : String
  pub job_id : String
  pub job_status : JobStatus
  pub execution_attempt_id : String
  pub attempt_number : ℕ
  pub attempt_status : AttemptStatus
  pub airflow_dag_id : String
  pub airflow_dag_run_id : String

pub record RunResult : Type 0 where
  pub dataset_version_id : String
  pub dataset_status : DatasetStatus
  pub dataset_build_snapshot_id : String
  pub job_id : String
  pub job_status : JobStatus
  pub execution_attempt_id : String
  pub attempt_number : ℕ
  pub attempt_status : AttemptStatus
  pub airflow_dag_id : String
  pub airflow_dag_run_id : String
  pub dispatch_outcome : RunDispatchOutcome

pub data BeginDispatchResult : Type 0 where
  dispatch : DispatchCommand → BeginDispatchResult
  already_accepted : RunResult → BeginDispatchResult

pub data RecordOutcomeResult : Type 0 where
  recorded : RunResult → RecordOutcomeResult
  rejection : RecordOutcomeResult

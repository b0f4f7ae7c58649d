-- ===== src/Preparation/Types.antt =====
-- The records of modules/calculation-job-preparation.repository.ts and the result of a preparation.
use cost_engine_orchestratio.Base.{ℕ, String, Option, List, nat_eq, string_eq, option_eq}
use cost_engine_orchestratio.Store.Status.{
  DatasetStatus, JobStatus, dataset_status_eq, job_status_eq, attempt_status_eq,
  definition_status_eq,
}

pub record OutputDatasetIdentity : Type 0 where
  pub domain : String
  pub company_code : String
  pub fiscal_year : ℕ
  pub period : String

pub record JobContext : Type 0 where
  pub id : String
  pub status : JobStatus
  pub calculation_type_id : String
  pub calculation_type_domain : String
  pub calculation_type_code : String

pub record CalculationRunContext : Type 0 where
  pub selected_job_id : String
  pub dataset_version_id : String
  pub dataset_status : DatasetStatus
  pub output_identity : OutputDatasetIdentity
  pub jobs : List JobContext

pub record DatasetFreezeState : Type 0 where
  pub snapshot_ids : List String
  pub job_count : ℕ
  pub resolved_job_count : ℕ

pub record LockedSelectedJob : Type 0 where
  pub id : String
  pub dataset_version_id : String
  pub status : JobStatus
  pub calculation_type_id : String
  pub resolved_definition_id : Option String
  pub airflow_dag_id : String

pub record PreparedCalculationRun : Type 0 where
  pub dataset_version_id : String
  pub dataset_build_snapshot_id : String
  pub job_id : String
  pub execution_attempt_id : String
  pub attempt_number : ℕ
  pub airflow_dag_id : String
  pub airflow_dag_run_id : String

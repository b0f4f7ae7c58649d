-- ===== src/Store/Tables.antt =====
-- The tables of migrations/1788700000000_orchestration-schema-v2.ts that the services read and
-- write, as lists of rows. Columns that no service names (created_at, frozen_at) are left out.
use cost_engine_orchestratio.Base.{ℕ, String, Bool, Option, List}
use cost_engine_orchestratio.Store.Status.{
  DatasetStatus, JobStatus, AttemptStatus, DefinitionStatus,
}

pub record DatasetSeries : Type 0 where
  pub id : String
  pub domain : String
  pub company_code : String
  pub fiscal_year : ℕ
  pub period : String
  pub last_allocated_version : ℕ

pub record DatasetVersion : Type 0 where
  pub id : String
  pub series_id : String
  pub version : ℕ
  pub status : DatasetStatus
  pub building_started_at : Option ℕ
  pub validating_at : Option ℕ
  pub published_at : Option ℕ
  pub rejected_at : Option ℕ
  pub abandoned_at : Option ℕ

pub record CalculationType : Type 0 where
  pub id : String
  pub domain : String
  pub code : String
  pub is_active : Bool
  pub airflow_dag_id : String

pub record DependencyDefinition : Type 0 where
  pub id : String
  pub calculation_type_id : String
  pub version : ℕ
  pub status : DefinitionStatus

pub record DefinitionDependency : Type 0 where
  pub definition_id : String
  pub required_domain : String

pub record CalculationJob : Type 0 where
  pub id : String
  pub dataset_version_id : String
  pub calculation_type_id : String
  pub status : JobStatus
  pub resolved_definition_id : Option String
  pub started_at : Option ℕ
  pub finished_at : Option ℕ

pub record BuildSnapshot : Type 0 where
  pub id : String
  pub dataset_version_id : String

pub record SnapshotDependency : Type 0 where
  pub snapshot_id : String
  pub series_id : String
  pub dataset_version_id : String

pub record ExecutionAttempt : Type 0 where
  pub id : String
  pub job_id : String
  pub attempt_number : ℕ
  pub status : AttemptStatus
  pub airflow_dag_id : String
  pub airflow_dag_run_id : String
  pub dispatch_started_at : Option ℕ
  pub accepted_at : Option ℕ
  pub finished_at : Option ℕ
  pub last_dispatch_error : Option String

pub record Database : Type 0 where
  pub series : List DatasetSeries
  pub versions : List DatasetVersion
  pub types : List CalculationType
  pub definitions : List DependencyDefinition
  pub definition_dependencies : List DefinitionDependency
  pub jobs : List CalculationJob
  pub snapshots : List BuildSnapshot
  pub snapshot_dependencies : List SnapshotDependency
  pub attempts : List ExecutionAttempt

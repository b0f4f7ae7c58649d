-- ===== src/Preparation/Repository.antt =====
-- The queries of modules/calculation-job-preparation.repository.ts, one definition for each.
use cost_engine_orchestratio.Base.{
  ℕ, ◌+◌, String, Bool, not, ◌&&◌, Option, none, some, List, [], ◌∷◌, map, ltb, if◌then◌else◌, ◌==◌,
  ◌/=◌, nat_eq, string_eq, option_eq, select, find_row, any_row, count_rows, max_of, latest,
  sort_by, distinct,
}
use cost_engine_orchestratio.Store.Status.{
  draft, building, published, prepared, definition_published, dataset_status_eq, job_status_eq,
  attempt_status_eq, definition_status_eq, is_active_attempt,
}
use cost_engine_orchestratio.Store.Tables.{
  DatasetSeries, DatasetVersion, CalculationType, DependencyDefinition, CalculationJob,
  ExecutionAttempt,
}
use cost_engine_orchestratio.Store.Transaction.{Env, Action}
use cost_engine_orchestratio.Store.Updates.{update_jobs, update_versions, insert_attempt}
use cost_engine_orchestratio.Base.Query.{◌>>=◌}
use cost_engine_orchestratio.Preparation.Types.{
  OutputDatasetIdentity, JobContext, CalculationRunContext, DatasetFreezeState, LockedSelectedJob,
}

-- JOIN calculation_types ct ON ct.id = cj.calculation_type_id
unfoldable pub join_types : List CalculationType → List CalculationJob → List JobContext
join_types types [] = []
join_types types (j ∷ js) = elim (find_row (λ t. t.id == j.calculation_type_id) types) [
  | none ↦ join_types types js
  | some t ↦
      record {
        id = j.id;
        status = j.status;
        calculation_type_id = j.calculation_type_id;
        calculation_type_domain = t.domain;
        calculation_type_code = t.code;
      }
      ∷ join_types types js
]

-- ORDER BY ct.domain, ct.code; no two calculation types agree on both
by_type : (String → String → Bool) → JobContext → JobContext → Bool
by_type le a b =
    if a.calculation_type_domain == b.calculation_type_domain
    then le a.calculation_type_code b.calculation_type_code
    else le a.calculation_type_domain b.calculation_type_domain

abbrev identity_of : DatasetSeries → OutputDatasetIdentity
identity_of ds = record {
  domain = ds.domain;
  company_code = ds.company_code;
  fiscal_year = ds.fiscal_year;
  period = ds.period;
}

unfoldable pub load_calculation_run_context : String → Env → Option CalculationRunContext
unfolding by_type
load_calculation_run_context job_id s = do
  job ← find_row (λ j. j.id == job_id) s.db.jobs
  v ← find_row (λ v. v.id == job.dataset_version_id) s.db.versions
  ds ← find_row (λ d. d.id == v.series_id) s.db.series
  let siblings = select (λ j. j.dataset_version_id == v.id) s.db.jobs
  some (record {
    selected_job_id = job.id;
    dataset_version_id = v.id;
    dataset_status = v.status;
    output_identity = identity_of ds;
    jobs = sort_by (by_type s.collation) (join_types s.db.types siblings);
  })

unfoldable pub lock_calculation_type : String → Env → Option CalculationType
lock_calculation_type type_id s = find_row (λ t. t.id == type_id) s.db.types

-- A published definition of one of the types that no later published one supersedes. The query
-- orders the rows by type; they are one to a type, and no caller depends on their order.
unfoldable pub find_latest_published_definitions : List String → Env → List DependencyDefinition
find_latest_published_definitions type_ids s =
    select
      (λ d.
        d.status == definition_published
        && any_row (λ t. t == d.calculation_type_id) type_ids
        && not (
            any_row
              (λ e.
                e.status == definition_published
                && e.calculation_type_id == d.calculation_type_id
                && ltb d.version e.version)
              s.db.definitions))
      s.db.definitions

unfoldable pub find_required_domains : List String → Env → List String
find_required_domains definition_ids s = sort_by s.collation (
    distinct ◌==◌ (
      map (λ r. r.required_domain)
        (select (λ r. any_row (λ d. d == r.definition_id) definition_ids)
          s.db.definition_dependencies)))

unfoldable pub lock_upstream_dataset_series : OutputDatasetIdentity → Env → Option DatasetSeries
lock_upstream_dataset_series r s =
    find_row
      (λ d.
        d.domain == r.domain
        && d.company_code == r.company_code
        && d.fiscal_year == r.fiscal_year
        && d.period == r.period)
      s.db.series

unfoldable pub find_latest_published_upstream_version : String → Env → Option DatasetVersion
find_latest_published_upstream_version series_id s =
    latest (λ v. v.version)
      (select (λ v. v.series_id == series_id && v.status == published) s.db.versions)

unfoldable pub lock_output_dataset_version : String → Env → Option DatasetVersion
lock_output_dataset_version version_id s = find_row (λ v. v.id == version_id) s.db.versions

abbrev is_resolved : CalculationJob → Bool
is_resolved j = j.resolved_definition_id /= none

-- The ids are in the table's order: every caller wants there to be at most one.
unfoldable pub read_dataset_freeze_state : String → Env → DatasetFreezeState
read_dataset_freeze_state version_id s = record {
  snapshot_ids = map (λ r. r.id) (select (λ r. r.dataset_version_id == version_id) s.db.snapshots);
  job_count = count_rows (λ j. j.dataset_version_id == version_id) s.db.jobs;
  resolved_job_count =
      count_rows (λ j. j.dataset_version_id == version_id && is_resolved j) s.db.jobs;
}

unfoldable pub persist_resolved_definition :
    (version_id job_id type_id definition_id : String) → Action Bool
persist_resolved_definition version_id job_id type_id definition_id =
    update_jobs
      (λ j.
        j.id == job_id
        && j.dataset_version_id == version_id
        && j.calculation_type_id == type_id
        && j.resolved_definition_id == none)
      (λ now j. record j { resolved_definition_id = some definition_id })

unfoldable pub transition_dataset_version_to_building : String → Action Bool
transition_dataset_version_to_building version_id =
    update_versions (λ v. v.id == version_id && v.status == draft)
      (λ now v. record v { status = building; building_started_at = some now })

unfoldable pub lock_selected_calculation_job : String → Env → Option LockedSelectedJob
lock_selected_calculation_job job_id s = do
  j ← find_row (λ j. j.id == job_id) s.db.jobs
  t ← find_row (λ t. t.id == j.calculation_type_id) s.db.types
  some (record {
    id = j.id;
    dataset_version_id = j.dataset_version_id;
    status = j.status;
    calculation_type_id = j.calculation_type_id;
    resolved_definition_id = j.resolved_definition_id;
    airflow_dag_id = t.airflow_dag_id;
  })

unfoldable pub find_active_execution_attempt : String → Env → Option ExecutionAttempt
find_active_execution_attempt job_id s =
    find_row (λ a. a.job_id == job_id && is_active_attempt a.status) s.db.attempts

unfoldable pub allocate_next_attempt_number : String → Env → ℕ
allocate_next_attempt_number job_id s =
    max_of (λ a. a.attempt_number) (select (λ a. a.job_id == job_id) s.db.attempts) + 1

unfoldable pub insert_prepared_execution_attempt :
    (id job_id : String) (attempt_number : ℕ) (dag_id dag_run_id : String) → Action (Unit {0})
insert_prepared_execution_attempt id job_id attempt_number dag_id dag_run_id =
    insert_attempt (record {
      id = id;
      job_id = job_id;
      attempt_number = attempt_number;
      status = prepared;
      airflow_dag_id = dag_id;
      airflow_dag_run_id = dag_run_id;
      dispatch_started_at = none;
      accepted_at = none;
      finished_at = none;
      last_dispatch_error = none;
    })

-- ===== src/Preparation/Service.antt =====
-- modules/calculation-job-preparation.service.ts: a transaction that freezes the build of a DRAFT
-- dataset version on its first run, and leaves the selected job with a PREPARED attempt.
use cost_engine_orchestratio.Base.{
  String, Bool, true, false, not, Option, none, some, List, [], ◌∷◌, map, if◌then◌else◌, ◌==◌,
  nat_eq, string_eq, option_eq, length, select, find_last, any_row, all_rows,
}
use cost_engine_orchestratio.Errors.{
  calculation_job_not_found, dependency_definition_not_ready, dependency_not_ready,
  job_not_runnable, calculation_state_invariant,
}
use cost_engine_orchestratio.Exec.{pure, throw, gets, or_throw, require, ◌>>=◌, ◌>>◌}
use cost_engine_orchestratio.Store.Status.{
  draft, building, pending, prepared, dataset_status_eq, job_status_eq, attempt_status_eq,
  definition_status_eq,
}
use cost_engine_orchestratio.Store.Tables.{
  DatasetSeries, DatasetVersion, DependencyDefinition, ExecutionAttempt,
}
use cost_engine_orchestratio.Store.Transaction.{Env, Action, with_transaction, random_uuid}
use cost_engine_orchestratio.Store.Updates.{insert_snapshot, insert_snapshot_dependency}
use Prim.Native.String.{◌++◌ as ◌++ₛ◌}
use cost_engine_orchestratio.Preparation.Types.{
  OutputDatasetIdentity, JobContext, CalculationRunContext, LockedSelectedJob,
  PreparedCalculationRun,
}
use cost_engine_orchestratio.Preparation.Repository.{
  load_calculation_run_context, lock_calculation_type, find_latest_published_definitions,
  find_required_domains, lock_upstream_dataset_series, find_latest_published_upstream_version,
  lock_output_dataset_version, read_dataset_freeze_state, persist_resolved_definition,
  transition_dataset_version_to_building, lock_selected_calculation_job,
  find_active_execution_attempt, allocate_next_attempt_number, insert_prepared_execution_attempt,
}

-- `if (!b) invariant(…);`
abbrev pub invariant : Bool → Action (Unit {0})
invariant b = require b calculation_state_invariant

unfoldable pub validate_immutable_context : CalculationRunContext → Action (Unit {0})
validate_immutable_context c = do
  invariant (not (length c.jobs == 0))
  invariant (any_row (λ j. j.id == c.selected_job_id) c.jobs)
  invariant (all_rows (λ j. j.calculation_type_domain == c.output_identity.domain) c.jobs)

-- `state.snapshotIds[0]!` after the test that there is exactly one
abbrev pub only_snapshot : List String → Option String
only_snapshot (id ∷ []) = some id
only_snapshot _ = none

unfoldable pub require_building_snapshot : CalculationRunContext → Action String
require_building_snapshot c = do
  state ← gets (read_dataset_freeze_state c.dataset_version_id)
  snapshot_id ← or_throw (only_snapshot state.snapshot_ids) calculation_state_invariant
  invariant (state.job_count == length c.jobs)
  invariant (not (state.job_count == 0))
  invariant (state.resolved_job_count == state.job_count)
  pure snapshot_id

-- `definitionsByType.get(typeId)`
abbrev pub definition_for : List DependencyDefinition → String → Option DependencyDefinition
definition_for definitions type_id = find_last (λ d. d.calculation_type_id == type_id) definitions

unfoldable pub freeze_jobs :
    String → List DependencyDefinition → List JobContext → Action (Unit {0})
freeze_jobs version_id definitions [] = pure tt
freeze_jobs version_id definitions (job ∷ jobs) = do
  definition ←
      or_throw (definition_for definitions job.calculation_type_id) calculation_state_invariant
  updated ← persist_resolved_definition version_id job.id job.calculation_type_id definition.id
  invariant updated
  freeze_jobs version_id definitions jobs

-- `upstreamVersions.get(series.id)`
abbrev pub version_for : List DatasetVersion → String → Option DatasetVersion
version_for versions series_id = find_last (λ v. v.series_id == series_id) versions

unfoldable pub freeze_dependencies :
    String → List DatasetVersion → List DatasetSeries → Action (Unit {0})
freeze_dependencies snapshot_id versions [] = pure tt
freeze_dependencies snapshot_id versions (series ∷ rest) = do
  version ← or_throw (version_for versions series.id) calculation_state_invariant
  insert_snapshot_dependency
      (record { snapshot_id = snapshot_id; series_id = series.id; dataset_version_id = version.id })
  freeze_dependencies snapshot_id versions rest

unfoldable pub freeze_draft_build :
    CalculationRunContext
    → List DependencyDefinition
    → List DatasetSeries
    → List DatasetVersion
    → Action String
freeze_draft_build c definitions series versions = do
  state ← gets (read_dataset_freeze_state c.dataset_version_id)
  invariant (length state.snapshot_ids == 0)
  invariant (state.job_count == length c.jobs)
  invariant (not (state.job_count == 0))
  invariant (state.resolved_job_count == 0)
  freeze_jobs c.dataset_version_id definitions c.jobs
  snapshot_id ← random_uuid
  insert_snapshot (record { id = snapshot_id; dataset_version_id = c.dataset_version_id })
  freeze_dependencies snapshot_id versions series
  transitioned ← transition_dataset_version_to_building c.dataset_version_id
  invariant transitioned
  pure snapshot_id

-- the loop that locks each job's calculation type
unfoldable pub lock_types : List JobContext → Action (Unit {0})
lock_types [] = pure tt
lock_types (job ∷ jobs) = do
  found ← gets (lock_calculation_type job.calculation_type_id)
  locked ← or_throw found calculation_state_invariant
  invariant (locked.domain == job.calculation_type_domain)
  invariant (locked.code == job.calculation_type_code)
  lock_types jobs

abbrev is_some {ℓ} : {A : Type ℓ} → Option A → Bool
is_some none = false
is_some (some _) = true

-- `domain/code` of the jobs that have no published definition
unfoldable pub missing_definition_codes : List DependencyDefinition → List JobContext → List String
missing_definition_codes definitions jobs =
    map (λ j. (j.calculation_type_domain ++ₛ "/") ++ₛ j.calculation_type_code)
      (select (λ j. not (is_some (definition_for definitions j.calculation_type_id))) jobs)

-- What a loop over requirements found, and what is missing.
pub record Found (A : Type 0) : Type 0 where
  pub found : List A
  pub missing : List String

unfoldable pub lock_series : OutputDatasetIdentity → List String → Env → Found DatasetSeries
lock_series identity [] s = record { found = []; missing = [] }
lock_series identity (domain ∷ domains) s =
    let rest = lock_series identity domains s in
    elim (lock_upstream_dataset_series (record identity { domain = domain }) s) [
      | some series ↦ record { found = series ∷ rest.found; missing = rest.missing }
      | none ↦ record { found = rest.found; missing = domain ∷ rest.missing }
    ]

unfoldable pub find_versions : List DatasetSeries → Env → Found DatasetVersion
find_versions [] s = record { found = []; missing = [] }
find_versions (series ∷ rest_series) s =
    let rest = find_versions rest_series s in
    elim (find_latest_published_upstream_version series.id s) [
      | some version ↦ record { found = version ∷ rest.found; missing = rest.missing }
      | none ↦ record { found = rest.found; missing = series.domain ∷ rest.missing }
    ]

unfoldable pub initialize_or_reuse_draft_dataset : CalculationRunContext → Action String
initialize_or_reuse_draft_dataset c = do
  lock_types c.jobs
  definitions ← gets (find_latest_published_definitions (map (λ j. j.calculation_type_id) c.jobs))
  let missing_codes = missing_definition_codes definitions c.jobs
  require (length missing_codes == 0) (dependency_definition_not_ready missing_codes)
  domains ← gets (find_required_domains (map (λ d. d.id) definitions))
  series ← gets (lock_series c.output_identity domains)
  require (length series.missing == 0) (dependency_not_ready series.missing)
  versions ← gets (find_versions series.found)
  require (length versions.missing == 0) (dependency_not_ready versions.missing)
  found ← gets (lock_output_dataset_version c.dataset_version_id)
  dataset ← or_throw found calculation_state_invariant
  if dataset.status == draft
      then freeze_draft_build c definitions series.found versions.found
      else do
        require (dataset.status == building) (job_not_runnable c.selected_job_id)
        require_building_snapshot c

unfoldable pub reuse_building_dataset : CalculationRunContext → Action String
reuse_building_dataset c = do
  found ← gets (lock_output_dataset_version c.dataset_version_id)
  dataset ← or_throw found calculation_state_invariant
  require (dataset.status == building) (job_not_runnable c.selected_job_id)
  require_building_snapshot c

abbrev pub dag_run_id : String → String
dag_run_id attempt_id = "cost-engine-" ++ₛ attempt_id

-- A fresh PREPARED attempt for a job that has no active one.
unfoldable pub prepare_new_attempt :
    String → String → LockedSelectedJob → Action PreparedCalculationRun
prepare_new_attempt version_id snapshot_id job = do
  attempt_number ← gets (allocate_next_attempt_number job.id)
  attempt_id ← random_uuid
  insert_prepared_execution_attempt attempt_id job.id attempt_number job.airflow_dag_id
      (dag_run_id attempt_id)
  pure (record {
    dataset_version_id = version_id;
    dataset_build_snapshot_id = snapshot_id;
    job_id = job.id;
    execution_attempt_id = attempt_id;
    attempt_number = attempt_number;
    airflow_dag_id = job.airflow_dag_id;
    airflow_dag_run_id = dag_run_id attempt_id;
  })

unfoldable pub reuse_prepared_attempt :
    CalculationRunContext
    → String
    → LockedSelectedJob
    → ExecutionAttempt
    → Action PreparedCalculationRun
reuse_prepared_attempt c snapshot_id job attempt = do
  require (attempt.status == prepared) (job_not_runnable job.id)
  pure (record {
    dataset_version_id = c.dataset_version_id;
    dataset_build_snapshot_id = snapshot_id;
    job_id = job.id;
    execution_attempt_id = attempt.id;
    attempt_number = attempt.attempt_number;
    airflow_dag_id = attempt.airflow_dag_id;
    airflow_dag_run_id = attempt.airflow_dag_run_id;
  })

unfoldable pub prepare_selected_job_attempt :
    CalculationRunContext → String → Action PreparedCalculationRun
prepare_selected_job_attempt c snapshot_id = do
  found ← gets (lock_selected_calculation_job c.selected_job_id)
  job ← or_throw found calculation_state_invariant
  invariant (job.dataset_version_id == c.dataset_version_id)
  require (job.status == pending) (job_not_runnable c.selected_job_id)
  active ← gets (find_active_execution_attempt job.id)
  elim active [
    | some attempt ↦ reuse_prepared_attempt c snapshot_id job attempt
    | none ↦ prepare_new_attempt c.dataset_version_id snapshot_id job
  ]

-- the dataset's build snapshot, by its status as loaded before any lock
unfoldable pub obtain_snapshot : CalculationRunContext → Action String
obtain_snapshot c =
    if c.dataset_status == draft
    then initialize_or_reuse_draft_dataset c
    else if c.dataset_status == building
    then reuse_building_dataset c
    else throw (job_not_runnable c.selected_job_id)

unfoldable pub prepare_calculation_job_run : String → Action PreparedCalculationRun
prepare_calculation_job_run job_id = do
  found ← gets (load_calculation_run_context job_id)
  c ← or_throw found (calculation_job_not_found job_id)
  validate_immutable_context c
  snapshot_id ← obtain_snapshot c
  prepare_selected_job_attempt c snapshot_id

unfoldable pub prepare_calculation_job_run_service : String → Action PreparedCalculationRun
prepare_calculation_job_run_service job_id = with_transaction (prepare_calculation_job_run job_id)

-- ===== src/Store/Updates.antt =====
-- UPDATE and INSERT on the tables that the services write. An UPDATE returns the source's
-- `result.rows.length === 1`. An INSERT fails on the uniqueness constraints of
-- migrations/1788700000000_orchestration-schema-v2.ts; foreign keys are not modelled.
use cost_engine_orchestratio.Base.{
  ℕ, Bool, not, ◌&&◌, [], ◌∷◌, ◌++◌, ◌==◌, nat_eq, string_eq, map, select, List, if◌then◌else◌,
  any_row, update_rows, count_rows,
}
use cost_engine_orchestratio.Errors.{unique_violation}
use cost_engine_orchestratio.Exec.{pure, modify, gets, require, ◌>>=◌, ◌>>◌}
use cost_engine_orchestratio.Exec.Commits.{Commits}
use cost_engine_orchestratio.Store.Status.{
  is_active_attempt, attempt_status_eq, dataset_status_eq, is_active_dataset,
}
use cost_engine_orchestratio.Store.Tables.{
  DatasetSeries, Database, DatasetVersion, CalculationJob, ExecutionAttempt, BuildSnapshot,
  SnapshotDependency,
}
use cost_engine_orchestratio.Store.Transaction.{Env, Action, write}

-- The tables after an UPDATE.
abbrev pub attempts_set :
    (ExecutionAttempt → Bool) → (ExecutionAttempt → ExecutionAttempt) → Database → Database
attempts_set cond set db = record db { attempts = update_rows cond set db.attempts }

abbrev pub jobs_set :
    (CalculationJob → Bool) → (CalculationJob → CalculationJob) → Database → Database
jobs_set cond set db = record db { jobs = update_rows cond set db.jobs }

abbrev pub versions_set :
    (DatasetVersion → Bool) → (DatasetVersion → DatasetVersion) → Database → Database
versions_set cond set db = record db { versions = update_rows cond set db.versions }

-- UPDATE execution_attempts SET … WHERE … RETURNING id; `set` is given NOW().
unfoldable pub update_attempts :
    (ExecutionAttempt → Bool) → (ℕ → ExecutionAttempt → ExecutionAttempt) → Action Bool
update_attempts cond set = do
  matched ← gets (λ s. count_rows cond s.db.attempts)
  now ← gets (λ s. s.now)
  modify (write (attempts_set cond (set now)))
  pure (matched == 1)

unfoldable pub update_jobs :
    (CalculationJob → Bool) → (ℕ → CalculationJob → CalculationJob) → Action Bool
update_jobs cond set = do
  matched ← gets (λ s. count_rows cond s.db.jobs)
  now ← gets (λ s. s.now)
  modify (write (jobs_set cond (set now)))
  pure (matched == 1)

unfoldable pub update_versions :
    (DatasetVersion → Bool) → (ℕ → DatasetVersion → DatasetVersion) → Action Bool
update_versions cond set = do
  matched ← gets (λ s. count_rows cond s.db.versions)
  now ← gets (λ s. s.now)
  modify (write (versions_set cond (set now)))
  pure (matched == 1)

abbrev same_run : ExecutionAttempt → ExecutionAttempt → Bool
same_run a b = a.airflow_dag_id == b.airflow_dag_id && a.airflow_dag_run_id == b.airflow_dag_run_id

-- INSERT INTO execution_attempts
unfoldable pub insert_attempt : ExecutionAttempt → Action (Unit {0})
insert_attempt a = do
  rows ← gets (λ s. s.db.attempts)
  require (not (any_row (λ b. b.id == a.id) rows)) (unique_violation "execution_attempts_pkey")
  require (not (any_row (λ b. b.job_id == a.job_id && b.attempt_number == a.attempt_number) rows))
      (unique_violation "uq_execution_attempt_job_number")
  require (not (any_row (same_run a) rows)) (unique_violation "uq_execution_attempt_airflow_run")
  require
      (not (
        is_active_attempt a.status
        && any_row (λ b. b.job_id == a.job_id && is_active_attempt b.status) rows))
      (unique_violation "uq_execution_attempt_active_job")
  modify (write (λ db. record db { attempts = db.attempts ++ a ∷ [] }))

-- INSERT INTO dataset_build_snapshots
unfoldable pub insert_snapshot : BuildSnapshot → Action (Unit {0})
insert_snapshot r = do
  rows ← gets (λ s. s.db.snapshots)
  require (not (any_row (λ b. b.id == r.id) rows)) (unique_violation "dataset_build_snapshots_pkey")
  require (not (any_row (λ b. b.dataset_version_id == r.dataset_version_id) rows))
      (unique_violation "uq_dataset_build_snapshot_version")
  modify (write (λ db. record db { snapshots = db.snapshots ++ r ∷ [] }))

-- INSERT INTO dataset_build_snapshot_dependencies
unfoldable pub insert_snapshot_dependency : SnapshotDependency → Action (Unit {0})
insert_snapshot_dependency r = do
  rows ← gets (λ s. s.db.snapshot_dependencies)
  require (not (any_row (λ b. b.snapshot_id == r.snapshot_id && b.series_id == r.series_id) rows))
      (unique_violation "dataset_build_snapshot_dependencies_pkey")
  modify (write (λ db. record db { snapshot_dependencies = db.snapshot_dependencies ++ r ∷ [] }))

abbrev pub same_series : DatasetSeries → DatasetSeries → Bool
same_series r d =
    d.domain == r.domain
    && d.company_code == r.company_code
    && d.fiscal_year == r.fiscal_year
    && d.period == r.period

-- INSERT INTO dataset_series … ON CONFLICT (domain, company_code, fiscal_year, period) DO NOTHING
unfoldable pub insert_series_if_absent : DatasetSeries → Action (Unit {0})
insert_series_if_absent r = do
  rows ← gets (λ s. s.db.series)
  if any_row (same_series r) rows then pure tt else (do
    require (not (any_row (λ d. d.id == r.id) rows)) (unique_violation "dataset_series_pkey")
    modify (write (λ db. record db { series = db.series ++ r ∷ [] })))

-- INSERT INTO dataset_versions
unfoldable pub insert_version : DatasetVersion → Action (Unit {0})
insert_version r = do
  rows ← gets (λ s. s.db.versions)
  require (not (any_row (λ v. v.id == r.id) rows)) (unique_violation "dataset_versions_pkey")
  require (not (any_row (λ v. v.series_id == r.series_id && v.version == r.version) rows))
      (unique_violation "uq_dataset_versions_dataset_series_id_version")
  require
      (not (
        is_active_dataset r.status
        && any_row (λ v. v.series_id == r.series_id && is_active_dataset v.status) rows))
      (unique_violation "uq_dataset_versions_active_series")
  modify (write (λ db. record db { versions = db.versions ++ r ∷ [] }))

-- INSERT INTO calculation_jobs
unfoldable pub insert_job : CalculationJob → Action (Unit {0})
insert_job r = do
  rows ← gets (λ s. s.db.jobs)
  require (not (any_row (λ j. j.id == r.id) rows)) (unique_violation "calculation_jobs_pkey")
  require
      (not (
        any_row
          (λ j.
            j.dataset_version_id == r.dataset_version_id
            && j.calculation_type_id == r.calculation_type_id)
          rows))
      (unique_violation "uq_calculation_jobs_dataset_type")
  modify (write (λ db. record db { jobs = db.jobs ++ r ∷ [] }))

-- UPDATE dataset_series SET … WHERE … RETURNING, which returns the rows after the update
unfoldable pub update_series :
    (DatasetSeries → Bool) → (DatasetSeries → DatasetSeries) → Action (List DatasetSeries)
update_series cond set = do
  matched ← gets (λ s. select cond s.db.series)
  modify (write (λ db. record db { series = update_rows cond set db.series }))
  pure (map set matched)

module _ {B : Type 0} {Q : B → Env → Type 0} {s : Env} where
  pub update_attempts-Commits :
      (cond : ExecutionAttempt → Bool) (set : ℕ → ExecutionAttempt → ExecutionAttempt)
      (f : Bool → Action B)
      → ((b : Bool) → Commits Q (f b) (write (attempts_set cond (set s.now)) s))
      → Commits Q (update_attempts cond set >>= f) s
  unfolding update_attempts ◌>>=◌
  update_attempts-Commits cond set f c = record {
    holds = (c (count_rows cond s.db.attempts == 1)).holds;
  }

  pub update_jobs-Commits :
      (cond : CalculationJob → Bool) (set : ℕ → CalculationJob → CalculationJob)
      (f : Bool → Action B)
      → ((b : Bool) → Commits Q (f b) (write (jobs_set cond (set s.now)) s))
      → Commits Q (update_jobs cond set >>= f) s
  unfolding update_jobs ◌>>=◌
  update_jobs-Commits cond set f c = record { holds = (c (count_rows cond s.db.jobs == 1)).holds }

  pub update_versions-Commits :
      (cond : DatasetVersion → Bool) (set : ℕ → DatasetVersion → DatasetVersion)
      (f : Bool → Action B)
      → ((b : Bool) → Commits Q (f b) (write (versions_set cond (set s.now)) s))
      → Commits Q (update_versions cond set >>= f) s
  unfolding update_versions ◌>>=◌
  update_versions-Commits cond set f c = record {
    holds = (c (count_rows cond s.db.versions == 1)).holds;
  }

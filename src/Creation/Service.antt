-- ===== src/Creation/Service.antt =====
-- modules/dataset-version/dataset-version.repository.ts and dataset-version.service.ts: a new DRAFT
-- version of a dataset series, with a PENDING job for each active calculation type of its domain.
use cost_engine_orchestratio.Base.{
  ℕ, ◌+◌, String, Bool, true, false, not, ◌&&◌, Option, none, some, List, [], ◌∷◌, if◌then◌else◌,
  ◌==◌, nat_eq, string_eq, option_eq, length, head?, select, find_row, sort_by,
}
use cost_engine_orchestratio.Errors.{
  Error, active_dataset_version_exists, calculation_type_not_configured, unique_violation,
  other_error,
}
use cost_engine_orchestratio.Exec.{pure, throw, gets, or_throw, require, ◌>>=◌, ◌>>◌, try_catch}
use cost_engine_orchestratio.Store.Status.{
  DatasetStatus, draft, JobStatus, pending, dataset_status_eq, job_status_eq, attempt_status_eq,
  definition_status_eq, is_active_dataset,
}
use cost_engine_orchestratio.Store.Tables.{DatasetSeries, DatasetVersion, CalculationType}
use cost_engine_orchestratio.Store.Transaction.{Env, Action, with_transaction, random_uuid}
use cost_engine_orchestratio.Store.Updates.{
  insert_series_if_absent, insert_version, insert_job, update_series,
}

pub record CreateInput : Type 0 where
  pub domain : String
  pub company_code : String
  pub fiscal_year : ℕ
  pub period : String

pub record CreatedJob : Type 0 where
  pub job_id : String
  pub calculation_type_id : String
  pub calculation_type_code : String
  pub job_status : JobStatus

pub record CreatedVersion : Type 0 where
  pub series_id : String
  pub dataset_version_id : String
  pub version : ℕ
  pub dataset_status : DatasetStatus
  pub calculation_jobs : List CreatedJob

-- CalculationJobInsert
pub record JobInsert : Type 0 where
  pub id : String
  pub calculation_type_id : String
  pub calculation_type_code : String

unfoldable pub find_series : CreateInput → Env → Option DatasetSeries
find_series input s =
    find_row
      (λ d.
        d.domain == input.domain
        && d.company_code == input.company_code
        && d.fiscal_year == input.fiscal_year
        && d.period == input.period)
      s.db.series

unfoldable pub find_or_create_and_lock_series : CreateInput → String → Action DatasetSeries
find_or_create_and_lock_series input new_series_id = do
  insert_series_if_absent (record {
    id = new_series_id;
    domain = input.domain;
    company_code = input.company_code;
    fiscal_year = input.fiscal_year;
    period = input.period;
    last_allocated_version = 0;
  })
  found ← gets (find_series input)
  or_throw found other_error

unfoldable pub find_active_dataset_version : String → Env → Option DatasetVersion
find_active_dataset_version series_id s =
    find_row (λ v. v.series_id == series_id && is_active_dataset v.status) s.db.versions

unfoldable pub allocate_next_dataset_version : String → Action ℕ
allocate_next_dataset_version series_id = do
  rows ←
      update_series (λ d. d.id == series_id)
        (λ d. record d { last_allocated_version = d.last_allocated_version + 1 })
  row ← or_throw (head? rows) other_error
  pure row.last_allocated_version

unfoldable pub insert_draft_dataset_version : String → String → ℕ → Action (Unit {0})
insert_draft_dataset_version id series_id version = insert_version (record {
  id = id;
  series_id = series_id;
  version = version;
  status = draft;
  building_started_at = none;
  validating_at = none;
  published_at = none;
  rejected_at = none;
  abandoned_at = none;
})

by_code : (String → String → Bool) → CalculationType → CalculationType → Bool
by_code le a b = if a.code == b.code then le a.id b.id else le a.code b.code

unfoldable pub find_active_calculation_types : String → Env → List CalculationType
unfolding by_code
find_active_calculation_types domain s =
    sort_by (by_code s.collation) (select (λ t. t.domain == domain && t.is_active) s.db.types)

unfoldable pub insert_pending_calculation_jobs : String → List JobInsert → Action (List CreatedJob)
insert_pending_calculation_jobs version_id [] = pure []
insert_pending_calculation_jobs version_id (job ∷ jobs) = do
  insert_job (record {
    id = job.id;
    dataset_version_id = version_id;
    calculation_type_id = job.calculation_type_id;
    status = pending;
    resolved_definition_id = none;
    started_at = none;
    finished_at = none;
  })
  rest ← insert_pending_calculation_jobs version_id jobs
  pure (
      record {
        job_id = job.id;
        calculation_type_id = job.calculation_type_id;
        calculation_type_code = job.calculation_type_code;
        job_status = pending;
      }
      ∷ rest)

-- `calculationTypes.map((t) => ({ id: randomUUID(), … }))`
unfoldable pub job_inserts : List CalculationType → Action (List JobInsert)
job_inserts [] = pure []
job_inserts (t ∷ types) = do
  id ← random_uuid
  rest ← job_inserts types
  pure (record { id = id; calculation_type_id = t.id; calculation_type_code = t.code } ∷ rest)

abbrev pub active_absent : Option DatasetVersion → Bool
active_absent none = true
active_absent (some _) = false

unfoldable pub create_transaction : CreateInput → Action CreatedVersion
create_transaction input = do
  new_series_id ← random_uuid
  series ← find_or_create_and_lock_series input new_series_id
  active ← gets (find_active_dataset_version series.id)
  require (active_absent active) active_dataset_version_exists
  version ← allocate_next_dataset_version series.id
  version_id ← random_uuid
  insert_draft_dataset_version version_id series.id version
  types ← gets (find_active_calculation_types input.domain)
  require (not (length types == 0)) calculation_type_not_configured
  inserts ← job_inserts types
  jobs ← insert_pending_calculation_jobs version_id inserts
  pure (record {
    series_id = series.id;
    dataset_version_id = version_id;
    version = version;
    dataset_status = draft;
    calculation_jobs = jobs;
  })

-- a violation of the index on active versions is reported as the domain's own conflict
unfoldable pub translate_violation : Error → Error
translate_violation (unique_violation constraint) =
    if constraint == "uq_dataset_versions_active_series"
    then active_dataset_version_exists
    else unique_violation constraint
translate_violation e = e

unfoldable pub create_dataset_version_service : CreateInput → Action CreatedVersion
create_dataset_version_service input =
    try_catch (with_transaction (create_transaction input)) (λ e. throw (translate_violation e))

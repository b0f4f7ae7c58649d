-- ===== src/Creation/Durable.antt =====
-- modules/dataset-version/dataset-version.service.ts: what a creation answers, beside what the tables hold.
use cost_engine_orchestratio.Base.{String, ◌≡◌, List, map, Memᴰ, nat_eq, string_eq, option_eq}
use cost_engine_orchestratio.Exec.Commits.{Commits}
use cost_engine_orchestratio.Store.Status.{
  draft, pending, dataset_status_eq, job_status_eq, attempt_status_eq, definition_status_eq,
}
use cost_engine_orchestratio.Store.Tables.{DatasetVersion, CalculationType, CalculationJob}
use cost_engine_orchestratio.Store.Transaction.{Env}
use cost_engine_orchestratio.Creation.Service.{
  CreatedJob, CreatedVersion, find_active_calculation_types,
}

-- A PENDING job of the version is in the tables as it is answered.
abbrev pub JobHeld : String → CreatedJob → Env → Type 0
JobHeld version_id j t =
    (row : CalculationJob) × Memᴰ row t.db.jobs
    × (row.id ≡ j.job_id)
    × (row.dataset_version_id ≡ version_id)
    × (row.calculation_type_id ≡ j.calculation_type_id)
    × (row.status ≡ pending)
    × (j.job_status ≡ pending)

-- The DRAFT version is in the tables as it is answered, with its jobs: one for each active calculation type
-- of the domain, in the order of the types.
pub record Created (domain : String) (r : CreatedVersion) (t : Env) : Type 0 where
  pub version : DatasetVersion
  pub version_in : Memᴰ version t.db.versions
  pub has_id : version.id ≡ r.dataset_version_id
  pub has_series : version.series_id ≡ r.series_id
  pub has_number : version.version ≡ r.version
  pub in_draft : version.status ≡ draft
  pub answered_draft : r.dataset_status ≡ draft
  pub jobs_held : (j : CreatedJob) → Memᴰ j r.calculation_jobs → JobHeld r.dataset_version_id j t
  pub job_types :
      map (λ j. j.calculation_type_id) r.calculation_jobs
      ≡ map (λ t. t.id) (find_active_calculation_types domain t)

module _ (domain : String) (v : DatasetVersion) (types : List CalculationType) where
  -- the version is there, and the active types of the domain are the ones that were read
  abbrev Drafted : Env → Type 0
  Drafted t = Memᴰ v t.db.versions × (find_active_calculation_types domain t ≡ types)
